-- ===== src/Dedup/Cases.antt =====
-- The two outcomes of csp_dedup_is_duplicate.
use mathlib.Core.Path.{subst}
use damat_tutorial.Prelude.{
  ℕ, ◌∙◌, sym, ◌≢◌, get_or-set_other, zero, suc, ◌+◌, ◌%◌, ◌<◌, ◌^◌, ◌≡◌, refl, true, false, arith,
  List, [], ◌∷◌, Bool-cases, ◌⊎◌, inl, inr, length, get_or, get_or-set_self,
}
use damat_tutorial.Packet.{Packet}
use damat_tutorial.Id.{id_prepend}
use damat_tutorial.Crc.{crc32_memory, frame_bytes}
use damat_tutorial.Dedup.{
  dedup_count, window_ms, Dedup, is_match, any_match, insert, check, is_duplicate,
}
use damat_tutorial.Dedup.Window.{IsValid, insert-Holds_new}

-- Slot i holds the checksum of the packet, with a time whose window is not over.
abbrev pub Matches : ℕ → (ℕ → ℕ) → Dedup → ℕ → Type 0
Matches crc clock d i =
    (i < dedup_count)
    × (get_or d.array i 0 ≡ crc)
    × (clock i < (get_or d.timestamp i 0 + window_ms) % 2 ^ 32)

abbrev MatchIn : ℕ → (ℕ → ℕ) → ℕ → List ℕ → List ℕ → ℕ → Type 0
MatchIn crc clock k array timestamp i =
    (i < length array)
    × (get_or array i 0 ≡ crc)
    × (clock (k + i) < (get_or timestamp i 0 + window_ms) % 2 ^ 32)

is_match-true :
    (crc now stored time : ℕ)
    → is_match crc now stored time ≡ true
    → (stored ≡ crc) × (now < (time + window_ms) % 2 ^ 32)
is_match-true crc now stored time e = (ground arith, ground arith)

-- The loop answers true if and only if some slot matches.
any_match_cases :
    (crc : ℕ) (clock : ℕ → ℕ) (k : ℕ) (array timestamp : List ℕ)
    → length array ≡ length timestamp
    → ((any_match crc clock k array timestamp ≡ true)
        × ((i : ℕ) × MatchIn crc clock k array timestamp i))
      ⊎ ((any_match crc clock k array timestamp ≡ false)
          × ((i : ℕ) → MatchIn crc clock k array timestamp i → ⊥))
unfolding any_match
any_match_cases crc clock k [] timestamp same = inr (refl, λ i m. absurd (omega (arith, m.0)))
any_match_cases crc clock k (c ∷ array) [] same = absurd (omega arith)
any_match_cases crc clock k (c ∷ array) (t ∷ timestamp) same =
    elim (Bool-cases (is_match crc (clock k) c t)) [
      | inl hit ↦
          let (stored, recent) = is_match-true crc (clock k) c t hit in
          inl (
            rw hit refl,
            (
              0,
              (
                omega arith,
                stored,
                subst (λ j. clock j < (t + window_ms) % 2 ^ 32) {x = k} {y = k + 0} (omega arith)
                    recent,
              ),
            ),
          )
      | inr miss ↦ elim (any_match_cases crc clock (k + 1) array timestamp (omega arith)) [
        | inl (found, (i, (inside, stored, recent))) ↦ inl (
          rw miss found,
          (
            suc i,
            (
              omega (arith, inside),
              stored,
              subst (λ j. clock j < (get_or timestamp i 0 + window_ms) % 2 ^ 32) {x = k + 1 + i}
                  {y = k + suc i} (omega arith) recent,
            ),
          ),
        )
        | inr (nothing, none_of) ↦ inr (rw miss nothing, no_slot miss none_of)
      ]
    ]
  where
    no_slot :
        is_match crc (clock k) c t ≡ false
        → ((i : ℕ) → MatchIn crc clock (k + 1) array timestamp i → ⊥)
        → (i : ℕ) → MatchIn crc clock k (c ∷ array) (t ∷ timestamp) i
        → ⊥
    no_slot miss none_of zero (inside, stored, recent) =
        let now : clock k < (t + window_ms) % 2 ^ 32 =
          subst (λ j. clock j < (t + window_ms) % 2 ^ 32) {x = k + 0} {y = k} (omega arith)
            recent in
        ground arith
    no_slot miss none_of (suc i) (inside, stored, recent) = none_of i (
      omega (arith, inside),
      stored,
      subst (λ j. clock j < (get_or timestamp i 0 + window_ms) % 2 ^ 32) {x = k + suc i}
          {y = k + 1 + i} (omega arith) recent,
    )

-- The slot at csp_dedup_in has the checksum and the time, the others are as before, and
-- csp_dedup_in goes on by one, around the ring.
pub record Stored (crc now : ℕ) (d d' : Dedup) : Type 0 where
  pub array : get_or d'.array d.in_pos 0 ≡ crc
  pub timestamp : get_or d'.timestamp d.in_pos 0 ≡ now
  pub other :
      (i : ℕ)
      → i ≢ d.in_pos
      → (get_or d'.array i 0 ≡ get_or d.array i 0)
        × (get_or d'.timestamp i 0 ≡ get_or d.timestamp i 0)
  pub advanced : d'.in_pos ≡ (d.in_pos + 1) % dedup_count
  pub valid : IsValid d'

insert-Stored : (crc now : ℕ) (d : Dedup) → IsValid d → Stored crc now d (insert crc now d)
unfolding insert
insert-Stored crc now d v = record {
  array = get_or-set_self d.array d.in_pos crc 0 (omega (arith, v.in_pos, v.array));
  timestamp = get_or-set_self d.timestamp d.in_pos now 0 (omega (arith, v.in_pos, v.timestamp));
  other = λ i apart. (
    get_or-set_other d.array d.in_pos i crc 0 apart,
    get_or-set_other d.timestamp d.in_pos i now 0 apart,
  );
  advanced = refl;
  valid = (insert-Holds_new crc now d v).valid;
}

-- csp_dedup_is_duplicate on a ring of CSP_DEDUP_COUNT slots. If some slot holds the checksum of the
-- frame with a time whose window is not over, the answer is true, and the ring stays as it is. If no
-- slot does, the answer is false, the slot at csp_dedup_in gets the checksum and the time, all other
-- slots stay, and csp_dedup_in goes on by one, around the ring. There is no third case.
pub is_duplicate_cases :
    (version : ℕ) (clock : ℕ → ℕ) (p : Packet) (d : Dedup)
    → IsValid d
    → let crc = crc32_memory (frame_bytes (id_prepend version p)) in
      (((is_duplicate version clock p d).0 ≡ (true, d)) × ((i : ℕ) × Matches crc clock d i))
      ⊎ (((is_duplicate version clock p d).0.0 ≡ false)
          × ((i : ℕ) → ¬ Matches crc clock d i)
          × Stored crc (clock dedup_count) d (is_duplicate version clock p d).0.1)
unfolding is_duplicate check
is_duplicate_cases version clock p d v =
    elim (any_match_cases crc clock 0 d.array d.timestamp (v.array ∙ sym v.timestamp)) [
      | inl (hit, (i, (inside, stored, recent))) ↦
          rw hit (inl (refl, (i, (omega (arith, inside, v.array), stored, from_start i recent))))
      | inr (miss, none_of) ↦ rw miss (
          inr (
            refl,
            λ i (inside, stored, recent).
                none_of i (omega (arith, inside, v.array), stored, to_start i recent),
            insert-Stored crc (clock dedup_count) d v,
          ))
    ]
  where
    crc : ℕ
    crc = crc32_memory (frame_bytes (id_prepend version p))

    from_start :
        (i : ℕ)
        → clock (0 + i) < (get_or d.timestamp i 0 + window_ms) % 2 ^ 32
        → clock i < (get_or d.timestamp i 0 + window_ms) % 2 ^ 32
    from_start i =
        subst (λ j. clock j < (get_or d.timestamp i 0 + window_ms) % 2 ^ 32) {x = 0 + i} {y = i}
          (omega arith)

    to_start :
        (i : ℕ)
        → clock i < (get_or d.timestamp i 0 + window_ms) % 2 ^ 32
        → clock (0 + i) < (get_or d.timestamp i 0 + window_ms) % 2 ^ 32
    to_start i =
        subst (λ j. clock j < (get_or d.timestamp i 0 + window_ms) % 2 ^ 32) {x = i} {y = 0 + i}
          (omega arith)
