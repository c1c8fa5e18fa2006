-- ===== src/Dedup/Window.antt =====
-- A packet that comes again within the window is found.
use mathlib.Core.Path.{subst}
use damat_tutorial.Prelude.{
  ℕ, zero, suc, ◌+◌, ◌%◌, ◌<◌, ◌≤◌, ◌^◌, ◌≡◌, ◌≢◌, ◌∙◌, refl, ap, Bool, true, false, arith, List,
  [], ◌∷◌, if◌then◌else◌, Bool-cases, inl, inr, length, length-set, get_or, get_or-set_self,
  get_or-set_other, ltb, ◌==◌,
}
use damat_tutorial.Packet.{Packet}
use damat_tutorial.Id.{id_prepend}
use damat_tutorial.Crc.{crc32_memory, frame_bytes}
use damat_tutorial.Dedup.{
  dedup_count, window_ms, Dedup, is_match, any_match, insert, check, is_duplicate,
}

pub record IsValid (d : Dedup) : Type 0 where
  pub array : length d.array ≡ dedup_count
  pub timestamp : length d.timestamp ≡ dedup_count
  pub in_pos : d.in_pos < dedup_count

-- The checksum stands in the ring with its time, and `newer` packets were stored behind it.
pub record Holds (crc time newer : ℕ) (d : Dedup) : Type 0 where
  pub valid : IsValid d
  pub slot : ℕ
  pub slot_in : slot < dedup_count
  pub stored : get_or d.array slot 0 ≡ crc
  pub since : get_or d.timestamp slot 0 ≡ time
  pub few : newer < dedup_count
  pub behind : d.in_pos ≡ (slot + 1 + newer) % dedup_count

any_match_hit :
    (crc : ℕ) (clock : ℕ → ℕ) (i : ℕ) (array timestamp : List ℕ) (s time : ℕ)
    → s < length array
    → s < length timestamp
    → get_or array s 0 ≡ crc
    → get_or timestamp s 0 ≡ time
    → clock (i + s) < (time + window_ms) % 2 ^ 32
    → any_match crc clock i array timestamp ≡ true
unfolding any_match
any_match_hit crc clock i [] timestamp s time a b stored since recent = absurd (omega arith)
any_match_hit crc clock i (c ∷ array) [] s time a b stored since recent = absurd (omega arith)
any_match_hit crc clock i (c ∷ array) (t ∷ timestamp) zero time a b stored since recent =
    let now : clock i < (t + window_ms) % 2 ^ 32 =
      rw (since) (subst (λ k. clock k < (time + window_ms) % 2 ^ 32) (omega arith) recent) in
    let same : (crc == c) ≡ true = ground arith in
    let inside : ltb (clock i) ((t + window_ms) % 2 ^ 32) ≡ true = ground arith in
    rw (same, inside) refl
any_match_hit crc clock i (c ∷ array) (t ∷ timestamp) (suc s) time a b stored since recent =
    elim (Bool-cases (is_match crc (clock i) c t)) [
      | inl hit ↦ rw hit refl
      | inr miss ↦ rw miss (
          any_match_hit crc clock (i + 1) array timestamp s time (omega arith) (omega arith) stored
            since
            (subst (λ k. clock k < (time + window_ms) % 2 ^ 32) {x = i + suc s} {y = i + 1 + s}
              (omega arith) recent))
    ]

pub insert-Holds_new : (crc now : ℕ) (d : Dedup) → IsValid d → Holds crc now 0 (insert crc now d)
unfolding insert
insert-Holds_new crc now d v = record {
  valid = record {
    array = length-set d.array d.in_pos crc ∙ v.array;
    timestamp = length-set d.timestamp d.in_pos now ∙ v.timestamp;
    in_pos = omega arith;
  };
  slot = d.in_pos;
  slot_in = v.in_pos;
  stored = get_or-set_self d.array d.in_pos crc 0 (omega (arith, v.in_pos, v.array));
  since = get_or-set_self d.timestamp d.in_pos now 0 (omega (arith, v.in_pos, v.timestamp));
  few = omega arith;
  behind = omega arith;
}

insert-Holds :
    (crc time newer crc' now : ℕ) (d : Dedup)
    → Holds crc time newer d
    → newer + 1 < dedup_count
    → Holds crc time (newer + 1) (insert crc' now d)
unfolding insert
insert-Holds crc time newer crc' now d h less =
    let in_pos = h.valid.in_pos in
    let slot_in = h.slot_in in
    let behind = h.behind in
    let other : h.slot ≢ d.in_pos = λ e. absurd (omega arith) in
    record {
      valid = record {
        array = length-set d.array d.in_pos crc' ∙ h.valid.array;
        timestamp = length-set d.timestamp d.in_pos now ∙ h.valid.timestamp;
        in_pos = omega arith;
      };
      slot = h.slot;
      slot_in = slot_in;
      stored = get_or-set_other d.array d.in_pos h.slot crc' 0 other ∙ h.stored;
      since = get_or-set_other d.timestamp d.in_pos h.slot now 0 other ∙ h.since;
      few = less;
      behind = omega arith;
    }

-- The checksum is there, with at most n packets stored behind it.
abbrev Recent : ℕ → ℕ → ℕ → Dedup → Type 0
Recent crc time n d = (newer : ℕ) × (newer ≤ n) × Holds crc time newer d

check-Recent :
    (crc time n crc' : ℕ) (clock : ℕ → ℕ) (d : Dedup)
    → Recent crc time n d
    → n + 1 < dedup_count
    → Recent crc time (n + 1) (check crc' clock d).1
unfolding check
check-Recent crc time n crc' clock d (newer, le, h) less =
    elim (Bool-cases (any_match crc' clock 0 d.array d.timestamp)) [
      | inl hit ↦ rw hit (newer, omega (arith, le), h)
      | inr miss ↦ rw miss (
        newer + 1,
        omega (arith, le),
        insert-Holds crc time newer crc' (clock dedup_count) d h (omega (arith, le, less)),
      )
    ]

check-stored :
    (crc : ℕ) (clock : ℕ → ℕ) (d : Dedup)
    → IsValid d
    → (check crc clock d).0 ≡ false
    → Recent crc (clock dedup_count) 0 (check crc clock d).1
unfolding check
check-stored crc clock d v e = elim (Bool-cases (any_match crc clock 0 d.array d.timestamp)) [
  | inl hit ↦ let no : true ≡ false = rw hit at e in absurd (ground arith)
  | inr miss ↦ rw miss (0, omega arith, insert-Holds_new crc (clock dedup_count) d v)
]

-- The ring behind a sequence of packets, each with the clock of its call
unfoldable pub follow : ℕ → List ((ℕ → ℕ) × Packet) → Dedup → Dedup
follow version [] d = d
follow version (call ∷ calls) d = follow version calls (is_duplicate version call.0 call.1 d).0.1

follow-Recent :
    (version crc time n : ℕ) (calls : List ((ℕ → ℕ) × Packet)) (d : Dedup)
    → Recent crc time n d
    → n + length calls < dedup_count
    → Recent crc time (n + length calls) (follow version calls d)
unfolding follow is_duplicate
follow-Recent version crc time n [] d h less =
    subst (λ k. Recent crc time k d) {x = n} {y = n + 0} (omega arith) h
follow-Recent version crc time n (call ∷ calls) d h less =
    subst (λ k. Recent crc time k (follow version calls (is_duplicate version call.0 call.1 d).0.1))
      {x = n + 1 + length calls} {y = n + suc (length calls)} (omega arith)
      (follow-Recent version crc time (n + 1) calls _
        (check-Recent crc time n _ call.0 d h (omega (arith, less))) (omega (arith, less)))

Recent-any_match :
    (crc time n : ℕ) (clock : ℕ → ℕ) (d : Dedup)
    → Recent crc time n d
    → ((i : ℕ) → clock i < (time + window_ms) % 2 ^ 32)
    → (check crc clock d) ≡ (true, d)
unfolding check
Recent-any_match crc time n clock d (newer, le, h) recent =
    ap {A = Bool} {B = Bool × Dedup}
      (λ b. if b then (true, d) else (false, insert crc (clock dedup_count) d))
      (any_match_hit crc clock 0 d.array d.timestamp h.slot time
        (omega (arith, h.slot_in, h.valid.array)) (omega (arith, h.slot_in, h.valid.timestamp))
        h.stored h.since (recent (0 + h.slot)))

-- A packet that csp_dedup_is_duplicate has let through is caught when it comes again: if at most
-- fifteen other packets were checked since, the frame has the same bytes, and csp_get_ms has not
-- reached the stored time and CSP_DEDUP_WINDOW_MS, a sum that fits a uint32_t, then the answer is
-- true and the ring stays as it is.
pub is_duplicate_again :
    (version : ℕ) (clock clock' : ℕ → ℕ) (p q : Packet) (others : List ((ℕ → ℕ) × Packet))
    (d : Dedup)
    → IsValid d
    → (is_duplicate version clock p d).0.0 ≡ false
    → length others < dedup_count
    → frame_bytes (id_prepend version q) ≡ frame_bytes (id_prepend version p)
    → clock dedup_count + window_ms < 2 ^ 32
    → ((i : ℕ) → clock' i < clock dedup_count + window_ms)
    → (is_duplicate version clock' q (follow version others (is_duplicate version clock p d).0.1)).0
      ≡ (true, follow version others (is_duplicate version clock p d).0.1)
unfolding is_duplicate
is_duplicate_again version clock clock' p q others d v passed few same fits recent =
    ap (λ l. check (crc32_memory l) clock' (follow version others (check crc clock d).1)) same
    ∙ Recent-any_match crc (clock dedup_count) (0 + length others) clock' _
        (follow-Recent version crc (clock dedup_count) 0 others _
          (check-stored crc clock d v passed) (omega (arith, few)))
        (λ i. let now = recent i in omega arith)
  where
    crc : ℕ
    crc = crc32_memory (frame_bytes (id_prepend version p))
