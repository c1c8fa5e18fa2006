-- ===== src/Dedup.antt =====
-- libcsp/src/csp_dedup.c: the checksums of the last packets, each with the time it came. csp_get_ms is
-- called for each slot that matches and once to store the time: `clock i` is its value at slot i, and
-- `clock 16` the value that is stored.
pub mod Window
pub mod Cases
mod Tests
use damat_tutorial.Prelude.{
  ℕ, ◌+◌, ◌%◌, ◌^◌, Bool, true, false, ◌&&◌, List, [], ◌∷◌, if◌then◌else◌, ltb, ◌==◌, set,
  replicate,
}
use damat_tutorial.Packet.{Packet}
use damat_tutorial.Id.{id_prepend}
use damat_tutorial.Crc.{crc32_memory, frame_bytes}

-- CSP_DEDUP_COUNT and CSP_DEDUP_WINDOW_MS
abbrev pub dedup_count : ℕ
dedup_count = 16

abbrev pub window_ms : ℕ
window_ms = 100

-- csp_dedup_array, csp_dedup_timestamp and csp_dedup_in
pub record Dedup : Type 0 where
  pub array : List ℕ
  pub timestamp : List ℕ
  pub in_pos : ℕ

abbrev pub at_start : Dedup
at_start = record { array = replicate 16 0; timestamp = replicate 16 0; in_pos = 0 }

-- The test of slot i
abbrev pub is_match : ℕ → ℕ → ℕ → ℕ → Bool
is_match crc now stored time = crc == stored && ltb now ((time + window_ms) % 2 ^ 32)

-- The loop over the slots, from slot i on
unfoldable pub any_match : ℕ → (ℕ → ℕ) → ℕ → List ℕ → List ℕ → Bool
any_match crc clock i (stored ∷ array) (time ∷ timestamp) =
    if is_match crc (clock i) stored time then true else any_match crc clock (i + 1) array timestamp
any_match crc clock i [] timestamp = false
any_match crc clock i (stored ∷ array) [] = false

-- The rest of the function
unfoldable pub insert : ℕ → ℕ → Dedup → Dedup
insert crc now d = record {
  array = set d.array d.in_pos crc;
  timestamp = set d.timestamp d.in_pos now;
  in_pos = (d.in_pos + 1) % dedup_count;
}

-- The two, for a checksum
unfoldable pub check : ℕ → (ℕ → ℕ) → Dedup → Bool × Dedup
unfolding any_match insert
check crc clock d =
    if any_match crc clock 0 d.array d.timestamp
    then (true, d)
    else (false, insert crc (clock dedup_count) d)

-- csp_dedup_is_duplicate
unfoldable pub is_duplicate : ℕ → (ℕ → ℕ) → Packet → Dedup → (Bool × Dedup) × Packet
unfolding check
is_duplicate version clock p d =
    let p' = id_prepend version p in (check (crc32_memory (frame_bytes p')) clock d, p')
