-- ===== src/Dedup/Tests.antt =====
-- Runs of csp_dedup.c, and its theorems at concrete packets.
use damat_tutorial.Prelude.{
  ℕ, ◌^◌, ◌≡◌, ◌⊎◌, refl, ◌-◌, true, false, arith, [], ◌∷◌, ◌++◌, replicate,
}
use damat_tutorial.Packet.{Packet}
use damat_tutorial.Packet.Bytes.{write_bytes, read_bytes}
use damat_tutorial.Id.{id_prepend, id1_prepend, id1_pack}
use damat_tutorial.Crc.{crc_tab, crc_step, crc_loop, crc32_memory, frame_bytes}
use damat_tutorial.Dedup.{at_start, any_match, insert, check, is_duplicate}
use damat_tutorial.Dedup.Window.{IsValid, follow, is_duplicate_again}
use damat_tutorial.Dedup.Cases.{Matches, Stored, is_duplicate_cases}

abbrev beacon : Packet
beacon = record {
  id = record { pri = 2; flags = 0; src = 3; dst = 5; dport = 10; sport = 17 };
  len = 2;
  frame_begin = 0;
  frame_length = 0;
  buf = replicate 8 0 ++ (104 ∷ 105 ∷ replicate 6 0);
}

at_start-IsValid : IsValid at_start
at_start-IsValid = record { array = refl; timestamp = refl; in_pos = omega arith }

first_passes : (is_duplicate 1 (λ i. 5000) beacon at_start).0.0 ≡ false
unfolding is_duplicate check any_match insert id_prepend id1_prepend id1_pack crc32_memory crc_loop
    crc_step crc_tab write_bytes read_bytes
first_passes = refl

-- When the clock wraps around, a packet of the last window before is a duplicate for as long as the
-- clock then takes: here it came 205 milliseconds ago.
wrapped : (check 7 (λ i. 5) (insert 7 (2 ^ 32 - 200) at_start)).0 ≡ true
unfolding check any_match insert
wrapped = refl

-- A frame with the checksum 0 is a duplicate in the first 100 milliseconds, though none came before.
fresh_zero : (check 0 (λ i. 99) at_start).0 ≡ true
unfolding check any_match
fresh_zero = refl

is_duplicate_again_example :
    (is_duplicate 1
      (λ i. 5099)
      beacon
      (follow 1
        (((λ i. 5000), record beacon { len = 1 }) ∷ [])
        (is_duplicate 1 (λ i. 5000) beacon at_start).0.1)).0
    ≡ (
      true,
      follow 1
          (((λ i. 5000), record beacon { len = 1 }) ∷ [])
          (is_duplicate 1 (λ i. 5000) beacon at_start).0.1,
    )
is_duplicate_again_example =
    is_duplicate_again 1 (λ i. 5000) (λ i. 5099) beacon beacon
      (((λ i. 5000), record beacon { len = 1 }) ∷ []) at_start at_start-IsValid first_passes
      (omega arith) refl (omega arith) (λ i. omega arith)

is_duplicate_cases_example :
    let crc = crc32_memory (frame_bytes (id_prepend 1 beacon)) in
    let o = (is_duplicate 1 (λ i. 5000) beacon at_start).0 in
    ((o ≡ (true, at_start)) × ((i : ℕ) × Matches crc (λ i. 5000) at_start i))
    ⊎ ((o.0 ≡ false)
        × ((i : ℕ) → ¬ Matches crc (λ i. 5000) at_start i)
        × Stored crc 5000 at_start o.1)
is_duplicate_cases_example = is_duplicate_cases 1 (λ i. 5000) beacon at_start at_start-IsValid
