-- ===== src/Sfp/Safety.antt =====
-- csp_sfp_recv_fp on any packets: it copies inside its memory, and frees what it reads.
use mathlib.Core.Path.{subst}
use damat_tutorial.Prelude.{
  ℕ, ◌+◌, ◌-◌, ◌%◌, ◌^◌, ◌<◌, ◌≤◌, ◌≡◌, ◌∙◌, ◌⊎◌, refl, ap, sym, Bool, true, false, not, ◌||◌,
  arith, All, Option, none, some, List, [], ◌∷◌, ◌++◌, map, if◌then◌else◌, ltb, leb, ◌==◌,
  Bool-cases, inl, inr, length, bit_and,
}
use mathlib.Core.List.{append_assoc}
use damat_tutorial.Prelude.Int.{pos, negsuc}
use damat_tutorial.Packet.{Packet, padding_bytes}
use damat_tutorial.Packet.Bytes.{write_bytes, read_bytes, length-write_bytes}
use damat_tutorial.Sfp.{
  SfpHeader, Received, Progress, Result, Turn, failed, complete, wanting, overrun, with_memory,
  got_memory, on_memory, on_header, copy_out, copied, continue_recv, recv_loop, recv_fp, at_start,
  header_remove, header_at, free_it, with_first,
}
use damat_tutorial.Sfp.Receiving.{both}

-- The data of the packet lie in its buffer, and the length is that of a uint16_t.
abbrev pub InBuffer : Packet → Type 0
InBuffer p = (p.len < 2 ^ 16) × (padding_bytes + p.len ≤ length p.buf)

-- malloc gives memory of the size that was asked for, and never the last 64 KB of 4 GB.
abbrev pub IsAllocator : (ℕ → Option (List ℕ)) → Type 0
IsAllocator malloc =
    (n : ℕ) (m : List ℕ) → malloc n ≡ some m → (length m ≡ n) × (n + 2 ^ 16 ≤ 2 ^ 32)

data Cut : Option (SfpHeader × Packet) → Type 0 where
  refused : Cut none
  cut_off : (h : SfpHeader) (p : Packet) → InBuffer p → Cut (some (h, p))

header_remove-Cut : (f : Packet) → InBuffer f → Cut (header_remove f)
unfolding header_remove
header_remove-Cut f (short, inside) =
    by_tests (bit_and f.id.flags 0x10 == 0) (ltb f.len 8) (ltb h.totalsize h.offset)
  where
    h : SfpHeader
    h = header_at f.buf (padding_bytes + (f.len - 8))

    by_tests :
        (unmarked small unordered : Bool)
        → Cut (
            if unmarked
            then none
            else (if small
                then none
                else (if unordered then none else some (h, record f { len = f.len - 8 }))))
    by_tests true small unordered = refused
    by_tests false true unordered = refused
    by_tests false false true = refused
    by_tests false false false = cut_off h (record f { len = f.len - 8 }) (omega arith, omega arith)

-- The memory of a receiver that has some
record HasMemory (m : List ℕ) (s : Progress) : Type 0 where
  is_memory : s.memory ≡ some m
  whole : length m ≡ s.datasize
  below : s.datasize + 2 ^ 16 ≤ 2 ^ 32
  inside : s.data_offset ≤ s.datasize

data Sound (s : Progress) : Type 0 where
  untouched : s.memory ≡ none → s.data_offset ≡ 0 → Sound s
  holding : (m : List ℕ) → HasMemory m s → Sound s

data Supplied (s : Progress) : Option Progress → Type 0 where
  no_memory : Supplied s none
  supplied :
      (m : List ℕ) (s' : Progress) → HasMemory m s' → s'.freed ≡ s.freed → Supplied s (some s')

with_memory-Supplied :
    (malloc : ℕ → Option (List ℕ)) (total : ℕ) (s : Progress)
    → IsAllocator malloc
    → Sound s
    → Supplied s (with_memory malloc total s.memory s)
with_memory-Supplied malloc total s allocates (holding m held) =
    subst (λ o. Supplied s (with_memory malloc total o s)) (sym held.is_memory)
      (supplied m s held refl)
with_memory-Supplied malloc total s allocates (untouched empty at_zero) =
    subst (λ o. Supplied s (with_memory malloc total o s)) (sym empty)
      (of_malloc (malloc total) refl)
  where
    of_malloc : (o : Option (List ℕ)) → malloc total ≡ o → Supplied s (got_memory total o s)
    of_malloc none e = no_memory
    of_malloc (some m) e =
        let (size, below) = allocates total m e in
        supplied m (record s { memory = some m; datasize = total })
          (record {
            is_memory = refl;
            whole = size;
            below = below;
            inside = omega (arith, at_zero);
          })
          refl

-- How an iteration may end that leaves these buffers freed
data Ends (freed : List ℕ) : Turn → Type 0 where
  ends_failed : (n : ℕ) (s' : Progress) → s'.freed ≡ freed → Ends freed (failed (negsuc n) s')
  ends_complete :
      (m : List ℕ) (s' : Progress)
      → s'.freed ≡ freed
      → s'.memory ≡ some m
      → length m ≡ s'.datasize
      → Ends freed (complete s')
  ends_wanting : (s' : Progress) → s'.freed ≡ freed → Sound s' → Ends freed (wanting s')

copied-Ends :
    (i : ℕ) (p : Packet) (m : List ℕ) (s : Progress)
    → InBuffer p
    → HasMemory m s
    → s.data_offset + p.len ≤ s.datasize
    → Ends (s.freed ++ i ∷ []) (copied i p (copy_out p s.data_offset s.memory) s)
copied-Ends i p m s (short, in_buffer) held fits =
    subst (λ o. Ends (s.freed ++ i ∷ []) (copied i p o s)) (sym copy)
      (by_tests (leb s.datasize s'.data_offset) (p.len == 0) refl)
  where
    m' : List ℕ
    m' = write_bytes m s.data_offset (read_bytes p.buf padding_bytes p.len)

    m'_length : length m' ≡ s.datasize
    m'_length =
        length-write_bytes m s.data_offset (read_bytes p.buf padding_bytes p.len) ∙ held.whole

    s' : Progress
    s' = record s { memory = some m'; data_offset = (s.data_offset + p.len) % 2 ^ 32 }

    copy : copy_out p s.data_offset s.memory ≡ some m'
    copy =
        ap (copy_out p s.data_offset) held.is_memory
        ∙ rw
            (both (s.data_offset + p.len) (length m) (padding_bytes + p.len) (length p.buf)
              (omega (arith, held.whole)) in_buffer)
            refl

    still : leb s.datasize s'.data_offset ≡ false → HasMemory m' (free_it i s')
    still e = record {
      is_memory = refl;
      whole = m'_length;
      below = held.below;
      inside = omega (arith, fits, held.below);
    }

    by_tests :
        (done empty : Bool)
        → leb s.datasize s'.data_offset ≡ done
        → Ends (s.freed ++ i ∷ []) (
            if done
            then complete (free_it i s')
            else (if empty then failed (negsuc 102) (free_it i s') else wanting (free_it i s')))
    by_tests true empty e = ends_complete m' (free_it i s') refl refl m'_length
    by_tests false true e = ends_failed 102 (free_it i s') refl
    by_tests false false e = ends_wanting (free_it i s') refl (holding m' (still e))

first_false : (a b : ℕ) (c : Bool) → (ltb a b || c) ≡ false → b ≤ a
first_false a b c e = ground arith

on_memory-Ends :
    (i : ℕ) (h : SfpHeader) (p : Packet) (s : Progress) (o : Option Progress)
    → InBuffer p
    → Supplied s o
    → Ends (s.freed ++ i ∷ []) (on_memory i h p o s)
on_memory-Ends i h p s none inside no_memory = ends_failed 0 (free_it i s) refl
on_memory-Ends i h p s (some s1) inside (supplied m s2 held freed) =
    subst (λ l. Ends (l ++ i ∷ []) (on_memory i h p (some s1) s)) freed
      (elim (Bool-cases too_long) [
        | inl rejected ↦ rw rejected (ends_failed 102 (free_it i s1) refl)
        | inr accepted ↦ rw accepted (copied-Ends i p m s1 inside held (by_test accepted))
      ])
  where
    too_long : Bool
    too_long =
        ltb s1.datasize ((s1.data_offset + p.len) % 2 ^ 32) || not (s1.datasize == h.totalsize)

    -- The sum does not wrap around.
    by_test : too_long ≡ false → s1.data_offset + p.len ≤ s1.datasize
    by_test e =
        let fits : (s1.data_offset + p.len) % 2 ^ 32 ≤ s1.datasize =
          first_false s1.datasize ((s1.data_offset + p.len) % 2 ^ 32)
            (not (s1.datasize == h.totalsize)) e in
        omega (arith, fits, held.below, held.inside, inside.0)

on_header-Ends :
    (malloc : ℕ → Option (List ℕ)) (i : ℕ) (o : Option (SfpHeader × Packet)) (s : Progress)
    → IsAllocator malloc
    → Sound s
    → Cut o
    → Ends (s.freed ++ i ∷ []) (on_header malloc i o s)
on_header-Ends malloc i none s allocates sound refused = ends_failed 102 (free_it i s) refl
on_header-Ends malloc i (some t) s allocates sound (cut_off h p inside) =
    by_test (h.offset == s.data_offset)
  where
    by_test :
        (expected : Bool)
        → Ends (s.freed ++ i ∷ []) (
            if expected
            then on_memory i h p (with_memory malloc h.totalsize s.memory s) s
            else failed (negsuc 102) (free_it i s))
    by_test true =
        on_memory-Ends i h p s (with_memory malloc h.totalsize s.memory s) inside
          (with_memory-Supplied malloc h.totalsize s allocates sound)
    by_test false = ends_failed 102 (free_it i s) refl

-- The answer: CSP_ERR_NONE with memory of the size it says, or an error with none
abbrev pub IsAnswer : Result → Type 0
IsAnswer r =
    ((m : List ℕ) × (r.code ≡ pos 0) × (r.return_data ≡ some m) × (length m ≡ r.return_datasize))
    ⊎ ((n : ℕ) × (r.code ≡ negsuc n) × (r.return_data ≡ none) × (r.return_datasize ≡ 0))

-- A run answers, and each of the buffers `all` is freed or left.
abbrev pub Accounts : List ℕ → Option Result → Type 0
Accounts all run =
    (r : Result) × (run ≡ some r) × (r.freed ++ map (λ x. x.buffer) r.left ≡ all) × IsAnswer r

continue_recv-Accounts :
    (i : ℕ) (xs : List Received) (s : Progress) (rest : Progress → Option Result) (t : Turn)
    → ((s' : Progress) → Sound s' → Accounts (s'.freed ++ map (λ x. x.buffer) xs) (rest s'))
    → Ends (s.freed ++ i ∷ []) t
    → Accounts (s.freed ++ i ∷ map (λ x. x.buffer) xs) (continue_recv xs rest t)
continue_recv-Accounts i xs s rest t later ends = by_end t ends
  where
    moved :
        (l : List ℕ)
        → l ≡ s.freed ++ i ∷ []
        → l ++ map (λ y. y.buffer) xs ≡ s.freed ++ i ∷ map (λ y. y.buffer) xs
    moved l e =
        ap (λ t. t ++ map (λ y. y.buffer) xs) e
        ∙ append_assoc s.freed (i ∷ []) (map (λ y. y.buffer) xs)

    by_end :
        (t : Turn)
        → Ends (s.freed ++ i ∷ []) t
        → Accounts (s.freed ++ i ∷ map (λ y. y.buffer) xs) (continue_recv xs rest t)
    by_end (failed e s') (ends_failed n s1 freed) =
        (_, refl, moved s1.freed freed, inr (n, refl, refl, refl))
    by_end (complete s') (ends_complete m s1 freed memory size) =
        (_, refl, moved s1.freed freed, inl (m, refl, memory, size))
    by_end (wanting s') (ends_wanting s1 freed sound) =
        let (r, runs, accounts, answer) = later s1 sound in
        (r, runs, accounts ∙ moved s1.freed freed, answer)
    by_end overrun ends = elim ends [ ]

recv_loop-Accounts :
    (malloc : ℕ → Option (List ℕ)) (xs : List Received) (s : Progress)
    → IsAllocator malloc
    → All (λ x. InBuffer x.packet) xs
    → Sound s
    → Accounts (s.freed ++ map (λ x. x.buffer) xs) (recv_loop malloc xs s)
unfolding recv_loop
recv_loop-Accounts malloc [] s allocates inside sound = (_, refl, refl, inr (2, refl, refl, refl))
recv_loop-Accounts malloc (x ∷ xs) s allocates (inside, later) sound =
    continue_recv-Accounts x.buffer xs s (λ s'. recv_loop malloc xs s')
      (on_header malloc x.buffer (header_remove x.packet) s)
      (λ s' sound'. recv_loop-Accounts malloc xs s' allocates later sound')
      (on_header-Ends malloc x.buffer (header_remove x.packet) s allocates sound
        (header_remove-Cut x.packet inside))

-- csp_sfp_recv_fp of any packets whose data lie in their buffers, where malloc gives memory of the size
-- asked for and none for the last 64 KB below 4 GB: it copies inside its memory and the packets, each
-- packet that it has read is freed, once, and it answers CSP_ERR_NONE with memory of the size that it
-- says, or an error with no memory.
pub recv_fp-Accounts :
    (malloc : ℕ → Option (List ℕ)) (first : Option Received) (reads : List Received)
    → IsAllocator malloc
    → All (λ x. InBuffer x.packet) (with_first first reads)
    → Accounts (map (λ x. x.buffer) (with_first first reads)) (recv_fp malloc first reads)
unfolding recv_fp
recv_fp-Accounts malloc first reads allocates inside =
    recv_loop-Accounts malloc (with_first first reads) at_start allocates inside
      (untouched refl refl)
