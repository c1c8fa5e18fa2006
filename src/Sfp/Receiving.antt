-- ===== src/Sfp/Receiving.antt =====
-- csp_sfp_recv_fp puts the fragments together again.
use damat_tutorial.Prelude.{
  ℕ, zero, suc, ◌+◌, ◌%◌, ◌^◌, ◌<◌, ◌≤◌, ◌≡◌, ◌∙◌, refl, ap, sym, true, false, not, ◌&&◌, ◌||◌,
  arith, Option, some, List, [], ◌∷◌, ◌++◌, map, if◌then◌else◌, ltb, leb, ◌==◌, Bool-cases, inl,
  inr, length, take, drop, length-take, length-drop,
}
use mathlib.Core.List.{append_assoc}
use damat_tutorial.Prelude.Int.{pos, negsuc}
use damat_tutorial.Prelude.Segments.{take-all}
use damat_tutorial.Packet.{Packet, padding_bytes}
use damat_tutorial.Packet.Bytes.{write_bytes, read_bytes, take-write_bytes_end, length-write_bytes}
use damat_tutorial.Sfp.{
  SfpHeader, Received, Progress, Result, Turn, failed, complete, wanting, with_memory, on_memory,
  on_header, copy_out, copied, continue_recv, recv_loop, header_remove,
}
use damat_tutorial.Sfp.Header.{IsFragment}
use damat_tutorial.Sfp.Fragments.{Fragments, all_sent, one_more}

take_more : (k i n : ℕ) (xs : List ℕ) → k ≡ i + n → take k xs ≡ take i xs ++ take n (drop i xs)
take_more k zero n xs e = ap (λ j. take j xs) {x = k} {y = n} (omega arith)
take_more zero (suc i) n xs e = absurd (omega arith)
take_more (suc k) (suc i) zero [] e = refl
take_more (suc k) (suc i) (suc n) [] e = refl
take_more (suc k) (suc i) n (x ∷ xs) e = ap (λ t. x ∷ t) (take_more k i n xs (omega arith))

-- The memory that a step writes to has the first `count` bytes of the data.
pub record Holds (malloc : ℕ → Option (List ℕ)) (bytes m : List ℕ) (totalsize count : ℕ)
    (s : Progress) : Type 0 where
  pub offset : s.data_offset ≡ count
  pub ready :
      with_memory malloc totalsize s.memory s
      ≡ some (record s { memory = some m; datasize = totalsize })
  pub whole : length m ≡ totalsize
  pub same : take count m ≡ take count bytes

abbrev after : List ℕ → ℕ → ℕ → List ℕ → ℕ → Progress → Progress
after bytes totalsize next m i s = record {
  memory = some m;
  datasize = totalsize;
  data_offset = next;
  freed = s.freed ++ i ∷ [];
}

pub both : (a b c d : ℕ) → a ≤ b → c ≤ d → (leb a b && leb c d) ≡ true
both a b c d h k = ground arith

neither : (a b : ℕ) → b ≤ a → (ltb a b || not (a == a)) ≡ false
neither a b h = ground arith

test-same : (a b : ℕ) → a ≡ b → (a == b) ≡ true
test-same a b e = ground arith

not_zero : (n : ℕ) → 0 < n → (n == 0) ≡ false
not_zero n h = ground arith

module _ (malloc : ℕ → Option (List ℕ)) (bytes m : List ℕ) (totalsize count size i : ℕ) (f : Packet)
    (s : Progress) (small : totalsize < 2 ^ 32) (inside : count + size ≤ totalsize)
    (within : totalsize ≤ length bytes) (some_size : 0 < size)
    (carried : IsFragment bytes totalsize count size f)
    (held : Holds malloc bytes m totalsize count s) where
  abbrev p : Packet
  p = carried.body

  abbrev m' : List ℕ
  m' = write_bytes m count (take size (drop count bytes))

  abbrev s' : Progress
  s' = after bytes totalsize (count + size) m' i s

  chunk_length : length (take size (drop count bytes)) ≡ size
  chunk_length = omega (arith, length-take size (drop count bytes), length-drop count bytes)

  abbrev turn_at : ℕ → Turn
  turn_at n =
      if leb totalsize n
      then complete (after bytes totalsize n m' i s)
      else (if p.len == 0
          then failed (negsuc 102) (after bytes totalsize n m' i s)
          else wanting (after bytes totalsize n m' i s))

  copy : copy_out p s.data_offset (some m) ≡ some m'
  copy =
      let inside_both : (leb (s.data_offset + p.len) (length m)
            && leb (padding_bytes + p.len) (length p.buf))
          ≡ true =
        both (s.data_offset + p.len) (length m) (padding_bytes + p.len) (length p.buf)
          (omega (arith, held.offset, held.whole, carried.long))
          (omega (arith, carried.long, carried.room)) in
      rw inside_both (
        ap (λ n. some (write_bytes m n (read_bytes p.buf padding_bytes p.len))) held.offset
        ∙ ap (λ n. some (write_bytes m count (read_bytes p.buf padding_bytes n))) carried.long
        ∙ ap (λ c. some (write_bytes m count c)) carried.chunk)

  turn :
      on_header malloc i (header_remove f) s
      ≡ (if leb totalsize (count + size) then complete s' else wanting s')
  turn =
      let h : SfpHeader = record { offset = count; totalsize = totalsize } in
      let s1 : Progress = record s { memory = some m; datasize = totalsize } in
      let expected : (count == s.data_offset) ≡ true =
        test-same count s.data_offset (sym held.offset) in
      let end : (s.data_offset + p.len) % 2 ^ 32 ≡ count + size =
        omega (arith, held.offset, carried.long) in
      let in_memory : (ltb totalsize ((s.data_offset + p.len) % 2 ^ 32)
            || not (totalsize == totalsize))
          ≡ false =
        neither totalsize ((s.data_offset + p.len) % 2 ^ 32) (omega (arith, end)) in
      let not_empty : (p.len == 0) ≡ false = not_zero p.len (omega (arith, carried.long)) in
      let last : turn_at (count + size)
          ≡ (if leb totalsize (count + size) then complete s' else wanting s') =
        rw not_empty refl in
      ap (λ o. on_header malloc i o s) carried.removed
      ∙ rw expected (
          ap (λ o. on_memory i h p o s) held.ready
          ∙ rw in_memory (ap (λ o. copied i p o s1) copy ∙ ap turn_at end ∙ last))

  still : Holds malloc bytes m' totalsize (count + size) s'
  still = record {
    offset = refl;
    ready = refl;
    whole = length-write_bytes m count (take size (drop count bytes)) ∙ held.whole;
    same =
        take-write_bytes_end m (count + size) count (take size (drop count bytes))
          (omega (arith, chunk_length)) (omega (arith, held.whole))
        ∙ ap (λ t. t ++ take size (drop count bytes)) held.same
        ∙ sym (take_more (count + size) count size bytes refl);
  }

Fragments-end :
    (bytes : List ℕ) (totalsize mtu count : ℕ) (xs : List Received)
    → totalsize ≤ count
    → Fragments bytes totalsize mtu count (map (λ x. x.packet) xs)
    → xs ≡ []
Fragments-end bytes totalsize mtu count [] over rest = refl
Fragments-end bytes totalsize mtu count (x ∷ xs) over
      (one_more size f some_size below inside carried rest) =
    absurd (omega arith)

-- The answer with all data
abbrev pub with_all : List ℕ → ℕ → List ℕ → List Received → Option Result
with_all bytes totalsize freed left = some (record {
  code = pos 0;
  return_data = some bytes;
  return_datasize = totalsize;
  freed = freed;
  left = left;
})

-- From the fragment at `count` on, with the memory of the data before it
pub recv_loop-Fragments :
    (malloc : ℕ → Option (List ℕ)) (bytes m : List ℕ) (totalsize mtu count : ℕ)
    (xs later : List Received) (s : Progress)
    → totalsize < 2 ^ 32
    → totalsize ≤ length bytes
    → count < totalsize
    → Fragments bytes totalsize mtu count (map (λ x. x.packet) xs)
    → Holds malloc bytes m totalsize count s
    → recv_loop malloc (xs ++ later) s
      ≡ with_all (take totalsize bytes) totalsize (s.freed ++ map (λ x. x.buffer) xs) later
unfolding recv_loop
recv_loop-Fragments malloc bytes m totalsize mtu count [] later s small within short (all_sent over)
      held =
    absurd (omega arith)
recv_loop-Fragments malloc bytes m totalsize mtu count (x ∷ xs) later s small within short
      (one_more size f some_size below inside carried rest) held =
    let i : ℕ = x.buffer in
    let m1 : List ℕ = write_bytes m count (take size (drop count bytes)) in
    let s1 : Progress = after bytes totalsize (count + size) m1 i s in
    let turned =
      turn malloc bytes m totalsize count size i x.packet s small inside within some_size carried
        held in
    let kept : Holds malloc bytes m1 totalsize (count + size) s1 =
      still malloc bytes m totalsize count size i x.packet s small inside within some_size carried
        held in
    let continued =
      ap (continue_recv (xs ++ later) (λ s'. recv_loop malloc (xs ++ later) s')) turned in
    elim (Bool-cases (leb totalsize (count + size))) [
      | inl ended ↦
          let at_end : count + size ≡ totalsize = ground arith in
          let nothing_left : xs ≡ [] =
            Fragments-end bytes totalsize mtu (count + size) xs (omega arith) rest in
          let all_data : m1 ≡ take totalsize bytes =
            sym (take-all (count + size) m1 (omega (arith, kept.whole, at_end)))
            ∙ kept.same
            ∙ ap (λ n. take n bytes) at_end in
          continued
          ∙ rw ended (
              ap (λ d. with_all d totalsize (s.freed ++ i ∷ []) (xs ++ later)) all_data
              ∙ ap
                  (λ ys.
                    with_all (take totalsize bytes) totalsize (s.freed ++ i ∷ []) (ys ++ later))
                  nothing_left
              ∙ ap
                  (λ ys.
                    with_all (take totalsize bytes) totalsize
                      (s.freed ++ i ∷ map (λ y. y.buffer) ys) later)
                  (sym nothing_left))
      | inr going ↦
          continued
          ∙ rw going (
              recv_loop-Fragments malloc bytes m1 totalsize mtu (count + size) xs later s1 small
                within (ground arith) rest kept
              ∙ ap (λ l. with_all (take totalsize bytes) totalsize l later)
                  (append_assoc s.freed (i ∷ []) (map (λ y. y.buffer) xs)))
    ]
