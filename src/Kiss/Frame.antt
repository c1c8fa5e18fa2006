-- ===== src/Kiss/Frame.antt =====
-- A packet that has the frame of another one: csp_id_strip finds the same identifier and length in
-- it, and its data is the same.
use damat_tutorial.Prelude.{
  ℕ, ◌+◌, ◌-◌, ◌*◌, ◌/◌, ◌^◌, ◌≤◌, ◌≡◌, ◌∙◌, ap, sym, false, arith, take, drop, ◌==◌, ltb,
  Bool-cases, inl, inr,
}
use mathlib.Core.Path.{ap₂}
use damat_tutorial.Prelude.Segments.{take-take, take-drop}
use damat_tutorial.Prelude.Int.{pos, negsuc}
use damat_tutorial.Packet.{Packet, padding_bytes}
use damat_tutorial.Packet.Bytes.{read_bytes, be_value, drop-drop}
use damat_tutorial.Id.{id1_strip, id2_strip, id1_parse, id2_parse, id_strip, id_setup_rx}
use damat_tutorial.Crc.{frame_bytes}
use damat_tutorial.Crc.Verify.{data_of}

pub record SameFrame (q x : Packet) : Type 0 where
  pub begin : x.frame_begin ≡ q.frame_begin
  pub len : x.frame_length ≡ q.frame_length
  pub bytes : frame_bytes x ≡ frame_bytes q

-- The first n bytes of a frame that has them
front :
    (q x : Packet) (n : ℕ)
    → SameFrame q x
    → n ≤ q.frame_length
    → read_bytes x.buf x.frame_begin n ≡ read_bytes q.buf q.frame_begin n
unfolding read_bytes
front q x n s h =
    sym (take-take n q.frame_length (drop x.frame_begin x.buf) h)
    ∙ ap (take n) (ap (λ m. take m (drop x.frame_begin x.buf)) (sym s.len) ∙ s.bytes)
    ∙ take-take n q.frame_length (drop q.frame_begin q.buf) h

-- The packet with the length and the identifier that csp_id_strip found in q
abbrev pub with_header_of : Packet → Packet → Packet
with_header_of q x = record x { len = q.len; id = q.id }

abbrev parsed1 : Packet → Packet
parsed1 q = record q {
  len = q.frame_length - 4;
  id = id1_parse (be_value (read_bytes q.buf q.frame_begin 4));
}

abbrev parsed2 : Packet → Packet
parsed2 q = record q {
  len = q.frame_length - 6;
  id = id2_parse (be_value (read_bytes q.buf q.frame_begin 6) * 2 ^ 16 / 2 ^ 16);
}

strip1 :
    (q x : Packet)
    → SameFrame q x
    → id1_strip q ≡ (pos 0, q)
    → (id1_strip x ≡ (pos 0, with_header_of q x)) × (q.frame_length ≡ q.len + 4)
unfolding id1_strip
strip1 q x s e = elim (Bool-cases (ltb q.frame_length 4)) [
  | inl short ↦ let bad : negsuc 0 ≡ pos 0 = rw short at (ap (λ o. o.0) e) in cc
  | inr whole ↦
      let test : ltb x.frame_length 4 ≡ false = ap (λ m. ltb m 4) s.len ∙ whole in
      let found : parsed1 q ≡ q = ap (λ o. o.1) (rw whole at e) in
      (
        rw test (
            ap₂ (λ n i. (pos 0, record x { len = n; id = i }))
              (ap (λ m. m - 4) s.len ∙ ap (λ o. o.len) found)
              (ap (λ bs. id1_parse (be_value bs)) (front q x 4 s (ground arith))
                ∙ ap (λ o. o.id) found)),
        ground (arith, ap (λ o. o.len) found),
      )
]

strip2 :
    (q x : Packet)
    → SameFrame q x
    → id2_strip q ≡ (pos 0, q)
    → (id2_strip x ≡ (pos 0, with_header_of q x)) × (q.frame_length ≡ q.len + 6)
unfolding id2_strip
strip2 q x s e = elim (Bool-cases (ltb q.frame_length 6)) [
  | inl short ↦ let bad : negsuc 0 ≡ pos 0 = rw short at (ap (λ o. o.0) e) in cc
  | inr whole ↦
      let test : ltb x.frame_length 6 ≡ false = ap (λ m. ltb m 6) s.len ∙ whole in
      let found : parsed2 q ≡ q = ap (λ o. o.1) (rw whole at e) in
      (
        rw test (
            ap₂ (λ n i. (pos 0, record x { len = n; id = i }))
              (ap (λ m. m - 6) s.len ∙ ap (λ o. o.len) found)
              (ap (λ bs. id2_parse (be_value bs * 2 ^ 16 / 2 ^ 16)) (front q x 6 s (ground arith))
                ∙ ap (λ o. o.id) found)),
        ground (arith, ap (λ o. o.len) found),
      )
]

-- A frame from which csp_id_strip gives back its packet gives the same header in any buffer.
pub id_strip-SameFrame :
    (version : ℕ) (q x : Packet)
    → SameFrame q x
    → id_strip version q ≡ (pos 0, q)
    → (id_strip version x ≡ (pos 0, with_header_of q x))
      × (q.frame_length ≡ q.len + (id_setup_rx version q).0)
unfolding id_strip id_setup_rx
id_strip-SameFrame version q x s e = elim (Bool-cases (version == 2)) [
  | inl two ↦ rw two (strip2 q x s (rw two at e))
  | inr one ↦ rw one (strip1 q x s (rw one at e))
]

-- Behind the header the two have the same data.
pub data-SameFrame :
    (q x : Packet) (header : ℕ)
    → SameFrame q x
    → q.frame_begin + header ≡ padding_bytes
    → q.frame_length ≡ q.len + header
    → take q.len (data_of x) ≡ take q.len (data_of q)
unfolding read_bytes
data-SameFrame q x header s begin len =
    shifted x (ap (λ b. b + header) s.begin ∙ begin)
    ∙ ap (drop header) (ap (λ m. take m (drop x.frame_begin x.buf)) (sym s.len) ∙ s.bytes)
    ∙ sym (shifted q begin)
  where
    shifted :
        (y : Packet)
        → y.frame_begin + header ≡ padding_bytes
        → take q.len (data_of y) ≡ drop header (take q.frame_length (drop y.frame_begin y.buf))
    shifted y e =
        ap (take q.len) (drop-drop y.buf padding_bytes y.frame_begin header (omega arith))
        ∙ take-drop q.frame_length header q.len (drop y.frame_begin y.buf) (omega (arith, len))
