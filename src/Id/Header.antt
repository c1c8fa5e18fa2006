-- ===== src/Id/Header.antt =====
-- The header words of csp_id.c in plain arithmetic: the fields do not overlap, so packing is a
-- sum, and parsing takes the word apart by division.
use damat_tutorial.Prelude.{ℕ, ◌+◌, ◌*◌, ◌/◌, ◌%◌, ◌^◌, ◌<◌, ◌≡◌, ◌∙◌, arith, bit_or}
use damat_tutorial.Prelude.Bits.{bit_and-mask, bit_or-disjoint, bit_or-split, bit_or-zero}
use mathlib.Core.Path.{ap₂}
use damat_tutorial.Packet.{PacketId}
use damat_tutorial.Id.{id1_pack, id1_parse, id2_pack, id2_parse, shl32, shl64}

-- The fields fit the layout of CSP 1.x.
pub record FitsId1 (id : PacketId) : Type 0 where
  pub pri : id.pri < 2 ^ 2
  pub dst : id.dst < 2 ^ 5
  pub src : id.src < 2 ^ 5
  pub dport : id.dport < 2 ^ 6
  pub sport : id.sport < 2 ^ 6
  pub flags : id.flags < 2 ^ 8

-- The fields fit the layout of CSP 2.x.
pub record FitsId2 (id : PacketId) : Type 0 where
  pub pri : id.pri < 2 ^ 2
  pub dst : id.dst < 2 ^ 14
  pub src : id.src < 2 ^ 14
  pub dport : id.dport < 2 ^ 6
  pub sport : id.sport < 2 ^ 6
  pub flags : id.flags < 2 ^ 6

abbrev id1_sum : PacketId → ℕ
id1_sum id =
    id.pri * 2 ^ 30
    + id.src * 2 ^ 25
    + id.dst * 2 ^ 20
    + id.dport * 2 ^ 14
    + id.sport * 2 ^ 8
    + id.flags

abbrev id2_sum : PacketId → ℕ
id2_sum id =
    id.pri * 2 ^ 46
    + id.dst * 2 ^ 32
    + id.src * 2 ^ 18
    + id.dport * 2 ^ 12
    + id.sport * 2 ^ 6
    + id.flags

-- One more field, `y`, below those that `x` holds.
or_field : (k a x y low : ℕ) → x ≡ a * 2 ^ k → y ≡ low → low < 2 ^ k → bit_or x y ≡ a * 2 ^ k + low
or_field k a x y low hx hy h = rw (hx, hy) (bit_or-disjoint k a low h)

-- The source address of CSP 1.x goes between the priority and the destination.
middle_field :
    (p d s x y : ℕ)
    → d < 2 ^ 5
    → s < 2 ^ 5
    → x ≡ p * 2 ^ 30 + d * 2 ^ 20
    → y ≡ s * 2 ^ 25
    → bit_or x y ≡ p * 2 ^ 30 + s * 2 ^ 25 + d * 2 ^ 20
middle_field p d s x y hd hs hx hy =
    ap₂ bit_or hx' hy'
    ∙ bit_or-split 25 (p * 2 ^ 5) s (d * 2 ^ 20) 0 (omega arith) (omega arith)
    ∙ omega (arith, bit_or-disjoint 5 p s hs, bit_or-zero (d * 2 ^ 20))
  where
    hx' : x ≡ p * 2 ^ 5 * 2 ^ 25 + d * 2 ^ 20
    hx' = omega arith

    hy' : y ≡ s * 2 ^ 25 + 0
    hy' = omega arith

pub id1_pack-eq-sum : (id : PacketId) → FitsId1 id → id1_pack id ≡ id1_sum id
unfolding id1_pack
id1_pack-eq-sum id f =
    or_field 8 (pri * 2 ^ 22 + src * 2 ^ 17 + dst * 2 ^ 12 + dport * 2 ^ 6 + sport) _ _ flags
      (with_sport ∙ omega arith) (omega arith) f.flags
    ∙ omega arith
  where
    open id use {pri, dst, src, dport, sport, flags}

    with_dst : bit_or (shl32 pri 30) (shl32 dst 20) ≡ pri * 2 ^ 30 + dst * 2 ^ 20
    with_dst = or_field 30 pri _ _ (dst * 2 ^ 20) (omega arith) (omega arith) (omega arith)

    with_src :
        bit_or (bit_or (shl32 pri 30) (shl32 dst 20)) (shl32 src 25)
        ≡ pri * 2 ^ 30 + src * 2 ^ 25 + dst * 2 ^ 20
    with_src = middle_field pri dst src _ _ f.dst f.src with_dst (omega arith)

    with_dport :
        bit_or (bit_or (bit_or (shl32 pri 30) (shl32 dst 20)) (shl32 src 25)) (shl32 dport 14)
        ≡ (pri * 2 ^ 10 + src * 2 ^ 5 + dst) * 2 ^ 20 + dport * 2 ^ 14
    with_dport =
        or_field 20 (pri * 2 ^ 10 + src * 2 ^ 5 + dst) _ _ (dport * 2 ^ 14) (with_src ∙ omega arith)
          (omega arith) (omega arith)

    with_sport :
        bit_or
          (bit_or (bit_or (bit_or (shl32 pri 30) (shl32 dst 20)) (shl32 src 25)) (shl32 dport 14))
          (shl32 sport 8)
        ≡ (pri * 2 ^ 16 + src * 2 ^ 11 + dst * 2 ^ 6 + dport) * 2 ^ 14 + sport * 2 ^ 8
    with_sport =
        or_field 14 (pri * 2 ^ 16 + src * 2 ^ 11 + dst * 2 ^ 6 + dport) _ _ (sport * 2 ^ 8)
          (with_dport ∙ omega arith) (omega arith) (omega arith)

pub id2_pack-eq-sum : (id : PacketId) → FitsId2 id → id2_pack id ≡ id2_sum id
unfolding id2_pack
id2_pack-eq-sum id f =
    or_field 6 (pri * 2 ^ 40 + dst * 2 ^ 26 + src * 2 ^ 12 + dport * 2 ^ 6 + sport) _ _ flags
      (with_sport ∙ omega arith) (omega arith) f.flags
    ∙ omega arith
  where
    open id use {pri, dst, src, dport, sport, flags}

    with_dst : bit_or (shl64 pri 46) (shl64 dst 32) ≡ pri * 2 ^ 46 + dst * 2 ^ 32
    with_dst = or_field 46 pri _ _ (dst * 2 ^ 32) (omega arith) (omega arith) (omega arith)

    with_src :
        bit_or (bit_or (shl64 pri 46) (shl64 dst 32)) (shl64 src 18)
        ≡ (pri * 2 ^ 14 + dst) * 2 ^ 32 + src * 2 ^ 18
    with_src =
        or_field 32 (pri * 2 ^ 14 + dst) _ _ (src * 2 ^ 18) (with_dst ∙ omega arith) (omega arith)
          (omega arith)

    with_dport :
        bit_or (bit_or (bit_or (shl64 pri 46) (shl64 dst 32)) (shl64 src 18)) (shl32 dport 12)
        ≡ (pri * 2 ^ 28 + dst * 2 ^ 14 + src) * 2 ^ 18 + dport * 2 ^ 12
    with_dport =
        or_field 18 (pri * 2 ^ 28 + dst * 2 ^ 14 + src) _ _ (dport * 2 ^ 12)
          (with_src ∙ omega arith) (omega arith) (omega arith)

    with_sport :
        bit_or
          (bit_or (bit_or (bit_or (shl64 pri 46) (shl64 dst 32)) (shl64 src 18)) (shl32 dport 12))
          (shl32 sport 6)
        ≡ (pri * 2 ^ 34 + dst * 2 ^ 20 + src * 2 ^ 6 + dport) * 2 ^ 12 + sport * 2 ^ 6
    with_sport =
        or_field 12 (pri * 2 ^ 34 + dst * 2 ^ 20 + src * 2 ^ 6 + dport) _ _ (sport * 2 ^ 6)
          (with_dport ∙ omega arith) (omega arith) (omega arith)

-- Every field of a parsed header is what division and remainder take from the word.
pub id1_parse_lem :
    (w : ℕ)
    → id1_parse w ≡ record {
      pri = w / 2 ^ 30 % 4;
      flags = w % 256;
      src = w / 2 ^ 25 % 32;
      dst = w / 2 ^ 20 % 32;
      dport = w / 2 ^ 14 % 64;
      sport = w / 2 ^ 8 % 64;
    }
unfolding id1_parse
id1_parse_lem w =
    rw
      (
        bit_and-mask 2 (w / 2 ^ 30),
        bit_and-mask 5 (w / 2 ^ 25),
        bit_and-mask 5 (w / 2 ^ 20),
        bit_and-mask 6 (w / 2 ^ 14),
        bit_and-mask 6 (w / 2 ^ 8),
        bit_and-mask 8 (w / 2 ^ 0),
      )
      (ground arith)

pub id2_parse_lem :
    (w : ℕ)
    → id2_parse w ≡ record {
      pri = w / 2 ^ 46 % 4;
      flags = w % 64;
      src = w / 2 ^ 18 % 16384;
      dst = w / 2 ^ 32 % 16384;
      dport = w / 2 ^ 12 % 64;
      sport = w / 2 ^ 6 % 64;
    }
unfolding id2_parse
id2_parse_lem w =
    rw
      (
        bit_and-mask 2 (w / 2 ^ 46),
        bit_and-mask 14 (w / 2 ^ 18),
        bit_and-mask 14 (w / 2 ^ 32),
        bit_and-mask 6 (w / 2 ^ 12),
        bit_and-mask 6 (w / 2 ^ 6),
        bit_and-mask 6 (w / 2 ^ 0),
      )
      (ground arith)

pub id1_parse-pack : (id : PacketId) → FitsId1 id → id1_parse (id1_pack id) ≡ id
id1_parse-pack id f = rw (id1_pack-eq-sum id f, id1_parse_lem (id1_sum id)) (ground arith)

pub id2_parse-pack : (id : PacketId) → FitsId2 id → id2_parse (id2_pack id) ≡ id
id2_parse-pack id f = rw (id2_pack-eq-sum id f, id2_parse_lem (id2_sum id)) (ground arith)

pub id1_pack-lt : (id : PacketId) → FitsId1 id → id1_pack id < 2 ^ 32
id1_pack-lt id f = omega (arith, id1_pack-eq-sum id f)

pub id2_pack-lt : (id : PacketId) → FitsId2 id → id2_pack id < 2 ^ 48
id2_pack-lt id f = omega (arith, id2_pack-eq-sum id f)
