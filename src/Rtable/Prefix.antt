-- ===== src/Rtable/Prefix.antt =====
-- The masks of the routing table in plain arithmetic: two addresses are in the network of an entry
-- if they agree above the host bits.
use native.Mathlib.Nat.{mod-eq_of_lt, mod-lt, pow-le-pow_right, div-add-mod}
use mathlib.Core.Path.{ap₂}
use damat_tutorial.Prelude.{
  ℕ, zero, suc, ◌+◌, ◌-◌, ◌*◌, ◌/◌, ◌%◌, ◌^◌, ◌≤◌, ◌<◌, ◌≡◌, ◌↔◌, ◌∙◌, ap, true, arith, ==_iff,
  bit_and,
}
use damat_tutorial.Prelude.Bits.{bit_and-mask, bit_and-split, bit_and-zero, pow_pos, pow_add}
use damat_tutorial.Id.{get_host_bits}
use damat_tutorial.Rtable.{Route, same_network, shift_count, host_mask, net_mask}

pub host_bits_le : (version : ℕ) → get_host_bits version ≤ 14
unfolding get_host_bits
host_bits_le version = ground arith

less_one : (a p : ℕ) → 2 ^ 16 ≡ a * p → 2 ^ 16 - p ≡ (a - 1) * p + 0
less_one zero p e = absurd (omega arith)
less_one (suc a) p e = omega (arith, suc_mul a p, ap (λ (t : ℕ). t * p) (pred_suc a))
  where
    suc_mul : (a p : ℕ) → suc a * p ≡ a * p + p
    suc_mul a p = grind arith

    pred_suc : (a : ℕ) → suc a - 1 ≡ a
    pred_suc a = omega arith

-- `x & ~(2^d - 1)` on 16 bits clears the low d bits.
high_part : (d x : ℕ) → d ≤ 16 → x < 2 ^ 16 → bit_and x (2 ^ 16 - 2 ^ d) ≡ x / 2 ^ d * 2 ^ d
high_part d x hd hx =
    ap₂ bit_and whole mask
    ∙ bit_and-split d (x / 2 ^ d) (2 ^ (16 - d) - 1) (x % 2 ^ d) 0 (mod-lt x (pow_pos d))
        (pow_pos d)
    ∙ omega (
      arith,
      bit_and-zero (x % 2 ^ d),
      ap (λ (t : ℕ). t * 2 ^ d) (bit_and-mask (16 - d) (x / 2 ^ d) ∙ mod-eq_of_lt quotient),
    )
  where
    split_16 : 2 ^ 16 ≡ 2 ^ (16 - d) * 2 ^ d
    split_16 = ap (λ t. 2 ^ t) {x = 16} {y = 16 - d + d} (omega arith) ∙ pow_add (16 - d) d

    whole : x ≡ x / 2 ^ d * 2 ^ d + x % 2 ^ d
    whole = omega (arith, div-add-mod x (2 ^ d))

    mask : 2 ^ 16 - 2 ^ d ≡ (2 ^ (16 - d) - 1) * 2 ^ d + 0
    mask = less_one (2 ^ (16 - d)) (2 ^ d) split_16

    quotient : x / 2 ^ d < 2 ^ (16 - d)
    quotient = grind (arith, split_16, pow_pos d)

shift_count_lem :
    (version netmask : ℕ)
    → netmask ≤ get_host_bits version
    → shift_count version netmask ≡ get_host_bits version - netmask
shift_count_lem version netmask h = omega (arith, host_bits_le version)

host_mask_lem :
    (version netmask : ℕ)
    → netmask ≤ get_host_bits version
    → host_mask version netmask ≡ 2 ^ (get_host_bits version - netmask) - 1
host_mask_lem version netmask h =
    ap (λ d. (2 ^ d - 1) % 2 ^ 16) (shift_count_lem version netmask h)
    ∙ mod-eq_of_lt (
        omega (
          arith,
          pow-le-pow_right {n = 2} (omega arith) {i = get_host_bits version - netmask} {j = 14}
              (omega (arith, host_bits_le version)),
          pow_pos (get_host_bits version - netmask),
        ))

-- For 16-bit addresses and an entry whose netmask is at most the bits of a host, the test of
-- csp_rtable_find_route holds exactly if the address and that of the entry have the same bits above the
-- host part of the entry.
pub same_network_iff :
    (version addr : ℕ) (r : Route)
    → addr < 2 ^ 16
    → r.address < 2 ^ 16
    → r.netmask ≤ get_host_bits version
    → (same_network version addr r ≡ true) ↔ (
        r.address / 2 ^ (get_host_bits version - r.netmask)
        ≡ addr / 2 ^ (get_host_bits version - r.netmask))
unfolding same_network
same_network_iff version addr r ha hr h =
    rw (masked r.address hr, masked addr ha)
      (
        λ same. mul_cancel _ _ _ (pow_pos d) ((==_iff _ _).0 same),
        λ e. (==_iff _ _).1 (ap (λ t. t * 2 ^ d) e),
      )
  where
    d : ℕ
    d = get_host_bits version - r.netmask

    masked : (x : ℕ) → x < 2 ^ 16 → bit_and x (net_mask version r.netmask) ≡ x / 2 ^ d * 2 ^ d
    masked x hx = ap (bit_and x) complement ∙ high_part d x (omega (arith, host_bits_le version)) hx
      where
        complement : net_mask version r.netmask ≡ 2 ^ 16 - 2 ^ d
        complement = omega (arith, host_mask_lem version r.netmask h, pow_pos d)

    mul_cancel : (a b p : ℕ) → 0 < p → a * p ≡ b * p → a ≡ b
    mul_cancel a b p h e = grind arith
