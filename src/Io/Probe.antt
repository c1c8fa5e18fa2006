-- ===== src/Io/Probe.antt =====
-- What the probes of csp_io.c do with the identifier of a connection.
use native.Mathlib.Nat.{mod-eq_of_lt}
use damat_tutorial.Prelude.{
  ℕ, zero, suc, ◌+◌, ◌%◌, ◌^◌, ◌<◌, ◌≡◌, ◌⊎◌, refl, sym, ap, ◌∙◌, true, false, Bool, arith, some,
  set, ◌==◌, if◌then◌else◌, ltb, holds_below, holds_below_at,
}
use damat_tutorial.Prelude.Int.{ℤ, pos, negsuc, ◌≤ℤ◌, ◌<ℤ◌}
use damat_tutorial.Packet.{PacketId}
use damat_tutorial.Mutator.{MutationOperator, DataItem, Globals}
use damat_tutorial.Mutator.Models.{read_fm, send_fm, select_item}
use damat_tutorial.Mutator.Mutate.{Outcome, mutate_fm_read, mutate_fm_send}
use damat_tutorial.Mutator.Inactive.{Idle, mutate_inactive}
use damat_tutorial.Mutator.Frame.{Mutated, mutate_fm_read-Mutated, mutate_fm_send-Mutated}
use damat_tutorial.Io.{to_buffer, from_buffer, after_call, read_probe, send_probe}

-- The fields are values of their C types.
pub record InWidth (id : PacketId) : Type 0 where
  pub pri : id.pri < 2 ^ 8
  pub flags : id.flags < 2 ^ 8
  pub src : id.src < 2 ^ 16
  pub dst : id.dst < 2 ^ 16
  pub dport : id.dport < 2 ^ 8
  pub sport : id.sport < 2 ^ 8

from_buffer-to_buffer : (id : PacketId) → InWidth id → from_buffer (to_buffer id) ≡ id
unfolding from_buffer to_buffer
from_buffer-to_buffer id w =
    rw
      (
        mod-eq_of_lt w.pri,
        mod-eq_of_lt w.flags,
        mod-eq_of_lt w.src,
        mod-eq_of_lt w.dst,
        mod-eq_of_lt w.dport,
        mod-eq_of_lt w.sport,
      )
      refl

-- An identifier with another value in the field that an item of the fault models stands for.
unfoldable pub with_field : ℕ → ℕ → PacketId → PacketId
with_field item v id =
    if item == 1
    then record id { pri = v % 2 ^ 8 }
    else (if item == 2
        then record id { src = v % 2 ^ 16 }
        else (if item == 3
            then record id { dst = v % 2 ^ 16 }
            else (if item == 4
                then record id { dport = v % 2 ^ 8 }
                else (if item == 5
                    then record id { sport = v % 2 ^ 8 }
                    else (if item == 6 then record id { flags = v % 2 ^ 8 } else id)))))

from_buffer-set :
    (id : PacketId) (item v : ℕ)
    → item < 7
    → from_buffer (set (to_buffer id) item v) ≡ with_field item v (from_buffer (to_buffer id))
unfolding from_buffer to_buffer with_field
from_buffer-set id zero v h = refl
from_buffer-set id (suc zero) v h = refl
from_buffer-set id (suc (suc zero)) v h = refl
from_buffer-set id (suc (suc (suc zero))) v h = refl
from_buffer-set id (suc (suc (suc (suc zero)))) v h = refl
from_buffer-set id (suc (suc (suc (suc (suc zero))))) v h = refl
from_buffer-set id (suc (suc (suc (suc (suc (suc zero)))))) v h = refl
from_buffer-set id (suc (suc (suc (suc (suc (suc (suc item))))))) v h = absurd (omega arith)

-- One field of the identifier has a new value, and the mutation is counted.
pub record OneField (id id' : PacketId) (g g' : Globals) : Type 0 where
  pub item : ℕ
  pub value : ℕ
  pub field : 0 < item
  pub chosen : select_item g.mutation ≡ pos item
  pub changed : id' ≡ with_field item value id
  pub counted : g'.counter ≡ g.counter + 1

-- The selected item of a mutation is a field that the probe copies back.
abbrev field_test : ℕ → ℕ → Bool
field_test first n = elim (select_item (pos (first + n))) [ pos i ↦ ltb 0 i | negsuc _ ↦ false ]

read_fields : holds_below (field_test 0) 20 ≡ true
unfolding select_item
read_fields = refl

send_fields : holds_below (field_test 20) 23 ≡ true
unfolding select_item
send_fields = refl

field_positive :
    (first count n i : ℕ)
    → holds_below (field_test first) count ≡ true
    → n < count
    → (m : ℤ) → m ≡ pos (first + n)
    → select_item m ≡ pos i
    → 0 < i
field_positive first count n i all h m at_n e =
    let test : field_test first n ≡ true = holds_below_at (field_test first) count n all h in
    let ok : ltb 0 i ≡ true = rw (sym (ap select_item at_n) ∙ e, field_test) at test in ground arith

Mutated-OneField :
    (id : PacketId) (g : Globals) (out : Outcome)
    → InWidth id
    → ((i : ℕ) → select_item g.mutation ≡ pos i → 0 < i)
    → Mutated (to_buffer id) g out
    → OneField id (from_buffer out.0) g out.1
Mutated-OneField id g out w positive m =
    let a = m.applied in
    record {
      item = m.item;
      value = a.value;
      field = positive m.item m.chosen;
      chosen = m.chosen;
      changed =
          ap from_buffer a.stored
          ∙ from_buffer-set id m.item a.value m.in_buffer
          ∙ ap (with_field m.item a.value) (from_buffer-to_buffer id w);
      counted = a.counted;
    }

-- For each MUTATION from 0 to 19, the probe of csp_read ends with an identifier in which at most
-- one field, the one that the mutation selects, has another value, and the mutation is
-- counted.
pub read_probe-OneField :
    (junk : MutationOperator) (junk_item : DataItem) (rand : ℕ → ℕ) (id : PacketId) (g : Globals)
    (n : ℕ)
    → InWidth id
    → g.mutation ≡ pos n
    → n < 20
    → (id' : PacketId) × (g' : Globals) × (read_probe junk junk_item rand id g ≡ some (id', g'))
      × OneField id id' g g'
unfolding read_probe after_call
read_probe-OneField junk junk_item rand id g n w e h =
    let (out, done, m) = mutate_fm_read-Mutated junk junk_item rand (to_buffer id) g n e h in
    (
      from_buffer out.0,
      out.1,
      rw done refl,
      Mutated-OneField id g out w
          (λ i chosen.
            field_positive 0 20 n i read_fields h g.mutation (e ∙ ap pos (omega arith)) chosen)
          m,
    )

-- For each MUTATION from 20 to 42, the probe of csp_send ends with an identifier in which at most
-- one field, the one that the mutation selects, has another value, and the mutation is
-- counted.
pub send_probe-OneField :
    (junk : MutationOperator) (junk_item : DataItem) (rand : ℕ → ℕ) (id : PacketId) (g : Globals)
    (n : ℕ)
    → InWidth id
    → g.mutation ≡ pos (20 + n)
    → n < 23
    → (id' : PacketId) × (g' : Globals) × (send_probe junk junk_item rand id g ≡ some (id', g'))
      × OneField id id' g g'
unfolding send_probe after_call
send_probe-OneField junk junk_item rand id g n w e h =
    let (out, done, m) = mutate_fm_send-Mutated junk junk_item rand (to_buffer id) g n e h in
    (
      from_buffer out.0,
      out.1,
      rw done refl,
      Mutated-OneField id g out w
          (λ i chosen. field_positive 20 23 n i send_fields h g.mutation e chosen) m,
    )

-- With a negative MUTATION, as in the build without mutation, or one of 20 and above, the probe of
-- csp_read leaves the identifier as it is and counts no mutation.
pub read_probe_inactive :
    (junk : MutationOperator) (junk_item : DataItem) (rand : ℕ → ℕ) (id : PacketId) (g : Globals)
    → InWidth id
    → (g.mutation <ℤ pos 0) ⊎ (pos 20 ≤ℤ g.mutation)
    → (g' : Globals) × (read_probe junk junk_item rand id g ≡ some (id, g')) × Idle g g'
unfolding read_probe after_call mutate_fm_read read_fm
read_probe_inactive junk junk_item rand id g w out =
    let (g', done, idle) = mutate_inactive rand (read_fm junk junk_item) (to_buffer id) g out in
    (g', rw done (rw (from_buffer-to_buffer id w) refl), idle)

-- With a MUTATION below 20, as in the build without mutation, or above 42, the probe of csp_send
-- leaves the identifier as it is and counts no mutation.
send_probe_inactive :
    (junk : MutationOperator) (junk_item : DataItem) (rand : ℕ → ℕ) (id : PacketId) (g : Globals)
    → InWidth id
    → (g.mutation <ℤ pos 20) ⊎ (pos 43 ≤ℤ g.mutation)
    → (g' : Globals) × (send_probe junk junk_item rand id g ≡ some (id, g')) × Idle g g'
unfolding send_probe after_call mutate_fm_send send_fm
send_probe_inactive junk junk_item rand id g w out =
    let (g', done, idle) = mutate_inactive rand (send_fm junk junk_item) (to_buffer id) g out in
    (g', rw done (rw (from_buffer-to_buffer id w) refl), idle)
