-- ===== src/Bridge/Pass.antt =====
-- csp_bridge_work: where a packet goes that waits in the queue.
use mathlib.Core.Path.{subst, ap₂}
use damat_tutorial.Prelude.{
  ◌≢◌, arith, get_or-set_self, ℕ, ◌≡◌, ◌∙◌, ◌⊎◌, refl, ap, sym, Bool, true, false, Option, none,
  some, List, [], ◌∷◌, ◌++◌, inl, inr,
}
use damat_tutorial.Packet.{Packet}
use damat_tutorial.Queue.{ok}
use damat_tutorial.Queue.Fifo.{IsValid, contents, dequeue_lem}
use damat_tutorial.Send.Copies.{copy_of}
use damat_tutorial.Buffer.{blank_slot, slot_at}
use damat_tutorial.Buffer.Owners.{Owned}
use damat_tutorial.Buffer.Calls.{free_cases}
use damat_tutorial.Dedup.{Dedup, is_duplicate}
use damat_tutorial.Send.{Node, Sent, secured, no_via, set_packet}
use damat_tutorial.Send.Owners.{
  deliver, taken_by, freed, handed, set_packet-Owned, head_inside, send_direct_iface-Outcome,
}
use damat_tutorial.Route.{Router, packet_of}
use damat_tutorial.Route.Work.{after_send}
use damat_tutorial.Bridge.{Bridge, opposing, checked, net_of, passed, bridge_on, bridge_work}

-- Nothing is sent, and the packet's buffer has no owner.
abbrev pub Dropped : List ℕ → Router → Router → Type 0
Dropped held t t' = (t'.sent ≡ t.sent) × Owned held t'.conns.pool

-- Interface d has what it takes of the packet in buffer i, without a next hop; if that is nothing, the
-- packet is dropped.
abbrev pub Crossed : List ℕ → ℕ → ℕ → Router → Router → Option Packet → Type 0
Crossed held i d t t' none = Dropped held t t'
Crossed held i d t t' (some q) =
    (s : Sent) × (t'.sent ≡ t.sent ++ s ∷ [])
    × (copy_of s ≡ (d, no_via, q))
    × (s.buffer ≡ i)
    × Owned (i ∷ held) t'.conns.pool

-- A duplicate is dropped, and another packet crosses.
abbrev pub Passed : Node → List ℕ → ℕ → ℕ → (Bool × Dedup) × Packet → Router → Router → Type 0
Passed node held i d o t t' =
    ((o.0.0 ≡ true) × Dropped held t t')
    ⊎ ((o.0.0 ≡ false) × Crossed held i d t t' (taken_by node d no_via (some o.1)))

passed-Passed :
    (node : Node) (d i : ℕ) (held : List ℕ) (o : (Bool × Dedup) × Packet) (t : Router)
    → Owned (i ∷ held) t.conns.pool
    → (t' : Router) × (passed node (some d) i o t ≡ some t')
      × (t'.fifo ≡ t.fifo)
      × (t'.dedup ≡ o.0.1)
      × Passed node held i d o t t'
unfolding secured
passed-Passed node d i held ((true, seen), p) t v = (
  _,
  refl,
  refl,
  refl,
  inl (
    refl,
    (
      refl,
      (free_cases held (set_packet i p t.conns.pool) i
          (set_packet-Owned (i ∷ held) t.conns.pool i p (head_inside held t.conns.pool i v) v)).0,
    ),
  ),
)
passed-Passed node d i held ((false, seen), p) t v =
    let inside = head_inside held t.conns.pool i v in
    let owned = set_packet-Owned (i ∷ held) t.conns.pool i p inside v in
    let (net, runs, outcome) =
      send_direct_iface-Outcome node p.id held i d no_via false (net_of (checked i seen p t))
        owned in
    let t' : Router = record (checked i seen p t) {
      conns = record (t.conns) { pool = net.pool };
      stats = net.stats;
      sent = net.sent;
    } in
    let stored : (slot_at (set_packet i p t.conns.pool) i).packet ≡ p =
      ap (λ s. s.packet)
        (get_or-set_self t.conns.pool.slots i (record (slot_at t.conns.pool i) { packet = p })
          blank_slot inside) in
    let same : deliver node false d no_via
          (record ((slot_at (set_packet i p t.conns.pool) i).packet) { id = p.id })
        ≡ taken_by node d no_via (some p) =
      ap (λ q. deliver node false d no_via (record q { id = p.id })) stored in
    (
      t',
      ap (after_send (checked i seen p t)) runs,
      refl,
      refl,
      elim outcome [
        | freed nothing sent queue kept owned' ↦
            inr (refl, subst (Crossed held i d t t') (sym (sym same ∙ nothing)) (sent, owned'))
        | handed s given sent iface via buffer id queue kept owned' ↦ inr (
          refl,
          subst (Crossed held i d t t') (sym (sym same ∙ given))
              (s, sent, ap₂ (λ a b. (a, b, s.packet)) iface via, buffer, owned'),
        )
      ],
    )

opposing_lem :
    (b : Bridge) (k a c d : ℕ)
    → b.bif_a ≡ some a
    → b.bif_b ≡ some c
    → ((k ≡ a) × (d ≡ c)) ⊎ ((k ≢ a) × (d ≡ a))
    → opposing b k ≡ some d
opposing_lem b k a c d first second way = rw (first, second) (ground arith)

-- csp_bridge_work between the interfaces a and c, on a queue whose first value is a packet of interface
-- k, in a buffer that is held: the packet is taken off the queue, and the others wait on. If
-- csp_dedup_is_duplicate answers true, its buffer is freed and nothing is sent. If the answer is false,
-- the packet is sent by c if it came from a, and by a if it did not: that interface, and no other, has
-- it if it fits the interface's MTU and the nexthop function takes it; otherwise its buffer is freed
-- and nothing is sent. The ring of duplicates is as csp_dedup_is_duplicate left it.
pub bridge_work-Passed :
    (b : Bridge) (node : Node) (clock : ℕ → ℕ) (k i a c d : ℕ) (held : List ℕ)
    (rest : List (Option (ℕ × ℕ))) (t : Router)
    → IsValid t.fifo
    → contents none t.fifo ≡ some (k, i) ∷ rest
    → Owned (i ∷ held) t.conns.pool
    → b.bif_a ≡ some a
    → b.bif_b ≡ some c
    → ((k ≡ a) × (d ≡ c)) ⊎ ((k ≢ a) × (d ≡ a))
    → let o = is_duplicate node.version clock (packet_of t i) t.dedup in
      (t' : Router) × (bridge_work b node clock t ≡ some t')
      × (contents none t'.fifo ≡ rest)
      × (t'.dedup ≡ o.0.1)
      × Passed node held i d o t t'
unfolding bridge_work
bridge_work-Passed b node clock k i a c d held rest t valid waits v first second way =
    elim (dequeue_lem none t.fifo valid) [
      | inl (nothing, fails) ↦ let bad : [] ≡ some (k, i) ∷ rest = sym nothing ∙ waits in cc
      | inr (x, q, takes, valid', size, left) ↦
          let cells : x ∷ contents none q ≡ some (k, i) ∷ rest = sym left ∙ waits in
          let head : x ≡ some (k, i) = cc in
          let tail : contents none q ≡ rest = cc in
          let t1 : Router = record t { fifo = q } in
          let (t', runs, same_fifo, seen, ends) =
            passed-Passed node d i held (is_duplicate node.version clock (packet_of t i) t.dedup) t1
              v in
          (
            t',
            ap (λ o. bridge_on b node clock o t) (takes ∙ ap (λ y. (ok, some y, q)) head)
                ∙ ap
                    (λ o.
                      passed node o i (is_duplicate node.version clock (packet_of t i) t.dedup) t1)
                    (opposing_lem b k a c d first second way)
                ∙ runs,
            ap (contents none) same_fifo ∙ tail,
            seen,
            ends,
          )
    ]
