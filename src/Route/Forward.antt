-- ===== src/Route/Forward.antt =====
-- A packet for another node: csp_route_work hands it to the interfaces of its address.
use damat_tutorial.Prelude.{
  ℕ, ◌<◌, ◌≤◌, ◌≡◌, ◌≢◌, ap, Bool, true, false, arith, All, some, List, [], ◌∷◌, ◌++◌, map,
  if◌then◌else◌, ◌==◌, Bool-cases, inl, inr, length,
}
use damat_tutorial.Buffer.Owners.{Owned, waiting}
use damat_tutorial.Iflist.{iface_at, is_within_subnet}
use damat_tutorial.Iflist.Search.{IsList}
use damat_tutorial.Send.{Node, Sent, skips}
use damat_tutorial.Send.Copies.{Sublist, drop_head, keep_head, done, handed_to}
use damat_tutorial.Send.Local.{targets}
use damat_tutorial.Send.Direct.{all_targets, send_direct_targets}
use damat_tutorial.Route.{Settings, Router, packet_of, dedup_off}
use damat_tutorial.Route.Work.{is_to_me, forward, after_send, counted, route_packet}

-- Split horizon: the interface that a packet came from is no target.
first_false : (k j : ℕ) (c : Bool) → (if k == j then true else c) ≡ false → k ≢ j
first_false k j c e = ground arith

targets_elsewhere : (node : Node) (k : ℕ) (l : List ℕ) → All (λ j. k ≢ j) (targets node (some k) l)
targets_elsewhere node k [] = tt
targets_elsewhere node k (j ∷ l) = elim (Bool-cases (skips node (some k) j)) [
  | inl skipped ↦ rw skipped (targets_elsewhere node k l)
  | inr kept ↦ rw kept (
    first_false k j
        (is_within_subnet node.version node.ifaces (iface_at node.ifaces j).addr (some k)) kept,
    targets_elsewhere node k l,
  )
]

Sublist-All : (k : ℕ) (xs ys : List ℕ) → Sublist xs ys → All (λ j. k ≢ j) ys → All (λ j. k ≢ j) xs
Sublist-All k xs ys done all = tt
Sublist-All k xs ys (drop_head y s) all = Sublist-All k _ _ s all.1
Sublist-All k xs ys (keep_head y s) all = (all.0, Sublist-All k _ _ s all.1)

-- A held packet in buffer i for another node, come in by interface k, on a router without duplicate
-- detection, whose data fits, where the subnets of some interfaces but k and those in its subnet hold
-- the address, each with a free buffer for its copy: csp_route_work sends it, and interfaces among
-- these, none of them k, take copies, at most one each and in the order of the list. The buffers have as
-- owners who held them before and the interfaces for what they took.
pub route_packet-forward :
    (settings : Settings) (clock : ℕ → ℕ) (ms k i : ℕ) (members held : List ℕ) (t : Router)
    → IsList settings.node.ifaces members
    → Owned (i ∷ held) t.conns.pool
    → (packet_of t i).len ≤ settings.node.data_size
    → settings.mode ≡ dedup_off
    → is_to_me settings k (packet_of t i).id ≡ false
    → 0 < length (all_targets settings.node (packet_of t i).id.dst (some k) members)
    → length (all_targets settings.node (packet_of t i).id.dst (some k) members)
      ≤ length (waiting t.conns.pool)
    → (t' : Router) × (new : List Sent) × (route_packet settings clock ms k i t ≡ some t')
      × (t'.sent ≡ t.sent ++ new)
      × Sublist
          (map (λ s. s.iface) new)
          (all_targets settings.node (packet_of t i).id.dst (some k) members)
      × All (λ j. k ≢ j) (map (λ s. s.iface) new)
      × Owned (handed_to new held) t'.conns.pool
unfolding route_packet forward
route_packet-forward settings clock ms k i members held t chain v fits no_dedup elsewhere
      some_target room =
    let (net, new, runs, sent, from_targets, all, owned) =
      send_direct_targets settings.node (packet_of t i).id i (some k) members held
        (record { pool = t.conns.pool; stats = counted_t.stats; sent = t.sent }) chain v fits
        some_target room in
    (
      record t { conns = record (t.conns) { pool = net.pool }; stats = net.stats; sent = net.sent },
      new,
      rw (no_dedup, elsewhere) (ap (after_send counted_t) runs),
      sent,
      from_targets,
      Sublist-All k (map (λ s. s.iface) new)
          (all_targets settings.node (packet_of t i).id.dst (some k) members) from_targets
          (targets_elsewhere settings.node k _),
      owned,
    )
  where
    counted_t : Router
    counted_t = counted k (packet_of t i).len t
