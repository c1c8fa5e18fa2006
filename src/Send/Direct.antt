-- ===== src/Send/Direct.antt =====
-- csp_send_direct: on the interfaces of the address, or by the routing table.
use damat_tutorial.Prelude.{
  ℕ, suc, ◌<◌, ◌≤◌, ◌≡◌, ◌∙◌, ◌⊎◌, refl, ap, Bool, true, false, not, ◌&&◌, ◌==◌, arith, Option,
  none, some, List, [], ◌∷◌, ◌++◌, map, if◌then◌else◌, inl, inr, length, filter, get_or,
}
use damat_tutorial.Packet.{PacketId}
use damat_tutorial.Buffer.{slot_at, to_slot, free}
use damat_tutorial.Buffer.Owners.{Owned, waiting}
use damat_tutorial.Buffer.Calls.{free_cases}
use damat_tutorial.Rtable.{zero_route, find_route}
use damat_tutorial.Iflist.{iface_at, in_subnet, is_within_subnet, serves}
use damat_tutorial.Iflist.Chain.{length-Chain}
use damat_tutorial.Iflist.Search.{IsList}
use damat_tutorial.Send.{
  Sent, Node, Net, is_from_me, skips, send_direct_iface, send_rest, send_route, send_direct,
}
use damat_tutorial.Send.Owners.{Outcome, deliver, send_direct_iface-Outcome}
use damat_tutorial.Send.Corner.{send_local_untargeted, send_local_no_buffer}
use damat_tutorial.Send.Copies.{Sublist, handed_to, copy_of, copies, copy_for}
use damat_tutorial.Send.Local.{targets, non_empty, spread, send_local_lem}

-- The targets among all interfaces of the node
abbrev pub all_targets : Node → ℕ → Option ℕ → List ℕ → List ℕ
all_targets node dst from members =
    targets node from (filter (serves node.version node.ifaces dst) members)

-- The interfaces that a packet to `dst` goes out by: their subnet holds it, they are not the interface
-- it came from, and they have no address in the subnet of that one.
abbrev pub apart : Node → Option ℕ → ℕ → Bool
apart node none k = true
apart node (some j) k =
    not (j == k)
    && not (in_subnet node.version (iface_at node.ifaces k).addr (iface_at node.ifaces j))

abbrev pub reached : Node → ℕ → Option ℕ → List ℕ → List ℕ
reached node dst from members =
    filter (apart node from) (filter (serves node.version node.ifaces dst) members)

not-skips-apart :
    (node : Node) (from : Option ℕ) (k : ℕ) → not (skips node from k) ≡ apart node from k
unfolding is_within_subnet
not-skips-apart node none k = refl
not-skips-apart node (some j) k =
    by_tests (j == k)
      (in_subnet node.version (iface_at node.ifaces k).addr (iface_at node.ifaces j))
  where
    by_tests : (a b : Bool) → not (if a then true else b) ≡ (not a && not b)
    by_tests true b = refl
    by_tests false b = refl

targets-apart :
    (node : Node) (from : Option ℕ) (ks : List ℕ)
    → targets node from ks ≡ filter (apart node from) ks
targets-apart node from ks i = filter (λ k. not-skips-apart node from k i) ks

-- The three ends of csp_send_direct by the routing table
abbrev pub ByRoute : List ℕ → Node → PacketId → ℕ → Option ℕ → Net → Type 0
ByRoute held node idout i from net =
    let found = find_route node.version node.routes idout.dst in
    ((found ≡ none)
      × (send_direct node idout i from net ≡ some (record net { pool = free (to_slot i) net.pool }))
      × Owned held (free (to_slot i) net.pool))
    ⊎ ((r : ℕ) × (found ≡ some r)
        × ((get_or node.routes.entries r zero_route).iface ≡ none)
        × (send_direct node idout i from net ≡ none))
    ⊎ ((r : ℕ) × (k : ℕ) × (net' : Net) × (found ≡ some r)
        × ((get_or node.routes.entries r zero_route).iface ≡ some k)
        × (send_direct node idout i from net ≡ some net')
        × Outcome held i k (get_or node.routes.entries r zero_route).via idout
            (deliver node (is_from_me from) k (get_or node.routes.entries r zero_route).via
              (record ((slot_at net.pool i).packet) { id = idout }))
            net net')

module _ (node : Node) (idout : PacketId) (i : ℕ) (from : Option ℕ) (members held : List ℕ)
    (net : Net) (chain : IsList node.ifaces members) (v : Owned (i ∷ held) net.pool)
    (fits : (slot_at net.pool i).packet.len ≤ node.data_size) where
  few : length members < suc (length node.ifaces.at)
  few = omega (arith, length-Chain node.ifaces node.ifaces.head members chain)

  pub send_direct_targets :
      0 < length (all_targets node idout.dst from members)
      → length (all_targets node idout.dst from members) ≤ length (waiting net.pool)
      → (net' : Net) × (new : List Sent) × (send_direct node idout i from net ≡ some net')
        × (net'.sent ≡ net.sent ++ new)
        × Sublist (map (λ s. s.iface) new) (all_targets node idout.dst from members)
        × (map copy_of new
            ≡ copies
                (copy_for node idout from (slot_at net.pool i).packet)
                (all_targets node idout.dst from members))
        × Owned (handed_to new held) net'.pool
  unfolding send_direct
  send_direct_targets some_target room =
      let (net1, run, s) =
        send_local_lem node idout i from (slot_at net.pool i).packet (suc (length node.ifaces.at))
          none members held false net chain few v refl fits room in
      let found = nonempty_found (all_targets node idout.dst from members) some_target in
      elim s [
        | spread new sent from_targets all owned ↦ (
          record net1 { pool = free (to_slot i) net1.pool },
          new,
          ap (send_rest node idout i from) (run ∙ ap (λ b. some (b, net1)) found),
          sent,
          from_targets,
          all,
          (free_cases (handed_to new held) net1.pool i owned).0,
        )
      ]
    where
      nonempty_found : (l : List ℕ) → 0 < length l → (if non_empty l then true else false) ≡ true
      nonempty_found [] h = absurd (omega arith)
      nonempty_found (k ∷ l) h = refl

  -- csp_send_direct of a held packet whose data fits, where it goes out by at least one interface: one
  -- whose subnet holds the address, which is not the interface the packet came from and has no address
  -- in the subnet of that one. Each of these has a free buffer for its copy. Then the call returns, and
  -- the copies that were sent are exactly these: in the order of the list, and without a next hop, each
  -- of these interfaces has the packet with its own address as the source, and with the checksum that
  -- is asked for from this node, if that fits the interface's MTU and its nexthop function takes it. The
  -- buffers have as owners who held them before and the interfaces for what they took; that of the
  -- packet itself is free.
  pub send_direct_local :
      0 < length (reached node idout.dst from members)
      → length (reached node idout.dst from members) ≤ length (waiting net.pool)
      → (net' : Net) × (new : List Sent) × (send_direct node idout i from net ≡ some net')
        × (net'.sent ≡ net.sent ++ new)
        × (map copy_of new
            ≡ copies
                (copy_for node idout from (slot_at net.pool i).packet)
                (reached node idout.dst from members))
        × Owned (handed_to new held) net'.pool
  send_direct_local some_target room =
      let same : all_targets node idout.dst from members ≡ reached node idout.dst from members =
        targets-apart node from (filter (serves node.version node.ifaces idout.dst) members) in
      let (net', new, runs, sent, from_targets, all, owned) =
        send_direct_targets (omega (arith, some_target, ap length same))
          (omega (arith, room, ap length same)) in
      (
        net',
        new,
        runs,
        sent,
        all ∙ ap (copies (copy_for node idout from (slot_at net.pool i).packet)) same,
        owned,
      )

  -- csp_send_direct of a held packet whose data fits, where no subnet of an interface takes it. With no
  -- route it frees the buffer; by a route with an interface that interface took the packet or the
  -- buffer is free; and a route without an interface is read through as a null pointer.
  pub send_direct-ByRoute :
      all_targets node idout.dst from members ≡ [] → ByRoute held node idout i from net
  unfolding send_direct send_direct_iface
  send_direct-ByRoute no_target = by_entry (find_route node.version node.routes idout.dst) refl
    where
      untargeted :
          send_direct node idout i from net
          ≡ send_route node idout i from (find_route node.version node.routes idout.dst) net
      untargeted = ap (send_rest node idout i from) (
          send_local_untargeted node idout i from false net (suc (length node.ifaces.at)) none
            members chain few no_target)

      by_iface :
          (r : ℕ) (ifc : Option ℕ)
          → find_route node.version node.routes idout.dst ≡ some r
          → (get_or node.routes.entries r zero_route).iface ≡ ifc
          → ByRoute held node idout i from net
      by_iface r none found no_iface = inr (
          inl (
            r,
            found,
            no_iface,
            untargeted
                ∙ ap (λ o. send_route node idout i from o net) found
                ∙ ap
                    (λ o.
                      send_direct_iface node idout (some i) o
                        (get_or node.routes.entries r zero_route).via (is_from_me from) net)
                    no_iface,
          ))
      by_iface r (some k) found has_iface =
          let (net', run, outcome) =
            send_direct_iface-Outcome node idout held i k
              (get_or node.routes.entries r zero_route).via (is_from_me from) net v in
          inr (
            inr (
              r,
              k,
              net',
              found,
              has_iface,
              untargeted
                  ∙ ap (λ o. send_route node idout i from o net) found
                  ∙ ap
                      (λ o.
                        send_direct_iface node idout (some i) o
                          (get_or node.routes.entries r zero_route).via (is_from_me from) net)
                      has_iface
                  ∙ run,
              outcome,
            ))

      by_entry :
          (o : Option ℕ)
          → find_route node.version node.routes idout.dst ≡ o
          → ByRoute held node idout i from net
      by_entry none found = inl (
        found,
        untargeted ∙ ap (λ o. send_route node idout i from o net) found,
        (free_cases held net.pool i v).0,
      )
      by_entry (some r) found =
          by_iface r (get_or node.routes.entries r zero_route).iface found refl

  -- csp_send_direct of a held packet whose data fits, where the subnet of some interface takes it and no
  -- buffer is free, reads through a null pointer: it does not look at what csp_buffer_clone gives.
  pub send_direct_no_buffer :
      0 < length (all_targets node idout.dst from members)
      → waiting net.pool ≡ []
      → send_direct node idout i from net ≡ none
  unfolding send_direct
  send_direct_no_buffer some_target empty = ap (send_rest node idout i from) (
      send_local_no_buffer node idout i from false net (suc (length node.ifaces.at)) none members
        held chain few some_target v fits empty)
