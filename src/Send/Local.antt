-- ===== src/Send/Local.antt =====
-- The loop of csp_send_direct over the interfaces whose subnet holds the address.
use mathlib.Core.Path.{subst, ap₂}
use damat_tutorial.Prelude.{
  ℕ, zero, suc, ◌<◌, ◌≤◌, ◌≡◌, ◌∙◌, refl, ap, sym, Bool, true, false, not, arith, Option, some,
  List, [], ◌∷◌, ◌++◌, map, if◌then◌else◌, Bool-cases, inl, inr, length, filter,
}
use mathlib.Core.List.{append_assoc, append-nil, map-append}
use damat_tutorial.Packet.{PacketId, Packet}
use damat_tutorial.Buffer.{slot_at}
use damat_tutorial.Buffer.Owners.{Owned, waiting}
use damat_tutorial.Iflist.{serves, behind, get_by_subnet}
use damat_tutorial.Iflist.Chain.{Chain, first_in}
use damat_tutorial.Iflist.Search.{missing, hit, first_in-Searched, get_by_subnet_lem}
use damat_tutorial.Send.{Sent, Node, Net, skips, no_via, send_copy, and_then, for_next, send_local}
use damat_tutorial.Send.Copies.{
  Sublist, done, drop_head, keep_head, handed_to, copy_of, one_copy, copies, copy_for, copied,
  send_copy-Copied,
}

-- The interfaces that csp_send_direct sends a packet to by their subnets
abbrev pub targets : Node → Option ℕ → List ℕ → List ℕ
targets node from ks = filter (λ k. not (skips node from k)) ks

abbrev pub non_empty : List ℕ → Bool
non_empty [] = false
non_empty (k ∷ ks) = true

-- What the loop leaves: each target took the copy that it takes, in the order of the list, and every
-- other buffer is where it was.
pub data Spread (given : ℕ → Option Packet) (ks held : List ℕ) (i : ℕ) (net net' : Net)
    : Type 0 where
  spread :
      (new : List Sent)
      → net'.sent ≡ net.sent ++ new
      → Sublist (map (λ s. s.iface) new) ks
      → map copy_of new ≡ copies given ks
      → Owned (i ∷ handed_to new held) net'.pool
      → Spread given ks held i net net'

Sublist-append :
    (xs ys us vs : List ℕ) → Sublist xs us → Sublist ys vs → Sublist (xs ++ ys) (us ++ vs)
Sublist-append xs ys us vs done t = t
Sublist-append xs ys us vs (drop_head y s) t = drop_head y (Sublist-append _ ys _ vs s t)
Sublist-append xs ys us vs (keep_head y s) t = keep_head y (Sublist-append _ ys _ vs s t)

handed_to-append :
    (a b : List Sent) (held : List ℕ) → handed_to (a ++ b) held ≡ handed_to b (handed_to a held)
handed_to-append [] b held = refl
handed_to-append (s ∷ a) b held = handed_to-append a b (s.buffer ∷ held)

Spread-cons :
    (given : ℕ → Option Packet) (k : ℕ) (ks held : List ℕ) (i : ℕ) (net net1 net' : Net)
    (new : List Sent)
    → net1.sent ≡ net.sent ++ new
    → Sublist (map (λ s. s.iface) new) (k ∷ [])
    → map copy_of new ≡ one_copy k no_via (given k)
    → Spread given ks (handed_to new held) i net1 net'
    → Spread given (k ∷ ks) held i net net'
unfolding copies
Spread-cons given k ks held i net net1 net' new sent from one (spread more sent' from' all owned') =
    spread (new ++ more) (sent' ∙ ap (λ l. l ++ more) sent ∙ append_assoc net.sent new more)
      (subst (λ l. Sublist l (k ∷ ks)) (sym (map-append (λ s. s.iface) new more))
        (Sublist-append _ _ (k ∷ []) ks from from'))
      (map-append copy_of new more ∙ ap₂ (λ a b. a ++ b) one all)
      (subst (λ l. Owned (i ∷ l) net'.pool) (sym (handed_to-append new more held)) owned')

module _ (node : Node) (idout : PacketId) (i : ℕ) (from : Option ℕ) (p : Packet) where
  abbrev given : ℕ → Option Packet
  given = copy_for node idout from p

  abbrev wanted : List ℕ → List ℕ
  wanted xs = targets node from (filter (serves node.version node.ifaces idout.dst) xs)

  pub send_local_lem :
      (n : ℕ) (ifc : Option ℕ) (xs held : List ℕ) (found : Bool) (net : Net)
      → Chain node.ifaces (behind node.ifaces ifc) xs
      → length xs < n
      → Owned (i ∷ held) net.pool
      → (slot_at net.pool i).packet ≡ p
      → p.len ≤ node.data_size
      → length (wanted xs) ≤ length (waiting net.pool)
      → (net' : Net) × (send_local node idout i from n ifc found net
          ≡ some (if non_empty (wanted xs) then true else found, net'))
        × Spread given (wanted xs) held i net net'
  unfolding send_local
  send_local_lem zero ifc xs held found net chain enough v is_p fits room = absurd (omega arith)
  send_local_lem (suc n) ifc xs held found net chain enough v is_p fits room =
      elim (first_in-Searched test node.ifaces (behind node.ifaces ifc) xs chain) [
        | missing none_found empty ↦ (
          net,
          ap (for_next (some (found, net)) body) (search ∙ none_found)
              ∙ ap (λ l. some (if non_empty (targets node from l) then true else found, net))
                  (sym empty),
          subst (λ l. Spread given (targets node from l) held i net net) (sym empty)
              (spread [] (sym (append-nil net.sent)) done (sym no_copies) v),
        )
        | hit k rest found_k kept behind_k shorter ↦ elim (Bool-cases (skips node from k)) [
          | inl skipped ↦
              let out : wanted xs ≡ wanted rest = ap (targets node from) kept ∙ rw skipped refl in
              let (net', run, s) =
                send_local_lem n (some k) rest held found net behind_k (omega (arith, shorter)) v
                  is_p fits (omega (arith, room, ap length out)) in
              (
                net',
                ap (for_next (some (found, net)) body) (search ∙ found_k)
                    ∙ rw skipped run
                    ∙ ap (λ l. some (if non_empty l then true else found, net')) (sym out),
                subst (λ l. Spread given l held i net net') (sym out) s,
              )
          | inr taken ↦
              let out : wanted xs ≡ k ∷ wanted rest = ap (targets node from) kept ∙ rw taken refl in
              let (net1, copy_run, outcome) =
                send_copy-Copied node idout i from k held net v
                  (omega (arith, fits, ap (λ q. q.len) is_p))
                  (omega (arith, room, ap length out)) in
              elim outcome [
                | copied new sent from_k one room1 owned same ↦
                    let (net', run, s) =
                      send_local_lem n (some k) rest (handed_to new held) true net1 behind_k
                        (omega (arith, shorter)) owned (same ∙ is_p) fits
                        (omega (arith, room, ap length out, room1)) in
                    (
                      net',
                      ap (for_next (some (found, net)) body) (search ∙ found_k)
                          ∙ rw (taken, copy_run) run
                          ∙ already (wanted rest) net'
                          ∙ ap (λ l. some (if non_empty l then true else found, net')) (sym out),
                      subst (λ l. Spread given l held i net net') (sym out)
                          (Spread-cons given k (wanted rest) held i net net1 net' new sent from_k
                            (one ∙ ap (λ q. one_copy k no_via (copy_for node idout from q k)) is_p)
                            s),
                    )
              ]
        ]
      ]
    where
      no_copies : copies given [] ≡ []
      no_copies = unfold copies in refl

      test : ℕ → Bool
      test = serves node.version node.ifaces idout.dst

      already :
          (l : List ℕ) (net' : Net)
          → ◌≡◌ {A = Option (Bool × Net)}
              (some (if non_empty l then true else true, net'))
              (some (true, net'))
      already [] net' = refl
      already (x ∷ l) net' = refl

      body : ℕ → Option (Bool × Net)
      body k =
          if skips node from k
          then send_local node idout i from n (some k) found net
          else and_then (λ after. send_local node idout i from n (some k) true after)
              (send_copy node idout i from k net)

      search : get_by_subnet node.version node.ifaces idout.dst ifc ≡ first_in test xs
      search = get_by_subnet_lem node.version node.ifaces idout.dst ifc xs chain
