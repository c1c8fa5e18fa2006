-- ===== src/Send/Corner.antt =====
-- The loop of csp_send_direct where there is no target, and where there is no buffer for a copy.
use damat_tutorial.Prelude.{
  ℕ, zero, suc, ◌<◌, ◌≤◌, ◌≡◌, ◌∙◌, refl, ap, sym, Bool, true, arith, Option, none, some, List, [],
  ◌∷◌, if◌then◌else◌, Bool-cases, inl, inr, length, filter,
}
use damat_tutorial.Packet.{PacketId}
use damat_tutorial.Buffer.{slot_at, clone}
use damat_tutorial.Buffer.Owners.{Owned, waiting}
use damat_tutorial.Iflist.{iface_at, serves, behind}
use damat_tutorial.Iflist.Chain.{Chain, first_in}
use damat_tutorial.Iflist.Search.{missing, hit, first_in-Searched, get_by_subnet_lem}
use damat_tutorial.Send.{
  Node, Net, skips, is_from_me, no_via, send_direct_iface, send_copy, and_then, for_next,
  send_local,
}
use damat_tutorial.Send.Copies.{clone_cases}
use damat_tutorial.Send.Local.{targets}

module _ (node : Node) (idout : PacketId) (i : ℕ) (from : Option ℕ) (found : Bool) (net : Net) where
  abbrev wanted : List ℕ → List ℕ
  wanted xs = targets node from (filter (serves node.version node.ifaces idout.dst) xs)

  body : ℕ → ℕ → Option (Bool × Net)
  body n k =
      if skips node from k
      then send_local node idout i from n (some k) found net
      else and_then (λ after. send_local node idout i from n (some k) true after)
          (send_copy node idout i from k net)

  send_local_step :
      (n : ℕ) (ifc : Option ℕ) (xs : List ℕ)
      → Chain node.ifaces (behind node.ifaces ifc) xs
      → send_local node idout i from (suc n) ifc found net
        ≡ for_next
            (some (found, net))
            (body n)
            (first_in (serves node.version node.ifaces idout.dst) xs)
  unfolding send_local body
  send_local_step n ifc xs chain =
      ap (for_next (some (found, net)) (body n))
        (get_by_subnet_lem node.version node.ifaces idout.dst ifc xs chain)

  pub send_local_untargeted :
      (n : ℕ) (ifc : Option ℕ) (xs : List ℕ)
      → Chain node.ifaces (behind node.ifaces ifc) xs
      → length xs < n
      → wanted xs ≡ []
      → send_local node idout i from n ifc found net ≡ some (found, net)
  unfolding body
  send_local_untargeted zero ifc xs chain enough no_target = absurd (omega arith)
  send_local_untargeted (suc n) ifc xs chain enough no_target =
      send_local_step n ifc xs chain
      ∙ elim (first_in-Searched (serves node.version node.ifaces idout.dst) node.ifaces
          (behind node.ifaces ifc) xs chain) [
            | missing none_found empty ↦ ap (for_next (some (found, net)) (body n)) none_found
            | hit k rest found_k kept behind_k shorter ↦ elim (Bool-cases (skips node from k)) [
              | inl skipped ↦
                  ap (for_next (some (found, net)) (body n)) found_k
                  ∙ rw skipped (
                      send_local_untargeted n (some k) rest behind_k (omega (arith, shorter))
                        (sym (ap (targets node from) kept ∙ rw skipped refl) ∙ no_target))
              | inr taken ↦
                  let out : wanted xs ≡ k ∷ wanted rest =
                    ap (targets node from) kept ∙ rw taken refl in
                  absurd (omega (arith, ap length out, ap length no_target))
            ]
          ]

  pub send_local_no_buffer :
      (n : ℕ) (ifc : Option ℕ) (xs held : List ℕ)
      → Chain node.ifaces (behind node.ifaces ifc) xs
      → length xs < n
      → 0 < length (wanted xs)
      → Owned (i ∷ held) net.pool
      → (slot_at net.pool i).packet.len ≤ node.data_size
      → waiting net.pool ≡ []
      → send_local node idout i from n ifc found net ≡ none
  unfolding body send_copy send_direct_iface
  send_local_no_buffer zero ifc xs held chain enough some_target v fits empty_pool =
      absurd (omega arith)
  send_local_no_buffer (suc n) ifc xs held chain enough some_target v fits empty_pool =
      send_local_step n ifc xs chain
      ∙ elim (first_in-Searched (serves node.version node.ifaces idout.dst) node.ifaces
          (behind node.ifaces ifc) xs chain) [
            | missing none_found empty ↦
                absurd (omega (arith, some_target, ap (λ l. length (targets node from l)) empty))
            | hit k rest found_k kept behind_k shorter ↦ elim (Bool-cases (skips node from k)) [
              | inl skipped ↦
                  let out : wanted xs ≡ wanted rest =
                    ap (targets node from) kept ∙ rw skipped refl in
                  ap (for_next (some (found, net)) (body n)) found_k
                  ∙ rw skipped (
                      send_local_no_buffer n (some k) rest held behind_k (omega (arith, shorter))
                        (omega (arith, some_target, ap length out)) v fits empty_pool)
              | inr taken ↦
                  ap (for_next (some (found, net)) (body n)) found_k
                  ∙ rw taken (
                      ap (and_then (λ after. send_local node idout i from n (some k) true after))
                        (no_copy k))
            ]
          ]
    where
      no_copy : (k : ℕ) → send_copy node idout i from k net ≡ none
      no_copy k = elim (clone_cases node.data_size i held net.pool v fits) [
        | inl (empty, r) ↦
            ap
              (λ o.
                send_direct_iface node (record idout { src = (iface_at node.ifaces k).addr }) o
                  (some k) no_via (is_from_me from)
                  (record net { pool = (clone node.data_size (some i) net.pool).1 }))
              r
        | inr (j, p', r, first, fresh, cloned, same, owned) ↦
            absurd (omega (arith, ap length first, ap length empty_pool))
      ]
