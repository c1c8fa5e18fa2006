-- ===== src/Send/Copies.antt =====
-- The copy of a packet that csp_send_direct makes for an interface, and what that interface takes.
use mathlib.Core.Path.{subst, ap₂}
use damat_tutorial.Prelude.{
  ℕ, zero, suc, ◌+◌, ◌<◌, ◌≤◌, ◌≡◌, ◌≢◌, ◌∙◌, ◌⊎◌, refl, ap, sym, arith, Option, none, some, List,
  [], ◌∷◌, ◌++◌, map, Bool-cases, inl, inr, length, length-append, get_or, get_or-set_self, set,
  ltb, ◌==◌,
}
use mathlib.Core.List.{append-nil}
use damat_tutorial.Packet.{PacketId, Packet}
use damat_tutorial.Queue.{Queue, Status, dequeue}
use damat_tutorial.Buffer.{Slot, Pool, blank_slot, slot_at, take_free, get, copy_packet, clone}
use damat_tutorial.Buffer.Owners.{Owned, waiting, times_in, times_in-head, held-in_pool}
use damat_tutorial.Buffer.Calls.{get_cases}
use damat_tutorial.Buffer.Clients.{Owned-front}
use damat_tutorial.Buffer.Reach.{copy, copy-Owned, copy_packet-some}
use damat_tutorial.Iflist.{iface_at}
use damat_tutorial.Send.{Sent, Node, Net, is_from_me, no_via, send_direct_iface, send_copy}
use damat_tutorial.Send.Owners.{
  deliver, SamePackets, set_slot-SamePackets, freed, handed, send_direct_iface-Outcome,
}

-- `xs` is `ys` with some members left out.
pub data Sublist : List ℕ → List ℕ → Type 0 where
  done : Sublist [] []
  drop_head : {xs ys : List ℕ} (y : ℕ) → Sublist xs ys → Sublist xs (y ∷ ys)
  keep_head : {xs ys : List ℕ} (y : ℕ) → Sublist xs ys → Sublist (y ∷ xs) (y ∷ ys)

-- Those who hold a buffer once interfaces took some
abbrev pub handed_to : List Sent → List ℕ → List ℕ
handed_to [] held = held
handed_to (s ∷ sent) held = handed_to sent (s.buffer ∷ held)

refcount-packet :
    (slots : List Slot) (j n m : ℕ)
    → (get_or
        (set slots j (record (get_or slots j blank_slot) { refcount = n }))
        m
        blank_slot).packet
      ≡ (get_or slots m blank_slot).packet
refcount-packet [] j n m = refl
refcount-packet (s ∷ slots) zero n zero = refl
refcount-packet (s ∷ slots) zero n (suc m) = refl
refcount-packet (s ∷ slots) (suc j) n zero = refl
refcount-packet (s ∷ slots) (suc j) n (suc m) = refcount-packet slots j n m

take_free-packet :
    (o : Status × Option ℕ × Queue ℕ) (p : Pool) (m : ℕ)
    → (slot_at (take_free o p).1 m).packet ≡ (slot_at p m).packet
unfolding take_free
take_free-packet (status, none, q) p m = refl
take_free-packet (status, some j, q) p m = elim (Bool-cases ((slot_at p j).addr == j)) [
  | inl fine ↦ rw fine (refcount-packet p.slots j 1 m)
  | inr corrupt ↦ rw corrupt refl
]

get-packet :
    (data_size size : ℕ) (p : Pool) (m : ℕ)
    → (slot_at (get data_size size p).1 m).packet ≡ (slot_at p m).packet
unfolding get
get-packet data_size size p m = elim (Bool-cases (ltb data_size size)) [
  | inl large ↦ rw large refl
  | inr fits ↦ rw fits (take_free-packet (dequeue 0 p.free) p m)
]

-- csp_buffer_clone of a held buffer whose data fits: with no free buffer it gives none, else the
-- buffer that was free for longest, with the same packet and one owner.
pub clone_cases :
    (data_size i : ℕ) (held : List ℕ) (p : Pool)
    → Owned (i ∷ held) p
    → (slot_at p i).packet.len ≤ data_size
    → ((waiting p ≡ []) × ((clone data_size (some i) p).0 ≡ none))
      ⊎ ((j : ℕ) × (p' : Pool) × (clone data_size (some i) p ≡ (some j, p'))
          × (waiting p ≡ j ∷ waiting p')
          × (times_in j (i ∷ held) ≡ 0)
          × ((slot_at p' j).packet ≡ (slot_at p i).packet)
          × SamePackets j p p'
          × Owned (j ∷ i ∷ held) p')
unfolding clone
clone_cases data_size i held p v fits =
    elim (get_cases data_size (slot_at p i).packet.len (i ∷ held) p v) [
      | inl (large, r) ↦ absurd (omega arith)
      | inr (inl (fits, empty, r)) ↦ inl (empty, rw r (unfold copy_packet in refl))
      | inr (inr (j, fits, r, first, fresh, owned)) ↦ inr (
        j,
        copy j p1 (record (slot_at p1 j) { packet = (slot_at p1 i).packet }),
        copy_packet-some i j (get data_size (slot_at p i).packet.len p) r,
        unfold copy in first,
        fresh,
        unfold copy in
            ap (λ s. s.packet)
              (get_or-set_self p1.slots j (record (slot_at p1 j) { packet = (slot_at p1 i).packet })
                blank_slot
                (held-in_pool (j ∷ i ∷ held) p1 owned j
                  (omega (arith, times_in-head j (i ∷ held)))))
            ∙ get-packet data_size (slot_at p i).packet.len p i,
        λ m other.
            unfold copy in
            set_slot-SamePackets j p1 (record (slot_at p1 j) { packet = (slot_at p1 i).packet }) m
              other
            ∙ get-packet data_size (slot_at p i).packet.len p m,
        copy-Owned (j ∷ i ∷ held) p1 j _
            (held-in_pool (j ∷ i ∷ held) p1 owned j (omega (arith, times_in-head j (i ∷ held))))
            refl refl owned,
      )
    ]
  where
    p1 : Pool
    p1 = (get data_size (slot_at p i).packet.len p).1

-- The copies that interfaces took, without their buffers
abbrev pub Copy : Type 0
Copy = ℕ × ℕ × Packet

abbrev pub copy_of : Sent → Copy
copy_of s = (s.iface, s.via, s.packet)

abbrev pub one_copy : ℕ → ℕ → Option Packet → List Copy
one_copy k via none = []
one_copy k via (some q) = (k, via, q) ∷ []

-- What each of the interfaces takes, in their order
unfoldable pub copies : (ℕ → Option Packet) → List ℕ → List Copy
copies given [] = []
copies given (k ∷ ks) = one_copy k no_via (given k) ++ copies given ks

-- A copy leaves interface k with the address of k as its source.
abbrev pub copy_for : Node → PacketId → Option ℕ → Packet → ℕ → Option Packet
copy_for node idout from p k =
    deliver node (is_from_me from) k no_via
      (record p { id = record idout { src = (iface_at node.ifaces k).addr } })

-- A copy for interface k: with a free buffer it is made, and the interface took it or it is free again.
pub data Copied (held : List ℕ) (i k : ℕ) (given : Option Packet) (net net' : Net) : Type 0 where
  copied :
      (new : List Sent)
      → net'.sent ≡ net.sent ++ new
      → Sublist (map (λ s. s.iface) new) (k ∷ [])
      → map copy_of new ≡ one_copy k no_via given
      → length (waiting net.pool) ≤ length (waiting net'.pool) + 1
      → Owned (i ∷ handed_to new held) net'.pool
      → (slot_at net'.pool i).packet ≡ (slot_at net.pool i).packet
      → Copied held i k given net net'

pub send_copy-Copied :
    (node : Node) (idout : PacketId) (i : ℕ) (from : Option ℕ) (k : ℕ) (held : List ℕ) (net : Net)
    → Owned (i ∷ held) net.pool
    → (slot_at net.pool i).packet.len ≤ node.data_size
    → 0 < length (waiting net.pool)
    → (net' : Net) × (send_copy node idout i from k net ≡ some net')
      × Copied held i k (copy_for node idout from (slot_at net.pool i).packet k) net net'
unfolding send_copy
send_copy-Copied node idout i from k held net v fits some_free =
    elim (clone_cases node.data_size i held net.pool v fits) [
      | inl (empty, r) ↦ absurd (omega (arith, some_free, ap length empty))
      | inr (j, p', r, first, fresh, cloned, same, owned) ↦
          let (net', run, outcome) =
            send_direct_iface-Outcome node out (i ∷ held) j k no_via (is_from_me from)
              (record net { pool = p' }) owned in
          let other : i ≢ j = λ e.
            absurd
              (omega (arith, fresh, times_in-head i held, ap (λ n. times_in n (i ∷ held)) e)) in
          let as_given : deliver node (is_from_me from) k no_via
                (record ((slot_at p' j).packet) { id = out })
              ≡ copy_for node idout from (slot_at net.pool i).packet k =
            ap (λ q. copy_for node idout from q k) cloned in
          (
            net',
            ap
                  (λ o.
                    send_direct_iface node out o.0 (some k) no_via (is_from_me from)
                      (record net { pool = o.1 }))
                  r
                ∙ run,
            elim outcome [
              | freed nothing sent last kept after ↦
                  copied [] (sent ∙ sym (append-nil net.sent)) (drop_head k done)
                    (sym (ap (one_copy k no_via) (sym as_given ∙ nothing)))
                    (omega
                      (arith, ap length first, ap length last, length-append (waiting p') (j ∷ [])))
                    after (kept i other ∙ same i other)
              | handed s given sent iface via buffer id last kept after ↦
                  copied (s ∷ []) sent
                    (subst (λ n. Sublist (n ∷ []) (k ∷ [])) (sym iface) (keep_head k done))
                    (ap₂ (λ a b. (a, b, s.packet) ∷ []) iface via
                      ∙ sym (ap (one_copy k no_via) (sym as_given ∙ given)))
                    (omega (arith, ap length first, ap length last))
                    (subst (λ b. Owned (i ∷ b ∷ held) net'.pool) (sym buffer)
                      (Owned-front 1 i (j ∷ i ∷ held) net'.pool refl after))
                    (kept i other ∙ same i other)
            ],
          )
    ]
  where
    out : PacketId
    out = record idout { src = (iface_at node.ifaces k).addr }
