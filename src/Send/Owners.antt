-- ===== src/Send/Owners.antt =====
-- Who owns a buffer that is sent: an interface that took it, or no one.
use damat_tutorial.Prelude.{
  ℕ, ◌+◌, ◌<◌, ◌≡◌, ◌≢◌, ◌-◌, ◌∙◌, refl, ap, sym, Bool, true, false, arith, Option, none, some,
  List, [], ◌∷◌, ◌++◌, if◌then◌else◌, Bool-cases, inl, inr, length, set, get_or-set_other, ltb,
  ◌==◌, bit_and,
}
use damat_tutorial.Prelude.Int.{ℤ, pos, negsuc}
use damat_tutorial.Packet.{PacketId, Packet}
use damat_tutorial.Id.{id_prepend, id1_prepend, id2_prepend}
use damat_tutorial.Crc.{crc32_append, put_crc}
use damat_tutorial.Buffer.{Slot, Pool, blank_slot, slot_at, to_slot, free, release}
use damat_tutorial.Buffer.Owners.{Owned, Owned-counters, waiting, held-in_pool, times_in-head}
use damat_tutorial.Buffer.Calls.{free_cases}
use damat_tutorial.Buffer.Reach.{copy, copy-Owned}
use damat_tutorial.Iflist.{iface_at}
use damat_tutorial.Send.{
  Sent, Node, Net, set_packet, appended, secured, hmac_errno, tx_err, took, too_long, transmit,
  send_direct_iface,
}

pub set_packet-Owned :
    (held : List ℕ) (p : Pool) (i : ℕ) (packet : Packet)
    → i < length p.slots
    → Owned held p
    → Owned held (set_packet i packet p)
unfolding copy
set_packet-Owned held p i packet inside v =
    copy-Owned held p i (record (slot_at p i) { packet = packet }) inside refl refl v

pub head_inside : (held : List ℕ) (p : Pool) (i : ℕ) → Owned (i ∷ held) p → i < length p.slots
head_inside held p i v = held-in_pool (i ∷ held) p v i (omega (arith, times_in-head i held))

id_prepend-id : (version : ℕ) (p : Packet) → (id_prepend version p).id ≡ p.id
unfolding id_prepend id1_prepend id2_prepend
id_prepend-id version p = ground arith

crc32_append-id :
    (with_header : Bool) (version data_size : ℕ) (p : Packet)
    → (crc32_append with_header version data_size p).1.id ≡ p.id
unfolding crc32_append put_crc
crc32_append-id with_header version data_size p = elim (Bool-cases (ltb data_size (p.len + 4))) [
  | inl long ↦ rw long refl
  | inr short ↦ elim (Bool-cases with_header) [
    | inl with_it ↦ rw (short, with_it) (id_prepend-id version p)
    | inr without ↦ rw (short, without) refl
  ]
]

pub appended-some : (o : ℤ × Packet) (q : Packet) → appended o ≡ some q → o.1 ≡ q
appended-some (pos n, p) q e = cc
appended-some (negsuc n, p) q e = cc

pub secured-id :
    (node : Node) (from_me : Bool) (p q : Packet) → secured node from_me p ≡ some q → q.id ≡ p.id
unfolding secured
secured-id node false p q e = let same : p ≡ q = cc in rw same refl
secured-id node true p q e = by_test (bit_and p.id.flags 0x8 == 0) (bit_and p.id.flags 0x1 == 0) e
  where
    by_test :
        (plain no_crc : Bool)
        → (if plain
            then (if no_crc
                then some p
                else appended (crc32_append node.with_header node.version node.data_size p))
            else none)
          ≡ some q
        → q.id ≡ p.id
    by_test true true e = let same : p ≡ q = cc in rw same refl
    by_test true false e =
        let same =
          appended-some (crc32_append node.with_header node.version node.data_size p) q e in
        sym (ap (λ r. r.id) same) ∙ crc32_append-id node.with_header node.version node.data_size p
    by_test false no_crc e = cc

-- The packets in all buffers but one
abbrev pub SamePackets : ℕ → Pool → Pool → Type 0
SamePackets i p p' = (m : ℕ) → m ≢ i → (slot_at p' m).packet ≡ (slot_at p m).packet

pub SamePackets-trans :
    (i : ℕ) (p q r : Pool) → SamePackets i p q → SamePackets i q r → SamePackets i p r
SamePackets-trans i p q r f g m other = g m other ∙ f m other

pub set_slot-SamePackets :
    (i : ℕ) (p : Pool) (s : Slot) → SamePackets i p (record p { slots = set p.slots i s })
set_slot-SamePackets i p s m other =
    ap (λ t. t.packet) (get_or-set_other p.slots i m s blank_slot other)

pub free-SamePackets :
    (i : ℕ) (p : Pool) → i < length p.slots → SamePackets i p (free (to_slot i) p)
unfolding free release
free-SamePackets i p inside m other = elim (Bool-cases ((slot_at p i).addr == i)) [
  | inr corrupt ↦ rw corrupt refl
  | inl fine ↦ elim (Bool-cases ((slot_at p i).refcount == 0)) [
    | inl free_already ↦ rw (fine, free_already) refl
    | inr used ↦ elim (Bool-cases (ltb 0 ((slot_at p i).refcount - 1))) [
      | inl shared ↦
          rw (fine, used, shared)
            (set_slot-SamePackets i p
              (record (slot_at p i) { refcount = (slot_at p i).refcount - 1 }) m other)
      | inr last ↦
          rw (fine, used, last)
            (set_slot-SamePackets i p
              (record (slot_at p i) { refcount = (slot_at p i).refcount - 1 }) m other)
    ]
  ]
]

-- What interface k takes of a packet: the packet with its checksum, where one is asked for and fits, if
-- that fits the MTU of the interface and its nexthop function takes it.
abbrev pub taken_by : Node → ℕ → ℕ → Option Packet → Option Packet
taken_by node k via none = none
taken_by node k via (some p) =
    if too_long (iface_at node.ifaces k).mtu p.len
    then none
    else (if node.nexthop k via p then some p else none)

abbrev pub deliver : Node → Bool → ℕ → ℕ → Packet → Option Packet
deliver node from_me k via p = taken_by node k via (secured node from_me p)

-- What becomes of buffer i, sent by interface k, which takes `given`: no one took it and it is free, or
-- the interface has it, with that packet under the identifier.
pub data Outcome (held : List ℕ) (i k via : ℕ) (idout : PacketId) (given : Option Packet)
    (net net' : Net) : Type 0 where
  freed :
      given ≡ none
      → net'.sent ≡ net.sent
      → waiting net'.pool ≡ waiting net.pool ++ i ∷ []
      → SamePackets i net.pool net'.pool
      → Owned held net'.pool
      → Outcome held i k via idout given net net'
  handed :
      (s : Sent)
      → given ≡ some s.packet
      → net'.sent ≡ net.sent ++ s ∷ []
      → s.iface ≡ k
      → s.via ≡ via
      → s.buffer ≡ i
      → s.packet.id ≡ idout
      → waiting net'.pool ≡ waiting net.pool
      → SamePackets i net.pool net'.pool
      → Owned (i ∷ held) net'.pool
      → Outcome held i k via idout given net net'

module _ (held : List ℕ) (i k via : ℕ) (idout : PacketId) (node : Node) where
  tx_err-Outcome :
      (given : Option Packet) (net0 net : Net)
      → given ≡ none
      → net.sent ≡ net0.sent
      → waiting net.pool ≡ waiting net0.pool
      → SamePackets i net0.pool net.pool
      → Owned (i ∷ held) net.pool
      → Outcome held i k via idout given net0 (tx_err i k net)
  unfolding tx_err
  tx_err-Outcome given net0 net nothing sent same kept v =
      let released = free_cases held net.pool i v in
      freed nothing sent (released.1 ∙ ap (λ w. w ++ i ∷ []) same)
        (SamePackets-trans i net0.pool net.pool (free (to_slot i) net.pool) kept
          (free-SamePackets i net.pool (head_inside held net.pool i v)))
        released.0

  transmit-Outcome :
      (o : Option Packet) (net0 net : Net)
      → ((q : Packet) → o ≡ some q → q.id ≡ idout)
      → net.sent ≡ net0.sent
      → waiting net.pool ≡ waiting net0.pool
      → SamePackets i net0.pool net.pool
      → Owned (i ∷ held) net.pool
      → Outcome held i k via idout (taken_by node k via o) net0 (transmit node i k via o net)
  unfolding transmit
  transmit-Outcome none net0 net named sent same kept v =
      tx_err-Outcome none net0 net refl sent same kept v
  transmit-Outcome (some p) net0 net named sent same kept v =
      by_test (too_long (iface_at node.ifaces k).mtu p.len) (node.nexthop k via p)
    where
      stored : Net
      stored = record net { pool = set_packet i p net.pool }

      owned : Owned (i ∷ held) (set_packet i p net.pool)
      owned = set_packet-Owned (i ∷ held) net.pool i p (head_inside held net.pool i v) v

      still : SamePackets i net0.pool (set_packet i p net.pool)
      still =
          SamePackets-trans i net0.pool net.pool (set_packet i p net.pool) kept
            (set_slot-SamePackets i net.pool (record (slot_at net.pool i) { packet = p }))

      by_test :
          (long accepts : Bool)
          → Outcome held i k via idout
              (if long then none else (if accepts then some p else none))
              net0
              (if long
                then tx_err i k stored
                else (if accepts then took i k via p stored else tx_err i k stored))
      by_test true accepts = tx_err-Outcome none net0 stored refl sent same still owned
      by_test false false = tx_err-Outcome none net0 stored refl sent same still owned
      by_test false true =
          unfold took in
          handed (record { iface = k; via = via; buffer = i; packet = p }) refl
            (ap (λ l. l ++ record { iface = k; via = via; buffer = i; packet = p } ∷ []) sent) refl
            refl refl (named p refl) same still owned

-- csp_send_direct_iface with a packet that the caller holds and an interface returns, and the
-- buffer is then free or with that interface.
pub send_direct_iface-Outcome :
    (node : Node) (idout : PacketId) (held : List ℕ) (i k via : ℕ) (from_me : Bool) (net : Net)
    → Owned (i ∷ held) net.pool
    → (net' : Net) × (send_direct_iface node idout (some i) (some k) via from_me net ≡ some net')
      × Outcome held i k via idout
          (deliver node from_me k via (record ((slot_at net.pool i).packet) { id = idout }))
          net
          net'
unfolding send_direct_iface
send_direct_iface-Outcome node idout held i k via from_me net v = (
  transmit node i k via (secured node from_me p)
      (record net { pool = hmac_errno from_me p (set_packet i p net.pool) }),
  refl,
  transmit-Outcome held i k via idout node (secured node from_me p) net _
      (λ q e. secured-id node from_me p q e) refl (same_queue from_me) (still from_me)
      (owned from_me),
)
  where
    p : Packet
    p = record ((slot_at net.pool i).packet) { id = idout }

    stored : Pool
    stored = set_packet i p net.pool

    v1 : Owned (i ∷ held) stored
    v1 = set_packet-Owned (i ∷ held) net.pool i p (head_inside held net.pool i v) v

    same_queue : (from_me : Bool) → waiting (hmac_errno from_me p stored) ≡ waiting net.pool
    same_queue false = refl
    same_queue true = elim (Bool-cases (bit_and idout.flags 0x8 == 0)) [
      | inl plain ↦ rw plain refl
      | inr hmac ↦ rw hmac refl
    ]

    v1_packets : SamePackets i net.pool stored
    v1_packets = set_slot-SamePackets i net.pool (record (slot_at net.pool i) { packet = p })

    still : (from_me : Bool) → SamePackets i net.pool (hmac_errno from_me p stored)
    still false = v1_packets
    still true = elim (Bool-cases (bit_and idout.flags 0x8 == 0)) [
      | inl plain ↦ rw plain v1_packets
      | inr hmac ↦ rw hmac v1_packets
    ]

    owned : (from_me : Bool) → Owned (i ∷ held) (hmac_errno from_me p stored)
    owned false = v1
    owned true = elim (Bool-cases (bit_and idout.flags 0x8 == 0)) [
      | inl plain ↦ rw plain v1
      | inr hmac ↦ rw hmac (Owned-counters (i ∷ held) stored stored.buffer_out 7 v1)
    ]
