-- ===== src/Conn/Client.antt =====
-- csp_connect: what the connection holds, and that the answers come to it.
use mathlib.Core.Path.{subst}
use damat_tutorial.Prelude.{
  ℕ, ◌+◌, ◌%◌, ◌<◌, ◌^◌, ◌≡◌, ◌∙◌, ◌⊎◌, refl, ap, sym, Bool, arith, none, some, bit_or,
  if◌then◌else◌, ◌==◌, Bool-cases, inl, inr, length, get_or-set_self, set,
}
use damat_tutorial.Packet.{PacketId}
use damat_tutorial.Queue.Fifo.{IsValid}
use damat_tutorial.Conn.{conn_closed, conn_open, conn_client, Conn, Conns, blank_conn, conn_at}
use damat_tutorial.Conn.Connect.{
  connect, incoming_id, outgoing_id, unsupported, with_port, without_crc,
}
use damat_tutorial.Conn.Demux.{OwnPort, Own, SameBut, set-SameBut, SameBut-trans}
use damat_tutorial.Conn.Allocate.{ring}
use damat_tutorial.Conn.Given.{Opened, conn_new_cases}
use damat_tutorial.Conn.Keep.{IsTable, IsTable-SameBut}

-- What csp_connect gives: none, or the number of a client with the port of that number, from which
-- what it sends to the node and port of the caller comes.
pub record Client (bound i dest dport : ℕ) (t t' : Conns) : Type 0 where
  pub table : IsTable bound t'
  pub was : (conn_at t.arr i).state ≡ conn_closed
  pub inside : i < length t'.arr
  pub state : (conn_at t'.arr i).state ≡ conn_open
  pub type_of : (conn_at t'.arr i).conn_type ≡ conn_client
  pub dst : (conn_at t'.arr i).idout.dst ≡ dest
  pub dport_of : (conn_at t'.arr i).idout.dport ≡ dport
  pub sport : (conn_at t'.arr i).idout.sport ≡ bound + 1 + i
  pub others : (j : ℕ) → conn_at t'.arr j ≡ (if j == i then conn_at t'.arr i else conn_at t.arr j)

module _ (bound i opts prio dest dport ms : ℕ) (idin : PacketId) (stray : ℕ) (t t1 : Conns) where
  -- The connection with its ports
  ready : Conn
  ready = record (conn_at t1.arr i) {
    idout = record ((conn_at t1.arr i).idout) { sport = (conn_at t1.arr i).sport_outgoing };
    idin = record ((conn_at t1.arr i).idin) { dport = (conn_at t1.arr i).sport_outgoing };
    dest_socket = none;
    opts = opts;
  }

  with_port-Client :
      IsTable bound t
      → i < length t.arr
      → Opened i conn_client idin (outgoing_id prio dest dport stray opts) ms t t1
      → Client bound i dest dport t (record t1 { arr = set t1.arr i ready })
  unfolding ready
  with_port-Client v inside o =
      let inside1 : i < length t1.arr = omega (arith, inside, o.same.len) in
      let at : conn_at (set t1.arr i ready) i ≡ ready =
        get_or-set_self t1.arr i ready blank_conn inside1 in
      let same : SameBut i t.arr (set t1.arr i ready) =
        SameBut-trans i t.arr t1.arr (set t1.arr i ready) o.same
          (set-SameBut i t1.arr ready inside1 refl) in
      let own : Own bound ready =
        subst
          (λ s.
            OwnPort bound s (conn_at t1.arr i).conn_type (conn_at t1.arr i).sport_outgoing
              (conn_at t1.arr i).sport_outgoing)
          (sym o.state)
          (subst
            (λ c.
              OwnPort bound conn_open c (conn_at t1.arr i).sport_outgoing
                (conn_at t1.arr i).sport_outgoing)
            (sym o.type_of) refl) in
      record {
        table =
            IsTable-SameBut bound i t (record t1 { arr = set t1.arr i ready }) v same
              (subst (Own bound) (sym at) own) (subst (λ d. IsValid d.rx_queue) (sym at) o.valid);
        was = o.was;
        inside = omega (arith, inside, same.len);
        state = ap (λ c. c.state) at ∙ o.state;
        type_of = ap (λ c. c.conn_type) at ∙ o.type_of;
        dst = ap (λ c. c.idout.dst) at ∙ ap (λ d. d.dst) o.idout_of;
        dport_of = ap (λ c. c.idout.dport) at ∙ ap (λ d. d.dport) o.idout_of;
        sport = ap (λ c. c.idout.sport) at ∙ o.same.port ∙ v.is_pool.ports i inside;
        others = λ j. elim (Bool-cases (j == i)) [
          | inl here ↦ let e : j ≡ i = ground arith in rw (here, e) refl
          | inr other ↦ rw other (same.rest j (ground arith))
        ];
      }

-- csp_connect on a pool that keeps to its ports ends in one of two ways. It gives none and leaves all
-- connections as they are. Or it gives one that was closed, and is now an open client with the
-- node and the port of the caller as destination and the source port of its number; all others are
-- as before, and the pool keeps to its ports.
pub connect_cases :
    (bound : ℕ) (use_hmac : Bool) (dfl_so stray_in stray_out prio dest dport opts ms : ℕ)
    (t : Conns)
    → IsTable bound t
    → ((t' : Conns) × (connect use_hmac dfl_so stray_in stray_out prio dest dport opts ms t
          ≡ (none, t'))
        × (t'.arr ≡ t.arr))
      ⊎ ((i : ℕ) × (t' : Conns) × (connect use_hmac dfl_so stray_in stray_out prio dest dport opts
              ms t
            ≡ (some i, t'))
          × Client bound i dest dport t t')
unfolding connect ready
connect_cases bound use_hmac dfl_so stray_in stray_out prio dest dport opts ms t v =
    elim (Bool-cases (unsupported use_hmac all)) [
      | inl lacks ↦
          rw lacks (inl (record t { pool = record (t.pool) { dbg_errno = 7 } }, refl, refl))
      | inr able ↦ rw able (elim (conn_new_cases idin idout conn_client ms t v.some_conn v.valid) [
        | inl (whole, fails) ↦ inl (
          record t { conn_out = (t.conn_out + 1) % 2 ^ 8 },
          ap (λ o. with_port all o) fails,
          refl,
        )
        | inr (m, t1, less, before, gives, o) ↦ inr (
          ring t.arr t.last_given m,
          _,
          ap (λ o. with_port all o) gives,
          with_port-Client bound (ring t.arr t.last_given m) all prio dest dport ms idin stray_out t
              t1 v (omega (arith, o.same.inside)) o,
        )
      ])
    ]
  where
    all : ℕ
    all = without_crc (bit_or opts dfl_so)

    idin : PacketId
    idin = incoming_id prio dest dport stray_in all

    idout : PacketId
    idout = outgoing_id prio dest dport stray_out all
