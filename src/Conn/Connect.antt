-- ===== src/Conn/Connect.antt =====
-- csp_connect of libcsp/src/csp_conn.c.
use damat_tutorial.Prelude.{
  ℕ, Bool, true, false, not, Option, none, some, if◌then◌else◌, ◌==◌, set, bit_and, bit_or,
}
use damat_tutorial.Packet.{PacketId}
use damat_tutorial.Conn.{conn_client, Conns, conn_at, conn_new}

-- csp_connect in a build without RDP; `use_hmac` is CSP_USE_HMAC. Where an option that the build lacks
-- is asked for, csp_dbg_errno is CSP_DBG_ERR_UNSUPPORTED.
abbrev pub without_crc : ℕ → ℕ
without_crc opts = if bit_and opts 0x80 == 0 then opts else bit_and opts 0xffffffbf

abbrev pub option_flags : ℕ → ℕ
option_flags opts =
    bit_or (if bit_and opts 0x4 == 0 then 0 else 0x8) (if bit_and opts 0x40 == 0 then 0 else 0x1)

abbrev pub with_port : ℕ → Option ℕ × Conns → Option ℕ × Conns
with_port opts (none, t) = (none, t)
with_port opts (some i, t) =
    let c = conn_at t.arr i in
    (
      some i,
      record t {
        arr = set t.arr i (record c {
          idout = record (c.idout) { sport = c.sport_outgoing };
          idin = record (c.idin) { dport = c.sport_outgoing };
          dest_socket = none;
          opts = opts;
        });
      },
    )

abbrev pub unsupported : Bool → ℕ → Bool
unsupported use_hmac opts =
    if bit_and opts 0x1 == 0 then (if bit_and opts 0x4 == 0 then false else not use_hmac) else true

abbrev pub incoming_id : ℕ → ℕ → ℕ → ℕ → ℕ → PacketId
incoming_id prio dest dport stray opts = record {
  pri = prio;
  flags = option_flags opts;
  src = dest;
  dst = 0;
  dport = stray;
  sport = dport;
}

abbrev pub outgoing_id : ℕ → ℕ → ℕ → ℕ → ℕ → PacketId
outgoing_id prio dest dport stray opts = record {
  pri = prio;
  flags = option_flags opts;
  src = 0;
  dst = dest;
  dport = dport;
  sport = stray;
}

-- `stray_in` and `stray_out` are the port fields that csp_connect does not set.
unfoldable pub connect : Bool → ℕ → ℕ → ℕ → ℕ → ℕ → ℕ → ℕ → ℕ → Conns → Option ℕ × Conns
unfolding conn_new
connect use_hmac dfl_so stray_in stray_out prio dest dport opts ms t =
    let opts' = without_crc (bit_or opts dfl_so) in
    if unsupported use_hmac opts'
    then (none, record t { pool = record (t.pool) { dbg_errno = 7 } })
    else with_port opts' (
        conn_new (incoming_id prio dest dport stray_in opts')
          (outgoing_id prio dest dport stray_out opts') conn_client ms t)
