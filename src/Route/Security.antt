-- ===== src/Route/Security.antt =====
-- The checksum between csp_send_direct_iface of one node and csp_route_security_check of another.
use damat_tutorial.Prelude.{
  ℕ, ◌+◌, ◌<◌, ◌≤◌, ◌^◌, ◌≡◌, ◌∙◌, ap, sym, Bool, true, false, none, some, if◌then◌else◌, ◌==◌,
  length, bit_and,
}
use damat_tutorial.Prelude.Int.{pos}
use damat_tutorial.Packet.{Packet, padding_bytes}
use damat_tutorial.Crc.{crc32_append, crc32_verify}
use damat_tutorial.Crc.RoundTrip.{SameData, crc32_verify-crc32_append}
use damat_tutorial.Send.{Node, appended, secured, set_packet}
use damat_tutorial.Send.Owners.{appended-some, secured-id}
use damat_tutorial.Route.{Router, packet_of, with_pool, verified, security_check}

-- A packet with the flag CSP_FCRC32 that csp_send_direct_iface of a sender with the same version has
-- secured arrives in buffer i with its data: csp_route_security_check of the receiver takes it,
-- whatever the socket demands, and leaves its identifier, its length and its data as before. The
-- checksum leaves the header out, and the packet has a buffer of CSP_BUFFER_SIZE bytes and room for
-- the checksum.
pub security_check-secured :
    (node : Node) (opts k i : ℕ) (p q : Packet) (t : Router)
    → node.with_header ≡ false
    → (bit_and p.id.flags 0x1 == 0) ≡ false
    → p.len + 4 ≤ node.data_size
    → length p.buf ≡ padding_bytes + node.data_size
    → node.data_size + 6 < 2 ^ 16
    → secured node true p ≡ some q
    → i < length t.conns.pool.slots
    → packet_of t i ≡ q
    → (r : Packet) × (security_check node.version opts k i t ≡ (true, with_pool (set_packet i r) t))
      × SameData p r
unfolding secured security_check
security_check-secured node opts k i p q t plain flag fits whole small sent inside arrived =
    let (fine, r, verified_r, same) =
      crc32_verify-crc32_append node.version node.data_size p fits whole small in
    let passes : crc32_verify node.version (packet_of t i) ≡ (pos 0, r) =
      ap (crc32_verify node.version) (arrived ∙ sym appended_q) ∙ verified_r in
    let flag_q : (bit_and (packet_of t i).id.flags 0x1 == 0) ≡ false =
      ap (λ s. bit_and s.id.flags 0x1 == 0) arrived
      ∙ ap (λ d. bit_and d.flags 0x1 == 0) (secured-id node true p q sent)
      ∙ flag in
    (r, rw flag_q (ap (λ o. verified k i o t) passes), same)
  where
    by_test :
        (no_hmac : Bool)
        → (if no_hmac
            then (if bit_and p.id.flags 0x1 == 0
                then some p
                else appended (crc32_append node.with_header node.version node.data_size p))
            else none)
          ≡ some q
        → appended (crc32_append false node.version node.data_size p) ≡ some q
    by_test true e =
        ap (λ b. appended (crc32_append b node.version node.data_size p)) (sym plain)
        ∙ ap
            (λ b.
              if b
              then some p
              else appended (crc32_append node.with_header node.version node.data_size p))
            (sym flag)
        ∙ e
    by_test false e = cc

    appended_q : (crc32_append false node.version node.data_size p).1 ≡ q
    appended_q =
        appended-some (crc32_append false node.version node.data_size p) q
          (by_test (bit_and p.id.flags 0x8 == 0) sent)
