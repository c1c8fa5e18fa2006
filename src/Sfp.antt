-- ===== src/Sfp.antt =====
-- libcsp/src/csp_sfp.c: data cut into fragments that are sent one by one, and put together again. The
-- results of csp_buffer_get and csp_read are lists, NULL where a list is at its end. Words of
-- network order are read and written as bytes, so the conversion of the header in place is a value
-- here; the bytes that it changes stand behind the data of a packet that is freed next.
pub mod Header
pub mod Fragments
pub mod Sending
pub mod Receiving
pub mod RoundTrip
pub mod Safety
mod Tests
use damat_tutorial.Prelude.{
  ℕ, zero, suc, ◌+◌, ◌-◌, ◌%◌, ◌^◌, Bool, true, false, ◌||◌, ◌&&◌, Option, none, some, List, [],
  ◌∷◌, ◌++◌, if◌then◌else◌, ◌==◌, not, ltb, leb, length, take, drop, bit_and, bit_or,
}
use damat_tutorial.Prelude.Int.{ℤ, pos, negsuc}
use damat_tutorial.Packet.{PacketId, Packet, padding_bytes}
use damat_tutorial.Packet.Bytes.{write_bytes, read_bytes, be_bytes, be_value}

-- sfp_header_t
pub record SfpHeader : Type 0 where
  pub offset : ℕ
  pub totalsize : ℕ

-- csp_sfp_header_add gives a pointer into the buffer, an index here.
unfoldable pub header_add : Packet → ℕ × Packet
header_add p = (padding_bytes + p.len, record p { len = (p.len + 8) % 2 ^ 16 })

abbrev pub set_header : SfpHeader → ℕ × Packet → Packet
set_header h (at, p) = record p {
  buf = write_bytes (write_bytes p.buf (at + 4) (be_bytes 4 h.totalsize)) at (be_bytes 4 h.offset);
}

-- The header that stands at an index of a buffer
abbrev pub header_at : List ℕ → ℕ → SfpHeader
header_at buf at = record {
  offset = be_value (read_bytes buf at 4);
  totalsize = be_value (read_bytes buf (at + 4) 4);
}

abbrev pub in_bounds : SfpHeader → Packet → Option (SfpHeader × Packet)
in_bounds h p = if ltb h.totalsize h.offset then none else some (h, p)

unfoldable pub header_remove : Packet → Option (SfpHeader × Packet)
header_remove p =
    if bit_and p.id.flags 0x10 == 0
    then none
    else (if ltb p.len 8
        then none
        else in_bounds (header_at p.buf (padding_bytes + (p.len - 8)))
            (record p { len = p.len - 8 }))

-- conn->idout, the results of csp_buffer_get, and the packets given to csp_send, with the identifier
-- that it puts into them
pub record Sender : Type 0 where
  pub idout : PacketId
  pub supply : List (Option Packet)
  pub sent : List Packet

-- csp_buffer_get
abbrev pub first_of : List (Option Packet) → Option Packet × List (Option Packet)
first_of [] = (none, [])
first_of (o ∷ later) = (o, later)

abbrev pub buffer_get : ℕ → ℕ → List (Option Packet) → Option Packet × List (Option Packet)
buffer_get data_size size supply = if ltb data_size size then (none, supply) else first_of supply

-- One packet, with `size` bytes from `count` on, copied by memcpy
unfoldable pub fragment : PacketId → List ℕ → ℕ → ℕ → ℕ → Packet → Packet
unfolding header_add
fragment idout bytes totalsize count size p =
    let filled = record p {
      len = size % 2 ^ 16;
      buf = write_bytes p.buf padding_bytes (take size (drop count bytes));
    } in
    record (set_header (record { offset = count; totalsize = totalsize }) (header_add filled)) {
      id = idout;
    }

abbrev pub next_size : ℕ → ℕ → ℕ → ℕ
next_size totalsize mtu count = if ltb mtu (totalsize - count) then mtu else totalsize - count

-- The body of the loop, and `rest` for the iterations that follow
abbrev pub send_one :
    (Sender → ℤ × Sender)
    → (PacketId → Packet → Packet)
    → Option Packet × List (Option Packet)
    → Sender
    → ℤ × Sender
send_one rest cut (none, later) s = (negsuc 0, record s { supply = later })
send_one rest cut (some p, later) s =
    let idout = record (s.idout) { flags = bit_or s.idout.flags 0x10 } in
    rest (record { idout = idout; supply = later; sent = s.sent ++ cut idout p ∷ [] })

-- The loop; `fuel` bounds the iterations.
unfoldable pub send_loop : ℕ → List ℕ → ℕ → ℕ → ℕ → ℕ → Sender → ℤ × Sender
unfolding fragment
send_loop data_size bytes totalsize mtu zero count s = (pos 0, s)
send_loop data_size bytes totalsize mtu (suc fuel) count s =
    let size = next_size totalsize mtu count in
    if ltb count totalsize
    then send_one (λ s'. send_loop data_size bytes totalsize mtu fuel ((count + size) % 2 ^ 32) s')
        (λ idout p. fragment idout bytes totalsize count size p)
        (buffer_get data_size (mtu + 8) s.supply) s
    else (pos 0, s)

-- csp_sfp_send
unfoldable pub sfp_send : ℕ → List ℕ → ℕ → ℕ → Sender → ℤ × Sender
unfolding send_loop
sfp_send data_size bytes totalsize mtu s =
    if mtu == 0 then (negsuc 1, s) else send_loop data_size bytes totalsize mtu (suc totalsize) 0 s

-- A packet that csp_read gives, and the number of its buffer
pub record Received : Type 0 where
  pub buffer : ℕ
  pub packet : Packet

-- The variables of csp_sfp_recv_fp, and the buffers that it has freed
pub record Progress : Type 0 where
  pub memory : Option (List ℕ)
  pub datasize : ℕ
  pub data_offset : ℕ
  pub freed : List ℕ

-- How an iteration ends: with an error, with all data, with the wish for a packet, or with an access
-- behind the memory or the packet
pub data Turn : Type 0 where
  failed : ℤ → Progress → Turn
  complete wanting : Progress → Turn
  overrun : Turn

abbrev pub free_it : ℕ → Progress → Progress
free_it i s = record s { freed = s.freed ++ i ∷ [] }

-- malloc, for the first fragment
abbrev pub got_memory : ℕ → Option (List ℕ) → Progress → Option Progress
got_memory total none s = none
got_memory total (some m) s = some (record s { memory = some m; datasize = total })

abbrev pub with_memory : (ℕ → Option (List ℕ)) → ℕ → Option (List ℕ) → Progress → Option Progress
with_memory malloc total none s = got_memory total (malloc total) s
with_memory malloc total (some m) s = some s

-- memcpy of the data of a packet, inside both
abbrev pub copy_out : Packet → ℕ → Option (List ℕ) → Option (List ℕ)
copy_out p offset none = none
copy_out p offset (some m) =
    if leb (offset + p.len) (length m) && leb (padding_bytes + p.len) (length p.buf)
    then some (write_bytes m offset (read_bytes p.buf padding_bytes p.len))
    else none

abbrev pub copied : ℕ → Packet → Option (List ℕ) → Progress → Turn
copied i p none s = overrun
copied i p (some m) s =
    let s' = record s { memory = some m; data_offset = (s.data_offset + p.len) % 2 ^ 32 } in
    if leb s.datasize s'.data_offset
    then complete (free_it i s')
    else (if p.len == 0 then failed (negsuc 102) (free_it i s') else wanting (free_it i s'))

abbrev pub on_memory : ℕ → SfpHeader → Packet → Option Progress → Progress → Turn
on_memory i h p none s0 = failed (negsuc 0) (free_it i s0)
on_memory i h p (some s) s0 =
    if ltb s.datasize ((s.data_offset + p.len) % 2 ^ 32) || not (s.datasize == h.totalsize)
    then failed (negsuc 102) (free_it i s)
    else copied i p (copy_out p s.data_offset s.memory) s

abbrev pub on_header : (ℕ → Option (List ℕ)) → ℕ → Option (SfpHeader × Packet) → Progress → Turn
on_header malloc i none s = failed (negsuc 102) (free_it i s)
on_header malloc i (some (h, p)) s =
    if h.offset == s.data_offset
    then on_memory i h p (with_memory malloc h.totalsize s.memory s) s
    else failed (negsuc 102) (free_it i s)

-- What the caller gets, with the size as the pattern of an int, the buffers that were freed, and the packets that csp_read has left
pub record Result : Type 0 where
  pub code : ℤ
  pub return_data : Option (List ℕ)
  pub return_datasize : ℕ
  pub freed : List ℕ
  pub left : List Received

abbrev pub continue_recv : List Received → (Progress → Option Result) → Turn → Option Result
continue_recv later rest (failed e s) =
    some
      (record { code = e; return_data = none; return_datasize = 0; freed = s.freed; left = later })
continue_recv later rest (complete s) = some (record {
  code = pos 0;
  return_data = s.memory;
  return_datasize = s.datasize;
  freed = s.freed;
  left = later;
})
continue_recv later rest (wanting s) = rest s
continue_recv later rest overrun = none

unfoldable pub recv_loop : (ℕ → Option (List ℕ)) → List Received → Progress → Option Result
recv_loop malloc [] s = some (record {
  code = negsuc 2;
  return_data = none;
  return_datasize = 0;
  freed = s.freed;
  left = [];
})
recv_loop malloc (x ∷ later) s =
    continue_recv later (λ s'. recv_loop malloc later s')
      (on_header malloc x.buffer (header_remove x.packet) s)

abbrev pub with_first : Option Received → List Received → List Received
with_first none reads = reads
with_first (some x) reads = x ∷ reads

abbrev pub at_start : Progress
at_start = record { memory = none; datasize = 0; data_offset = 0; freed = [] }

-- csp_sfp_recv_fp
unfoldable pub recv_fp : (ℕ → Option (List ℕ)) → Option Received → List Received → Option Result
unfolding recv_loop
recv_fp malloc first reads = recv_loop malloc (with_first first reads) at_start
