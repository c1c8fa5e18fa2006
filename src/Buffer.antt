-- ===== src/Buffer.antt =====
-- libcsp/src/csp_buffer.c: the pool of packet buffers, each behind a header with a reference count,
-- and the queue of the free ones. A buffer is known by its number in the pool. `data_size` is
-- CSP_BUFFER_SIZE. The memory outside the pool holds no header that points to itself.
pub mod Owners
pub mod Calls
pub mod Init
pub mod Clients
pub mod Size
pub mod Reach
mod Tests
use damat_tutorial.Prelude.{
  ℕ, zero, suc, ◌+◌, ◌-◌, ◌%◌, ◌^◌, Option, none, some, List, [], if◌then◌else◌, ltb, ◌==◌, length,
  get_or, set,
}
use damat_tutorial.Packet.{Packet}
use damat_tutorial.Queue.{Queue, Status, ok, error, create, enqueue, dequeue, items}

-- csp_skbf_t: the count, `skbf_addr`, and the packet in `skbf_data`
pub record Slot : Type 0 where
  pub refcount : ℕ
  pub addr : ℕ
  pub packet : Packet

-- csp_buffer_pool and csp_buffers, with csp_dbg_buffer_out, a uint8_t, and csp_dbg_errno
pub record Pool : Type 0 where
  pub slots : List Slot
  pub free : Queue ℕ
  pub buffer_out : ℕ
  pub dbg_errno : ℕ

abbrev pub blank_slot : Slot
blank_slot = record {
  refcount = 0;
  addr = 0;
  packet = record {
    id = record { pri = 0; flags = 0; src = 0; dst = 0; dport = 0; sport = 0 };
    len = 0;
    frame_begin = 0;
    frame_length = 0;
    buf = [];
  };
}

abbrev pub slot_at : Pool → ℕ → Slot
slot_at p i = get_or p.slots i blank_slot

-- CSP_DBG_ERR_CORRUPT_BUFFER and the other values of csp_dbg_errno
abbrev pub err_corrupt_buffer : ℕ
err_corrupt_buffer = 1

abbrev pub err_mtu_exceeded : ℕ
err_mtu_exceeded = 2

abbrev pub err_already_free : ℕ
err_already_free = 3

abbrev pub err_refcount : ℕ
err_refcount = 4

-- The loop of csp_buffer_init over the n buffers from number i on: each gets the address of itself,
-- and goes to the queue.
unfoldable pub init_loop : ℕ → ℕ → Pool → Pool
init_loop zero i p = p
init_loop (suc n) i p = init_loop n (i + 1) (record p {
  slots = set p.slots i (record (slot_at p i) { addr = i });
  free = (enqueue i p.free).1;
})

-- csp_buffer_init; `noinit` is what the memory of the pool holds before.
unfoldable pub init : List Slot → Pool
unfolding init_loop
init noinit =
    init_loop (length noinit) 0
      (record { slots = noinit; free = create 0 (length noinit); buffer_out = 0; dbg_errno = 0 })

-- What csp_buffer_get and csp_buffer_get_isr do once the size is found to fit; `none` is NULL.
unfoldable pub take_free : Status × Option ℕ × Queue ℕ → Pool → Option ℕ × Pool
take_free (status, none, q) p =
    (none, record p { free = q; buffer_out = (p.buffer_out + 1) % 2 ^ 8 })
take_free (status, some i, q) p =
    if (slot_at p i).addr == i
    then (
      some i,
      record p { slots = set p.slots i (record (slot_at p i) { refcount = 1 }); free = q },
    )
    else (none, record p { free = q; dbg_errno = err_corrupt_buffer })

unfoldable pub get : ℕ → ℕ → Pool → Option ℕ × Pool
unfolding take_free
get data_size size p =
    if ltb data_size size
    then (none, record p { dbg_errno = err_mtu_exceeded })
    else take_free (dequeue 0 p.free) p

unfoldable pub get_isr : ℕ → ℕ → Pool → Option ℕ × Pool
unfolding take_free
get_isr data_size size p = if ltb data_size size then (none, p) else take_free (dequeue 0 p.free) p

-- The argument of csp_buffer_free: NULL, a packet of the pool, or a pointer with another alignment.
pub data Pointer : Type 0 where
  null misaligned : Pointer
  to_slot : ℕ → Pointer

-- csp_buffer_free and csp_buffer_free_isr, which differ in the numbers that they store for a buffer
-- that is free, or that is shared.
unfoldable pub release : ℕ → ℕ → Pointer → Pool → Pool
release free_err shared_err null p = p
release free_err shared_err misaligned p = record p { dbg_errno = err_corrupt_buffer }
release free_err shared_err (to_slot i) p =
    let s = slot_at p i in
    let rest = set p.slots i (record s { refcount = s.refcount - 1 }) in
    if s.addr == i
    then (if s.refcount == 0
        then record p { dbg_errno = free_err }
        else (if ltb 0 (s.refcount - 1)
            then record p { slots = rest; dbg_errno = shared_err }
            else record p { slots = rest; free = (enqueue i p.free).1 }))
    else record p { dbg_errno = err_corrupt_buffer }

unfoldable pub free : Pointer → Pool → Pool
unfolding release
free ptr p = release err_already_free err_refcount ptr p

unfoldable pub free_isr : Pointer → Pool → Pool
unfolding release
free_isr ptr p = release err_corrupt_buffer err_corrupt_buffer ptr p

-- The memcpy of csp_buffer_clone: the whole packet.
unfoldable pub copy_packet : ℕ → Option ℕ × Pool → Option ℕ × Pool
copy_packet from (none, p) = (none, p)
copy_packet from (some i, p) = (
  some i,
  record p { slots = set p.slots i (record (slot_at p i) { packet = (slot_at p from).packet }) },
)

-- csp_buffer_clone. The frame_begin of the copy is an index of the copy here; in C it still points
-- into the first packet, until the copy gets a header of its own.
unfoldable pub clone : ℕ → Option ℕ → Pool → Option ℕ × Pool
unfolding copy_packet
clone data_size none p = (none, p)
clone data_size (some i) p = copy_packet i (get data_size (slot_at p i).packet.len p)

-- csp_buffer_remaining
unfoldable pub remaining : Pool → ℕ
remaining p = items p.free
