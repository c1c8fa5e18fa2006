-- ===== src/Lib.antt =====
-- Formal model of the DAMAt tutorial: libCSP, a stack of the Cubesat Space Protocol in C, with the
-- data mutator that DAMAt generates and the probes that call it.
--
-- The parts and how they interact. A packet (libcsp/include/csp/csp_types.h) carries an identifier
-- of priority, addresses, ports and flags, and lives in a buffer of the pool that
-- libcsp/src/csp_buffer.c keeps. libcsp/src/csp_id.c writes the identifier in front of the data, as
-- a header of version 1 or 2, when an interface sends the packet, and reads it back on the other
-- side; libcsp/src/csp_crc32.c adds a checksum behind the data and verifies it. The interface of
-- libcsp/src/interfaces/csp_if_kiss.c does both around the escaped frames of a serial line.
-- libcsp/src/csp_rtable_cidr.c finds the route, an interface and a next hop, that an address is
-- sent by. An incoming packet goes to the callback or the socket that libcsp/src/csp_port.c has for
-- its port, or to the connection of libcsp/src/csp_conn.c that it belongs to. Packets and
-- connections wait in the queues of libcsp/src/arch/posix/pthread_queue.c. On the way out,
-- csp_send_direct of libcsp/src/csp_io.c gives a packet to the interfaces of
-- libcsp/src/csp_iflist.c in whose subnet the address lies, or to that of a route. On the way in,
-- csp_route_work of libcsp/src/csp_route.c takes a packet from the router's queue of
-- libcsp/src/csp_qfifo.c and ties these parts together. libcsp/src/csp_sfp.c sends data of any size
-- as fragments on a connection, and libcsp/src/csp_bridge.c takes the router's place between two
-- interfaces. Where csp_read and csp_send of libcsp/src/csp_io.c hold an identifier, a probe copies
-- its fields into an array of seven ints, hands it to libcsp/src/FAQAS_dataDrivenMutator.h, and
-- copies it back: the mutation that the build chose by its number changes one of them.
--
-- Files:
-- - Prelude: the library's names passed on, tests on native numbers, lists (Lists, Segments), integers
--   (Int), and the bitwise operations (Bits, Xor).
-- - Mutator: the types and globals of FAQAS_dataDrivenMutator.h. Words: FAQAS_pow_substitute,
--   _FAQAS_slice_it_up, and the loops that load and store an item. Models: _FAQAS_Read_FM,
--   _FAQAS_Send_FM and the tables _FAQAS_selectItem, _FAQAS_selectOperator, _FAQAS_selectOperation.
--   Operators: the blocks of _FAQAS_mutate for INV, VOR, FVOR, VAT, FVAT, VBT, FVBT, IV, SS and ASA.
--   Flip: the block BF. Mutate: HV, the guards and the whole of _FAQAS_mutate, mutate_FM_Read and
--   mutate_FM_Send. The proofs are in Contract (the draws of INV and FVOR), FlipBit, Tables (the models
--   against the rows of damat-config's fault-model file), Inactive and Frame, by way of Counted.
-- - Packet: csp_id_t and csp_packet_t; Bytes: the bytes of a buffer as numbers in network order.
-- - Id: csp_id.c, one function per function of the source. Header: the header words as sums of
--   fields; RoundTrip; Limits.
-- - Rtable: csp_rtable_cidr.c. Prefix: the test of the netmask; Find: csp_rtable_find_route; Set:
--   csp_rtable_set and csp_rtable_clear.
-- - Queue: pthread_queue.c. Ring: the slots as a list; Fifo: single operations; Run: sequences.
-- - Port: csp_port.c; Bind: the two functions that bind a port, against the two that look one up.
-- - Io: the probes of csp_read and csp_send in csp_io.c; Probe: which field they change.
-- - Crc: csp_crc32.c, its table in Table. Bitwise: the checksum bit by bit; Register, Burst: errors in
--   the data; Verify, RoundTrip: csp_crc32_append against csp_crc32_verify.
-- - Buffer: csp_buffer.c. Owners: who holds a buffer; Calls, Init, Clients, Size, Reach: single calls
--   and sequences of them.
-- - Kiss: csp_if_kiss.c. Escape, Frame, Sent, RoundTrip, Stream: packets over a line; Sound, Safety:
--   any bytes.
-- - Conn: csp_conn.c, csp_connect in Connect. Demux: which connection a packet belongs to; Flush,
--   Allocate, Given, Client, Keep: single calls; Reach: sequences.
-- - Iflist: csp_iflist.c. Chain: the linked list as a list of numbers; Search; Add.
-- - Send: csp_send_direct and csp_send_direct_iface of csp_io.c. Owners: who has the buffer of a packet
--   that is sent; Copies: a copy for one interface; Local, Corner: the loop over the interfaces;
--   Direct: the whole function.
-- - Route: csp_route.c, a packet to this node. Work: csp_route_work with csp_qfifo.c; Security: the
--   checksum from the sender to the receiver; Deliver: a packet for a client; Forward: one for another
--   node.
-- - Sfp: csp_sfp.c. Header: the header of a fragment; Fragments: what the two sides agree on; Sending,
--   Receiving, RoundTrip: data sent and put together again; Safety: any packets.
-- - RdpQueue: csp_rdp_queue.c. Take: which packet csp_rdp_queue_tx_get and csp_rdp_queue_rx_get give;
--   Flush: csp_rdp_queue_flush.
-- - Bridge: csp_bridge.c, over the state of Route; Pass: where a packet goes.
-- - Dedup: csp_dedup.c. Window: a packet that comes again; Cases: what a single call does.
-- Each part has its runs on concrete values in its Tests.
--
-- State is passed explicitly: the globals of the mutator, the table and its count, the queue, the
-- pools of buffers and connections and the state of a receiver are records. A buffer, a socket or a
-- connection is known by a number where C has a pointer. The version of the protocol
-- (csp_conf.version), the sizes that the build chooses, the time and the values of rand() are
-- arguments; the nexthop functions of the interfaces are a parameter that tells which packet is
-- taken, and a packet that was taken is a value of the state. The packet that a KISS receiver holds
-- is a value, with the results of csp_buffer_get and the packets given to csp_qfifo_write as lists;
-- so are those of csp_sfp.c, with malloc as a parameter. A machine word is a native number with its
-- wrap-around written out; an int of 32 bits is read from and written to its pattern. Where C leaves
-- int arithmetic, the conversion of a double to an int, or a shift by a negative count undefined, the
-- mutator and the routing table do what x86 does. A fault, such as a write behind an array or a
-- division by 0, is the `none` of an Option.
--
-- Bounds and fuel. The loops of the source count up to a bound that is a value of the program, and
-- are recursions on the iterations that are left: 1000 tries of a random draw, ten tries for each
-- bit to flip, the slots of a table, the ints of an item, the connections of the pool. None of them
-- can run out of fuel early, since the fuel is the source's own bound. The loop that empties the
-- queue of a connection runs until a dequeue fails, and has fuel for one call more than values
-- wait, as have those of csp_rdp_queue_flush; those along the list of interfaces have fuel for one
-- step more than there are interfaces, and that of csp_sfp_send for one more than bytes are sent,
-- since each iteration sends one at least. The random draws are taken as rand() gives them, and a
-- theorem about them holds for every sequence.
--
-- Not modelled: items of type DOUBLE, FLOAT and LONG in the mutator, which no fault model has, and
-- its builds for a single mutation or with a probability; waiting and timeouts of a queue, whose
-- operations stand at the state in which the wait ended; allocation failures of a queue; csp_rdp.c,
-- and with it the builds of csp_conn.c and csp_route.c that use it; HMAC and promiscuous mode;
-- csp_kiss_add_interface; and the other parts of libcsp: the other interfaces, the services, the
-- crypto routines, the drivers, and the Python bindings.
pub mod Prelude
pub mod Mutator
pub mod Packet
pub mod Id
pub mod Rtable
pub mod Queue
pub mod Io
pub mod Port
pub mod Crc
pub mod Buffer
pub mod Kiss
pub mod Conn
pub mod Dedup
pub mod Iflist
pub mod Send
pub mod Sfp
pub mod RdpQueue
pub mod Route
pub mod Bridge
