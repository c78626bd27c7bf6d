-- ===== src/Lib.antt =====
-- The QUIC transport library of Polygon, Polygon/lib, in a model that follows its C code.
--
-- Parts and files:
-- - Base: the shared helpers. Base/Outcome is what a C function gives: a value, an error code of
--   ngtcp2.h, or a fault (a read or a pointer out of bounds, a failed assertion), so that a theorem
--   that names an ok or err result also says that no fault happens. size_t and uint64_t arithmetic is
--   add64 and sub64, with the wrap-around written out.
-- - Conv: ngtcp2_conv.c and ngtcp2_cpymem. A pointer into a buffer is the list of the bytes from it to
--   the end; advance moves it, deref reads it. A writer gives the bytes that it writes. An integer on which
--   ntohl, htonl or bswap64 works is the list of its bytes in memory, so that the copies at an offset are there. Conv/Reader is a
--   one-pass reading of the same format, which the frame decoders are compared with.
-- - Pkt/Frame: the frames of ngtcp2_pkt.c. Decode, DecodeStream and DecodeAck follow the decoders, which
--   first walk over the input to see that every field is there and then read it again; Encode follows
--   the encoders; Dispatch is ngtcp2_pkt_decode_frame. Decoders of one shape (MAX_DATA, MAX_STREAM_ID,
--   BLOCKED, STREAM_ID_BLOCKED and so on) are instances of one definition, as their code is the same but
--   for the names of the fields. Grammar states the wire format, Image the bytes of each frame.
-- - Pkt/Header: the long and short packet headers. Pkt/Number, Pkt/Validate, Pkt/Negotiation and
--   Pkt/Reset: ngtcp2_pkt_adjust_pkt_num, ngtcp2_pkt_validate_ack, and the Version Negotiation and
--   stateless reset packets, with conn_on_version_negotiation of ngtcp2_conn.c.
-- - Range, Gaptr, Idtr: ngtcp2_range.c, and the two trackers on top of it, ngtcp2_gaptr.c (which data
--   has come in) and ngtcp2_idtr.c (which stream identifiers are in use). Their state is the list of
--   gaps. A call that may allocate takes whether ngtcp2_mem_malloc gives memory: one push or open
--   allocates at most once. An error is given together with the state that it leaves.
-- - Ringbuf: ngtcp2_ringbuf.c. The memory is a function from the index of a slot to its element; a
--   pointer to a slot is its index, and what the caller writes there is store. room is the number of bytes
--   that were allocated, which the product of the two sizes gives in size_t. Run is a buffer from its making on.
-- - Acktr: the list of packets to acknowledge of ngtcp2_acktr.c. A pointer to an entry is its position. Ack
--   is the walk of acktr_on_ack over that list for an ACK frame that this side sent and the peer received.
--
-- - Pq: ngtcp2_pq.c. The array is a function from slots to pointers and the index fields of the entries a function from
--   pointers; an access outside the capacity is a fault. Up and Down are the two ways to sift, Order the order of the heap.
-- - Map: ngtcp2_map.c. The table is a function from slots to chains, a chain being the list that the next pointers make.
--   Chain is about one chain, Table about insert and the hash, Resize about the larger table, Finite about the map as a
--   whole. The theorems ask that the table be shorter than 2 ^ 31 before it may double, since its length has 32 bits.
-- - Rob: ngtcp2_rob.c, which keeps the data of a stream that is not yet next. The state is the list of gaps and the list
--   of blocks, a block being its offset and a function from positions to bytes; where there is memory, and what it holds
--   at first, is a parameter (Memory). Blocks, Fill and Write are about the blocks, Places and Push about the gaps,
--   Deliver, Front and First about what is handed out.
-- - Strm: ngtcp2_strm.c, one stream with its offsets, windows, flags and its reorder buffer.
-- - Conn: the streams of ngtcp2_conn.c. The state has the fields that these functions use; an action (Act) changes the
--   state also where it fails, as the code does. Env is what the allocator and the application answer, events the calls of
--   the application so far, whose functions do not call back into the connection meanwhile. The map of the streams is a function from identifiers: Map says that the table behaves like
--   one. Close closes streams, Receive is conn_recv_stream, Control the handlers of the frames without
--   stream data, Local what the application asks for: streams opened and shut down, and windows extended. A change of a
--   stream through its pointer is put_strm. Emit, Deliver, Reassembly and InOrder follow a stream from frame to
--   application; Keeps, Limits, Handing, Window and Flow are about the limits, Twice,
--   Complete and Closing about streams that end.
--
-- The connection hands packets to the header and frame decoders, hands each frame to its handler, validates ACK frames
-- before it acts on them, recovers full packet numbers with ngtcp2_pkt_adjust_pkt_num, and keeps for each stream a reorder
-- buffer of the data that came in and a gap tracker of the data that was acknowledged, and an identifier tracker for each
-- kind of remote stream.
--
-- Bounds: objects are smaller than 2 ^ 63 bytes (IsObject), bytes are below 256, and a value on the wire is below 2 ^ 62
-- (IsVarint). Most loops are structural recursions over the list or the count that they walk. Those of bubble_up,
-- bubble_down, rob_write_data and the two conn_emit_pending functions run on fuel: one more than the slot, than the
-- length, than blocks and bytes together, and than the bytes up to the first gap. Running out is a fault, so that the
-- theorems about them, which give an ok result, say that the fuel is enough.
--
-- Not modelled: the rest of the connection (ngtcp2_conn.c): the loop over the frames of a packet, the state machine and
-- its timers, acknowledgements and what is sent; the retransmission buffer, the ACK frames sent that ngtcp2_acktr.c keeps,
-- transport parameters and packet protection. Freeing of memory has
-- no counterpart, since lists are values. The example programs and the copies of other projects stand outside the
-- library.
pub mod Acktr
pub mod Base
pub mod Conn
pub mod Conv
pub mod Gaptr
pub mod Idtr
pub mod Map
pub mod Pkt
pub mod Pq
pub mod Range
pub mod Ringbuf
pub mod Rob
pub mod Strm
