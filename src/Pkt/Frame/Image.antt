-- ===== src/Pkt/Frame/Image.antt =====
-- The wire image of each frame, and the values that fit on the wire.
use polygon.Base.{ℕ, ◌≤◌, List, [], ◌∷◌, ◌++◌, ◌≡◌, length, replicate, All, IsByte, IsU16, IsU64}
use polygon.Conv.{put_uint16be, put_uint64be}
use polygon.Conv.Varint.{IsVarint, varint}
use polygon.Pkt.Frame.{Frame}
use polygon.Pkt.Frame.Encode.{stream_flags}
use polygon.Pkt.Frame.Wire.{stream_wire, IsStream}
use polygon.Pkt.Frame.WireAck.{ack_wire, IsAck}

-- The bytes of a frame.
unfoldable pub wire : Frame → List ℕ
wire (Frame.stream s) = stream_wire s
wire (Frame.ack a) = ack_wire a
wire (Frame.padding n) = replicate n 0
wire (Frame.rst_stream i c o) = 0x01 ∷ (varint i ++ (put_uint16be c ++ varint o))
wire (Frame.connection_close c r) = 0x02 ∷ (put_uint16be c ++ (varint (length r) ++ r))
wire (Frame.application_close c r) = 0x03 ∷ (put_uint16be c ++ (varint (length r) ++ r))
wire (Frame.max_data v) = 0x04 ∷ varint v
wire (Frame.max_stream_data i v) = 0x05 ∷ (varint i ++ varint v)
wire (Frame.max_stream_id v) = 0x06 ∷ varint v
wire (Frame.ping d) = 0x07 ∷ length d ∷ d
wire (Frame.blocked v) = 0x08 ∷ varint v
wire (Frame.stream_blocked i v) = 0x09 ∷ (varint i ++ varint v)
wire (Frame.stream_id_blocked v) = 0x0a ∷ varint v
wire (Frame.new_connection_id s c t) = 0x0b ∷ (varint s ++ (put_uint64be c ++ t))
wire (Frame.stop_sending i c) = 0x0c ∷ (varint i ++ put_uint16be c)
wire (Frame.pong d) = 0x0d ∷ length d ∷ d

-- The frame as the encoder leaves it: only the flags of a STREAM frame change.
unfoldable pub sent : Frame → Frame
sent (Frame.stream s) = Frame.stream (record s { flags = stream_flags s.fin s.offset })
sent (Frame.ack a) = Frame.ack a
sent fr = fr

-- The values that fit the fields of a frame on the wire.
abbrev pub IsFrame : Frame → Type 0
IsFrame (Frame.stream s) = IsStream s
IsFrame (Frame.ack a) = IsAck a
IsFrame (Frame.padding n) = 1 ≤ n
IsFrame (Frame.rst_stream i c o) = IsVarint i × IsU16 c × IsVarint o
IsFrame (Frame.connection_close c r) = IsU16 c × IsVarint (length r) × All IsByte r
IsFrame (Frame.application_close c r) = IsU16 c × IsVarint (length r) × All IsByte r
IsFrame (Frame.max_data v) = IsVarint v
IsFrame (Frame.max_stream_data i v) = IsVarint i × IsVarint v
IsFrame (Frame.max_stream_id v) = IsVarint v
IsFrame (Frame.ping d) = IsByte (length d) × All IsByte d
IsFrame (Frame.blocked v) = IsVarint v
IsFrame (Frame.stream_blocked i v) = IsVarint i × IsVarint v
IsFrame (Frame.stream_id_blocked v) = IsVarint v
IsFrame (Frame.new_connection_id s c t) = IsU16 s × IsU64 c × (length t ≡ 16) × All IsByte t
IsFrame (Frame.stop_sending i c) = IsVarint i × IsU16 c
IsFrame (Frame.pong d) = IsByte (length d) × All IsByte d

-- What may follow a frame: a run of padding ends at the first other byte.
abbrev pub Follows : Frame → List ℕ → Type 0
Follows (Frame.padding n) [] = Unit
Follows (Frame.padding n) (b ∷ p) = 1 ≤ b
Follows fr p = Unit
