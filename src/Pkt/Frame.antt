-- ===== src/Pkt/Frame.antt =====
-- The frames of ngtcp2_pkt.c. An array or pointer with its length (`blks` with `num_blks`, `data`
-- with `datalen`, `reason` with `reasonlen`) is one list.
pub mod Decode
pub mod DecodeStream
pub mod DecodeAck
pub mod Grammar
pub mod Image
pub mod Parts
pub mod PartsVariable
pub mod Codec
pub mod RoundTrip
pub mod Dispatch
pub mod WireAck
pub mod Encode
pub mod Wire
pub mod AckParse
pub mod AckBlocks
pub mod Variable
pub mod Fixed
use polygon.Base.{ℕ, Bool, List}

pub record Stream : Type 0 where
  pub flags : ℕ
  pub fin : Bool
  pub stream_id : ℕ
  pub offset : ℕ
  pub content : List ℕ

-- `ngtcp2_ack_blk`: the gap and the length of the block.
pub record AckBlk : Type 0 where
  pub gap : ℕ
  pub blklen : ℕ

pub record Ack : Type 0 where
  pub largest_ack : ℕ
  pub ack_delay : ℕ
  pub first_ack_blklen : ℕ
  pub blks : List AckBlk

-- `ngtcp2_frame`, the union with its type tag.
pub data Frame : Type 0 where
  stream : Stream → Frame
  ack : Ack → Frame
  -- the number of bytes
  padding : ℕ → Frame
  -- stream id, application error code, final offset
  rst_stream : ℕ → ℕ → ℕ → Frame
  -- error code, reason
  connection_close : ℕ → List ℕ → Frame
  application_close : ℕ → List ℕ → Frame
  max_data : ℕ → Frame
  -- stream id, limit
  max_stream_data : ℕ → ℕ → Frame
  max_stream_id : ℕ → Frame
  ping : List ℕ → Frame
  blocked : ℕ → Frame
  -- stream id, offset
  stream_blocked : ℕ → ℕ → Frame
  stream_id_blocked : ℕ → Frame
  -- sequence number, connection id, stateless reset token
  new_connection_id : ℕ → ℕ → List ℕ → Frame
  -- stream id, application error code
  stop_sending : ℕ → ℕ → Frame
  pong : List ℕ → Frame
