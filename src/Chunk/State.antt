-- ===== src/Chunk/State.antt =====
-- Messages and the state of one chunk stream (protocol/chunk.rs).
use rtmp_rs.Prelude.{ℕ, ◌≡◌, Bool, false, Option, none, some, [], arith, if◌then◌else◌, ◌==◌}
use rtmp_rs.Prelude.Map.{HashMap, get, insert, nat_eq, get-insert}
use rtmp_rs.Bytes.{Bytes}

-- A complete message.
pub record RtmpChunk : Type 0 where
  pub csid : ℕ  -- u32
  pub timestamp : ℕ  -- u32
  pub message_type : ℕ  -- u8
  pub stream_id : ℕ  -- u32
  pub payload : Bytes

pub record ChunkStreamState : Type 0 where
  pub timestamp : ℕ  -- u32
  pub timestamp_delta : ℕ  -- u32
  pub message_length : ℕ  -- u32
  pub message_type : ℕ  -- u8
  pub stream_id : ℕ  -- u32
  pub has_extended_timestamp : Bool
  pub partial_message : Bytes
  pub expected_length : ℕ  -- u32

abbrev pub default_state : ChunkStreamState
default_state = record {
  timestamp = 0;
  timestamp_delta = 0;
  message_length = 0;
  message_type = 0;
  stream_id = 0;
  has_extended_timestamp = false;
  partial_message = [];
  expected_length = 0;
}

abbrev pub Streams : Type 0
Streams = HashMap ℕ ChunkStreamState

abbrev pub or_default : Option ChunkStreamState → ChunkStreamState
or_default none = default_state
or_default (some s) = s

-- What `streams.entry(csid).or_default()` gives.
unfoldable pub entry : Streams → ℕ → ChunkStreamState
unfolding get
entry m csid = or_default (get m csid)

pub entry-insert :
    (m : Streams) (k : ℕ) (s : ChunkStreamState) (j : ℕ)
    → entry (insert m k s) j ≡ (if k == j then s else entry m j)
unfolding entry
entry-insert m k s j = ground (arith, get-insert m k s j)
