-- ===== src/Chunk/Encoder.antt =====
-- The chunk encoder (`ChunkEncoder`, protocol/chunk.rs).
use mathlib.Core.Option
use rtmp_rs.Prelude.{
  ℕ, zero, suc, ◌+◌, ◌-◌, ◌*◌, ◌/◌, min, Bool, true, false, ◌&&◌, ◌||◌, not, Option, none, some, [],
  ◌∷◌, ◌++◌, if◌then◌else◌, leb, ◌==◌, length, take, drop,
}
use rtmp_rs.Prelude.Map.{insert, nat_eq}
use rtmp_rs.Bytes.{Bytes, u8, u32, put_u24, put_u32, put_u32_le}
use rtmp_rs.Constants.{default_chunk_size, max_chunk_size, extended_timestamp_threshold}
use rtmp_rs.Chunk.State.{RtmpChunk, ChunkStreamState, Streams, entry}

pub record ChunkEncoder : Type 0 where
  pub chunk_size : ℕ  -- u32
  pub streams : Streams

unfoldable pub new : ChunkEncoder
new = record { chunk_size = default_chunk_size; streams = [] }

unfoldable pub set_chunk_size : ChunkEncoder → ℕ → ChunkEncoder
set_chunk_size e size = record e { chunk_size = min size max_chunk_size }

unfoldable pub reset : ChunkEncoder → ChunkEncoder
reset e = record e { streams = [] }

-- `wrapping_sub` on u32.
abbrev pub wrapping_sub : ℕ → ℕ → ℕ
wrapping_sub a b = u32 (a + 4294967296 - b)

-- The header format for the next message, by what the stream sent last.
unfoldable pub select_format : RtmpChunk → ChunkStreamState → ℕ
select_format c s =
    if s.message_type == 0 && s.stream_id == 0
    then 0
    else if not (c.stream_id == s.stream_id)
    then 0
    else if not (c.message_type == s.message_type)
        || not (u32 (length c.payload) == s.message_length)
    then 1
    else if wrapping_sub c.timestamp s.timestamp == s.timestamp_delta
    then 3
    else 2

-- `fmt << 6` on u8 with the low six bits or-ed in, which it leaves free.
unfoldable pub write_basic_header : ℕ → ℕ → Bytes
write_basic_header csid fmt =
    if leb (64 + 256) csid
    then (u8 (fmt * 64) + 1) ∷ u8 (csid - 64) ∷ u8 ((csid - 64) / 256) ∷ []
    else if leb 64 csid
    then u8 (fmt * 64) ∷ u8 (csid - 64) ∷ []
    else (u8 (fmt * 64) + u8 csid) ∷ []

-- What `encode` computes before its loop.
pub record Plan : Type 0 where
  pub fmt : ℕ
  pub needs_extended : Bool
  pub had_extended_timestamp : Bool
  pub timestamp_field : ℕ
  pub delta_field : ℕ

unfoldable pub plan : RtmpChunk → ChunkStreamState → Plan
unfolding select_format
plan c s =
    let needs = leb extended_timestamp_threshold c.timestamp in
    record {
      fmt = select_format c s;
      needs_extended = needs;
      had_extended_timestamp = s.has_extended_timestamp;
      timestamp_field = if needs then extended_timestamp_threshold else c.timestamp;
      delta_field =
          if needs then extended_timestamp_threshold else wrapping_sub c.timestamp s.timestamp;
    }

-- The stream's state after the message.
unfoldable pub sent_state : RtmpChunk → ChunkStreamState → ChunkStreamState
sent_state c s = record s {
  timestamp = c.timestamp;
  timestamp_delta = wrapping_sub c.timestamp s.timestamp;
  message_length = u32 (length c.payload);
  message_type = c.message_type;
  stream_id = c.stream_id;
  has_extended_timestamp = leb extended_timestamp_threshold c.timestamp;
}

unfoldable pub write_message_header : RtmpChunk → Plan → Bytes
write_message_header c p =
    if p.fmt == 0
    then put_u24 p.timestamp_field
      ++ (put_u24 (u32 (length c.payload)) ++ (c.message_type ∷ put_u32_le c.stream_id))
    else if p.fmt == 1
    then put_u24 p.delta_field ++ (put_u24 (u32 (length c.payload)) ++ (c.message_type ∷ []))
    else if p.fmt == 2
    then put_u24 p.delta_field
    else []

unfoldable pub write_extended : RtmpChunk → Plan → Bool → Bytes
write_extended c p first_chunk =
    if p.needs_extended && (first_chunk || p.had_extended_timestamp)
    then put_u32 c.timestamp
    else []

-- All that stands before the data of one chunk.
unfoldable pub write_header : RtmpChunk → Plan → Bool → Bytes
write_header c p first_chunk =
    write_basic_header c.csid (if first_chunk then p.fmt else 3)
    ++ ((if first_chunk then write_message_header c p else []) ++ write_extended c p first_chunk)

-- The `while` loop over the payload that is left. It returns the bytes that it appends, and `none`
-- where the fuel does not suffice.
unfoldable pub write_chunks : ℕ → ℕ → RtmpChunk → Plan → Bool → Bytes → Option Bytes
write_chunks fuel chunk_size c p first_chunk [] = some []
write_chunks zero chunk_size c p first_chunk (x ∷ xs) = none
write_chunks (suc fuel) chunk_size c p first_chunk (x ∷ xs) =
    let n = min (length (x ∷ xs)) chunk_size in
    Option.map (λ more. write_header c p first_chunk ++ (take n (x ∷ xs) ++ more))
      (write_chunks fuel chunk_size c p false (drop n (x ∷ xs)))

-- `encode` on a loop of at most `fuel` rounds: the new encoder and the bytes appended to the buffer.
unfoldable pub encode_within : ℕ → ChunkEncoder → RtmpChunk → Option (ChunkEncoder × Bytes)
encode_within fuel e c =
    let s = entry e.streams c.csid in
    Option.map (λ bytes. (record e { streams = insert e.streams c.csid (sent_state c s) }, bytes))
      (write_chunks fuel e.chunk_size c (plan c s) true c.payload)

-- Each round takes a byte at least where the chunk size is positive.
unfoldable pub encode : ChunkEncoder → RtmpChunk → Option (ChunkEncoder × Bytes)
encode e c = encode_within (length c.payload) e c
