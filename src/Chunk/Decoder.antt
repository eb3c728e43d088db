-- ===== src/Chunk/Decoder.antt =====
-- The chunk decoder (`ChunkDecoder`, protocol/chunk.rs).
use rtmp_rs.Prelude.{
  ℕ, ◌+◌, min, Bool, true, false, ◌&&◌, ◌||◌, not, Option, none, some, [], ◌++◌, if◌then◌else◌, ltb,
  leb, ◌==◌, length, take, drop, is_empty, Result, ok, err, panic, or_panic, ◌>>=◌,
}
use rtmp_rs.Prelude.Map.{insert, get, nat_eq}
use rtmp_rs.Bytes.{Bytes, u32, get_u8, get_u24, get_u32, get_u32_le}
use rtmp_rs.Constants.{
  default_chunk_size, max_chunk_size, max_message_size as message_size_limit,
  extended_timestamp_threshold,
}
use rtmp_rs.Error.{ProtocolError, message_too_large}
use rtmp_rs.Chunk.State.{RtmpChunk, ChunkStreamState, Streams, entry}
use rtmp_rs.Chunk.Peek.{parse_basic_header, whole_chunk}

pub record ChunkDecoder : Type 0 where
  pub chunk_size : ℕ  -- u32
  pub streams : Streams
  pub max_message_size : ℕ  -- u32

unfoldable pub new : ChunkDecoder
new = record {
  chunk_size = default_chunk_size;
  streams = [];
  max_message_size = message_size_limit;
}

unfoldable pub set_chunk_size : ChunkDecoder → ℕ → ChunkDecoder
set_chunk_size d size = record d { chunk_size = min size max_chunk_size }

pub record Header : Type 0 where
  pub timestamp_field : ℕ
  pub message_length : ℕ
  pub message_type : ℕ
  pub stream_id : ℕ

-- The header fields, absent ones from the previous chunk, and the bytes behind the header.
unfoldable pub read_message_header :
    ChunkStreamState → ℕ → Bytes → Result ProtocolError (Header × Bytes)
read_message_header s fmt body =
    if fmt == 0
    then (do
      (ts, b) ← or_panic (get_u24 body)
      (len, b) ← or_panic (get_u24 b)
      (typ, b) ← or_panic (get_u8 b)
      (sid, b) ← or_panic (get_u32_le b)
      ok (
        record { timestamp_field = ts; message_length = len; message_type = typ; stream_id = sid },
        b,
      ))
    else if fmt == 1
    then (do
      (ts, b) ← or_panic (get_u24 body)
      (len, b) ← or_panic (get_u24 b)
      (typ, b) ← or_panic (get_u8 b)
      ok (
        record {
          timestamp_field = ts;
          message_length = len;
          message_type = typ;
          stream_id = s.stream_id;
        },
        b,
      ))
    else if fmt == 2
    then (do
      (ts, b) ← or_panic (get_u24 body)
      ok (
        record {
          timestamp_field = ts;
          message_length = s.message_length;
          message_type = s.message_type;
          stream_id = s.stream_id;
        },
        b,
      ))
    else ok (
      record {
        timestamp_field = s.timestamp_delta;
        message_length = s.message_length;
        message_type = s.message_type;
        stream_id = s.stream_id;
      },
      body,
    )

-- The timestamp, whether it was extended, and the bytes behind it.
unfoldable pub read_timestamp :
    ChunkStreamState → ℕ → Header → Bytes → Result ProtocolError (ℕ × Bool × Bytes)
read_timestamp s fmt h body =
    if leb extended_timestamp_threshold h.timestamp_field || (fmt == 3 && s.has_extended_timestamp)
    then (do (ts, b) ← or_panic (get_u32 body); ok (ts, true, b))
    else ok (h.timestamp_field, false, body)

unfoldable pub absolute_timestamp : ChunkStreamState → ℕ → ℕ → ℕ
absolute_timestamp s fmt timestamp =
    if fmt == 0
    then timestamp
    else if fmt == 3 && not (is_empty s.partial_message)
    then s.timestamp
    else u32 (s.timestamp + timestamp)

unfoldable pub update_state : ChunkStreamState → ℕ → Header → ℕ → Bool → ChunkStreamState
unfolding absolute_timestamp
update_state s fmt h timestamp extended = record s {
  has_extended_timestamp = extended;
  timestamp_delta = timestamp;
  message_length = h.message_length;
  message_type = h.message_type;
  stream_id = h.stream_id;
  timestamp = absolute_timestamp s fmt timestamp;
}

-- What a call of `decode` leaves of one chunk stream and of the buffer, and what it returns.
pub record StreamResult : Type 0 where
  pub state : ChunkStreamState
  pub buf : Bytes
  pub result : Result ProtocolError (Option RtmpChunk)

-- The reassembly buffer of a new message is empty, and its length is the header's.
unfoldable pub start_message : ChunkStreamState → ChunkStreamState
start_message s =
    if is_empty s.partial_message then record s { expected_length = s.message_length } else s

-- A message is complete when the expected length is there.
unfoldable pub finish_chunk : ℕ → ChunkStreamState → Bytes → StreamResult
finish_chunk csid s rest =
    if leb s.expected_length (u32 (length s.partial_message))
    then record {
      state = record s { partial_message = []; expected_length = 0 };
      buf = rest;
      result = ok (
          some (record {
            csid = csid;
            timestamp = s.timestamp;
            message_type = s.message_type;
            stream_id = s.stream_id;
            payload = s.partial_message;
          }));
    }
    else record { state = s; buf = rest; result = ok none }

unfoldable pub read_data : ℕ → ℕ → ChunkStreamState → Bytes → StreamResult
unfolding start_message finish_chunk
read_data csid data_len s body =
    let s' = start_message s in
    if ltb (length body) data_len
    then record { state = s'; buf = body; result = panic }
    else finish_chunk csid
        (record s' { partial_message = s'.partial_message ++ take data_len body })
        (drop data_len body)

unfoldable pub check_size : ℕ → ℕ → ℕ → ChunkStreamState → Bytes → StreamResult
unfolding read_data
check_size max_message_size csid data_len s body =
    if ltb max_message_size s.message_length
    then record {
      state = s;
      buf = body;
      result = err (message_too_large s.message_length max_message_size);
    }
    else read_data csid data_len s body

abbrev pub with_timestamp :
    ℕ
    → ChunkStreamState
    → ℕ
    → ℕ
    → ℕ
    → Header
    → Bytes
    → Result ProtocolError (ℕ × Bool × Bytes)
    → StreamResult
with_timestamp max_size s fmt csid data_len h body (ok (ts, extended, b)) =
    check_size max_size csid data_len (update_state s fmt h ts extended) b
with_timestamp max_size s fmt csid data_len h body (err e) = record {
  state = s;
  buf = body;
  result = err e;
}
with_timestamp max_size s fmt csid data_len h body panic = record {
  state = s;
  buf = body;
  result = panic;
}

abbrev pub with_header :
    ℕ → ChunkStreamState → ℕ → ℕ → ℕ → Bytes → Result ProtocolError (Header × Bytes) → StreamResult
with_header max_size s fmt csid data_len body (ok (h, b)) =
    with_timestamp max_size s fmt csid data_len h b (read_timestamp s fmt h b)
with_header max_size s fmt csid data_len body (err e) = record {
  state = s;
  buf = body;
  result = err e;
}
with_header max_size s fmt csid data_len body panic = record {
  state = s;
  buf = body;
  result = panic;
}

-- Takes a whole chunk off the buffer, of which the basic header is already taken.
unfoldable pub consume : ℕ → ChunkStreamState → ℕ → ℕ → ℕ → Bytes → StreamResult
consume max_size s fmt csid data_len body =
    with_header max_size s fmt csid data_len body (read_message_header s fmt body)

abbrev pub when_whole :
    ℕ → ChunkStreamState → Bytes → ℕ → ℕ → ℕ → Result ProtocolError (Option ℕ) → StreamResult
when_whole max_size s buf fmt csid header_len (ok (some data_len)) =
    consume max_size s fmt csid data_len (drop header_len buf)
when_whole max_size s buf fmt csid header_len (ok none) = record {
  state = s;
  buf = buf;
  result = ok none;
}
when_whole max_size s buf fmt csid header_len (err e) = record {
  state = s;
  buf = buf;
  result = err e;
}
when_whole max_size s buf fmt csid header_len panic = record {
  state = s;
  buf = buf;
  result = panic;
}

unfoldable pub decode_stream : ℕ → ℕ → ChunkStreamState → Bytes → ℕ → ℕ → ℕ → StreamResult
decode_stream chunk_size max_size s buf fmt csid header_len =
    when_whole max_size s buf fmt csid header_len (whole_chunk chunk_size s buf fmt header_len)

-- What a call of `decode` leaves of the decoder and of the buffer, and what it returns.
pub record Decoded : Type 0 where
  pub decoder : ChunkDecoder
  pub buf : Bytes
  pub result : Result ProtocolError (Option RtmpChunk)

abbrev pub store : ChunkDecoder → ℕ → StreamResult → Decoded
store d csid r = record {
  decoder = record d { streams = insert d.streams csid r.state };
  buf = r.buf;
  result = r.result;
}

abbrev pub decode_header : ChunkDecoder → Bytes → Option (ℕ × ℕ × ℕ) → Decoded
decode_header d buf none = record { decoder = d; buf = buf; result = ok none }
decode_header d buf (some (fmt, csid, header_len)) =
    store d csid
      (decode_stream d.chunk_size d.max_message_size (entry d.streams csid) buf fmt csid header_len)

unfoldable pub decode : ChunkDecoder → Bytes → Decoded
decode d buf = decode_header d buf (parse_basic_header buf)

abbrev pub aborted : ChunkStreamState → ChunkStreamState
aborted s = record s { partial_message = []; expected_length = 0 }

abbrev pub abort_known : ChunkDecoder → ℕ → Option ChunkStreamState → ChunkDecoder
abort_known d csid none = d
abort_known d csid (some s) = record d { streams = insert d.streams csid (aborted s) }

unfoldable pub abort : ChunkDecoder → ℕ → ChunkDecoder
abort d csid = abort_known d csid (get d.streams csid)
