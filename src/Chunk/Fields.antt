-- ===== src/Chunk/Fields.antt =====
-- The headers that the encoder writes, as the decoder reads them: one lemma for each format
-- (protocol/chunk.rs).
use rtmp_rs.Prelude.{
  ℕ, ◌+◌, ◌≤◌, ◌<◌, min, ◌≡◌, refl, ap, false, some, [], ◌∷◌, ◌++◌, arith, length, length-append,
  drop-append_add, drop-append_exact, is_empty, ok,
}
use rtmp_rs.Bytes.{Bytes, u32, put_u24, put_u32_le, be24-put_u24, be32-put_u32}
use rtmp_rs.Constants.{extended_timestamp_threshold}
use rtmp_rs.Chunk.State.{ChunkStreamState}
use rtmp_rs.Chunk.Peek.{parse_basic_header, whole_chunk}
use rtmp_rs.Chunk.Decoder.{consume, check_size, read_message_header, read_timestamp, update_state}
use rtmp_rs.Chunk.Encoder.{write_basic_header}

-- The decoder reads the format and the chunk stream back from a basic header of either of the
-- three sizes, and finds its length.
pub parse_basic_header-write_basic_header :
    (csid fmt : ℕ) (rest : Bytes)
    → 2 ≤ csid
    → csid < 65600
    → fmt < 4
    → parse_basic_header (write_basic_header csid fmt ++ rest)
      ≡ some (fmt, csid, length (write_basic_header csid fmt))
unfolding parse_basic_header write_basic_header
parse_basic_header-write_basic_header csid fmt rest lo hi hf = ground arith

-- Looking past a basic header is looking at what follows it.
pub whole_chunk_front :
    (size : ℕ) (s : ChunkStreamState) (front body : Bytes) (fmt : ℕ)
    → whole_chunk size s (front ++ body) fmt (length front) ≡ whole_chunk size s body fmt 0
unfolding whole_chunk
whole_chunk_front size s front body fmt = ground (
  arith,
  length-append front body,
  drop-append_exact (length front) front body refl,
  drop-append_add 3 front body,
)

-- The header fields of a message, as the encoder writes them, in front of what follows.
abbrev pub full_fields : ℕ → ℕ → ℕ → ℕ → Bytes
full_fields ts len typ sid = put_u24 ts ++ (put_u24 len ++ (typ ∷ put_u32_le sid))

abbrev pub same_stream_fields : ℕ → ℕ → ℕ → Bytes
same_stream_fields ts len typ = put_u24 ts ++ (put_u24 len ++ (typ ∷ []))

module _ (size : ℕ) (s : ChunkStreamState) (idle : s.partial_message ≡ []) (tail : Bytes) where
  pub whole_full :
      (ts len typ sid : ℕ)
      → ts < extended_timestamp_threshold
      → len < 16777216
      → min len size ≤ length tail
      → whole_chunk size s (full_fields ts len typ sid ++ tail) 0 0 ≡ ok (some (min len size))
  unfolding whole_chunk
  whole_full ts len typ sid ht hl hs =
      ground (arith, be24-put_u24 ts, be24-put_u24 len, ap length idle)

  pub whole_same_stream :
      (ts len typ : ℕ)
      → ts < extended_timestamp_threshold
      → len < 16777216
      → min len size ≤ length tail
      → whole_chunk size s (same_stream_fields ts len typ ++ tail) 1 0 ≡ ok (some (min len size))
  unfolding whole_chunk
  whole_same_stream ts len typ ht hl hs =
      ground (arith, be24-put_u24 ts, be24-put_u24 len, ap length idle)

  pub whole_delta :
      (ts : ℕ)
      → ts < extended_timestamp_threshold
      → min s.message_length size ≤ length tail
      → whole_chunk size s (put_u24 ts ++ tail) 2 0 ≡ ok (some (min s.message_length size))
  unfolding whole_chunk
  whole_delta ts ht hs = ground (arith, be24-put_u24 ts, ap length idle)

  pub whole_repeat :
      s.has_extended_timestamp ≡ false
      → min s.message_length size ≤ length tail
      → whole_chunk size s tail 3 0 ≡ ok (some (min s.message_length size))
  unfolding whole_chunk
  whole_repeat he hs = ground (arith, ap length idle)

-- The state of a chunk stream after a header.
abbrev pub received : ChunkStreamState → ℕ → ℕ → ℕ → ℕ → ℕ → ChunkStreamState
received s ts delta len typ sid = record s {
  has_extended_timestamp = false;
  timestamp_delta = delta;
  message_length = len;
  message_type = typ;
  stream_id = sid;
  timestamp = ts;
}

module _ (max csid n : ℕ) (s : ChunkStreamState) (tail : Bytes) where
  pub consume_full :
      (ts len typ sid : ℕ)
      → ts < extended_timestamp_threshold
      → len < 16777216
      → sid < 4294967296
      → consume max s 0 csid n (full_fields ts len typ sid ++ tail)
        ≡ check_size max csid n (received s ts ts len typ sid) tail
  unfolding consume read_message_header read_timestamp update_state
  consume_full ts len typ sid ht hl hs =
      ground (arith, be24-put_u24 ts, be24-put_u24 len, be32-put_u32 sid)

  pub consume_same_stream :
      (ts len typ : ℕ)
      → ts < extended_timestamp_threshold
      → len < 16777216
      → consume max s 1 csid n (same_stream_fields ts len typ ++ tail)
        ≡ check_size max csid n (received s (u32 (s.timestamp + ts)) ts len typ s.stream_id) tail
  unfolding consume read_message_header read_timestamp update_state
  consume_same_stream ts len typ ht hl = ground (arith, be24-put_u24 ts, be24-put_u24 len)

  pub consume_delta :
      (ts : ℕ)
      → ts < extended_timestamp_threshold
      → consume max s 2 csid n (put_u24 ts ++ tail)
        ≡ check_size max csid n
            (received s (u32 (s.timestamp + ts)) ts s.message_length s.message_type s.stream_id)
            tail
  unfolding consume read_message_header read_timestamp update_state
  consume_delta ts ht = ground (arith, be24-put_u24 ts)

  pub consume_repeat :
      s.partial_message ≡ []
      → s.has_extended_timestamp ≡ false
      → s.timestamp_delta < extended_timestamp_threshold
      → consume max s 3 csid n tail
        ≡ check_size max csid n
            (received s
              (u32 (s.timestamp + s.timestamp_delta))
              s.timestamp_delta
              s.message_length
              s.message_type
              s.stream_id)
            tail
  unfolding consume read_message_header read_timestamp update_state
  consume_repeat idle he hd = ground (arith, ap is_empty idle)

  pub consume_continuation :
      is_empty s.partial_message ≡ false
      → s.has_extended_timestamp ≡ false
      → s.timestamp_delta < extended_timestamp_threshold
      → consume max s 3 csid n tail ≡ check_size max csid n s tail
  unfolding consume read_message_header read_timestamp update_state
  consume_continuation busy he hd = ground arith
