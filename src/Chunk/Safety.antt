-- ===== src/Chunk/Safety.antt =====
-- Whatever bytes arrive, `decode` does not read past its buffer (protocol/chunk.rs).
use rtmp_rs.Prelude.{
  ℕ, ◌+◌, ◌≤◌, ◌<◌, ◌≡◌, ◌≢◌, refl, sym, ◌∙◌, Bool, true, ◌&&◌, ◌||◌, Option, none, some, arith,
  length, length-append, take, drop, length-take, take-append-drop, ◌⊎◌, Result, ok, err, panic,
  if◌then◌else◌, leb, ◌==◌, subst,
}
use rtmp_rs.Bytes.{Bytes}
use rtmp_rs.Error.{ProtocolError, invalid_chunk_header}
use rtmp_rs.Constants.{extended_timestamp_threshold}
use rtmp_rs.Chunk.State.{RtmpChunk, ChunkStreamState}
use rtmp_rs.Chunk.Peek.{whole_chunk}
use rtmp_rs.Chunk.Decoder.{
  StreamResult, Header, decode_stream, when_whole, consume, check_size, read_timestamp,
  read_message_header, update_state, with_header, with_timestamp,
}
use rtmp_rs.Chunk.Fields.{whole_chunk_front}

-- What holds of a chunk stream's state between two calls: the reassembly buffer and the length
-- that it is to reach stay within the limit, and a timestamp delta that was not extended is small.
pub record IsSound (max : ℕ) (s : ChunkStreamState) : Type 0 where
  pub buffered : length s.partial_message ≤ max
  pub expected : s.expected_length ≤ max
  pub stamped :
      (s.has_extended_timestamp ≡ true) ⊎ (s.timestamp_delta < extended_timestamp_threshold)

-- The room that a chunk's timestamp and data take behind the message header.
abbrev pub room : ChunkStreamState → ℕ → Header → ℕ → ℕ
room s fmt h n =
    n
    + (if leb extended_timestamp_threshold h.timestamp_field
          || (fmt == 3 && s.has_extended_timestamp)
        then 4
        else 0)

pub whole_chunk-room :
    (size max : ℕ) (s : ChunkStreamState) (fmt n : ℕ) (body b : Bytes) (h : Header)
    → IsSound max s
    → whole_chunk size s body fmt 0 ≡ ok (some n)
    → read_message_header s fmt body ≡ ok (h, b)
    → room s fmt h n ≤ length b
unfolding whole_chunk read_message_header
whole_chunk-room size max s fmt n body b h sound w r = ground arith

whole_chunk_limit :
    (size max : ℕ) (s : ChunkStreamState) (fmt n : ℕ) (body b : Bytes) (h : Header)
    → IsSound max s
    → max < 4294967296
    → h.message_length ≤ max
    → whole_chunk size s body fmt 0 ≡ ok (some n)
    → read_message_header s fmt body ≡ ok (h, b)
    → n + length s.partial_message ≤ max
unfolding whole_chunk read_message_header
whole_chunk_limit size max s fmt n body b h sound hm hl w r = ground arith

pub whole_chunk_header :
    (size : ℕ) (s : ChunkStreamState) (fmt n : ℕ) (body : Bytes)
    → whole_chunk size s body fmt 0 ≡ ok (some n)
    → read_message_header s fmt body ≢ panic
unfolding whole_chunk read_message_header
whole_chunk_header size s fmt n body w = ground arith

pub read_message_header-ne-err :
    (s : ChunkStreamState) (fmt : ℕ) (body : Bytes) (e : ProtocolError)
    → read_message_header s fmt body ≢ err e
unfolding read_message_header
read_message_header-ne-err s fmt body e = ground arith

-- A result is no panic, and a message that it returns is within the limit.
abbrev pub Delivers : ℕ → Result ProtocolError (Option RtmpChunk) → Type 0
Delivers max (ok (some c)) = length c.payload ≤ max
Delivers max (ok none) = Unit
Delivers max (err e) = Unit
Delivers max panic = ⊥

-- The look ahead itself stays within the buffer.
whole_chunk-ne-panic :
    (size : ℕ) (s : ChunkStreamState) (fmt : ℕ) (body : Bytes)
    → fmt < 4
    → whole_chunk size s body fmt 0 ≢ panic
unfolding whole_chunk
whole_chunk-ne-panic size s fmt body h = ground arith

-- What a call leaves of a chunk stream, and what it returns.
pub record IsFine (max : ℕ) (r : StreamResult) : Type 0 where
  pub sound : IsSound max r.state
  pub delivered : Delivers max r.result

check_size-IsFine :
    (max csid n : ℕ) (s : ChunkStreamState) (body : Bytes)
    → IsSound max s
    → (s.message_length ≤ max → n + length s.partial_message ≤ max)
    → n ≤ length body
    → IsFine max (check_size max csid n s body)
unfolding check_size
check_size-IsFine max csid n s body sound limit held = record {
  sound = ground (arith, limit, length-append s.partial_message (take n body), length-take n body);
  delivered =
      ground (arith, limit, length-append s.partial_message (take n body), length-take n body);
}

update_state-IsSound :
    (max : ℕ) (s : ChunkStreamState) (fmt ts : ℕ) (h : Header) (extended : Bool) (body b : Bytes)
    → IsSound max s
    → read_timestamp s fmt h body ≡ ok (ts, extended, b)
    → IsSound max (update_state s fmt h ts extended)
unfolding update_state read_timestamp
update_state-IsSound max s fmt ts h extended body b sound e = ground arith

pub read_timestamp-room :
    (s : ChunkStreamState) (fmt n ts : ℕ) (h : Header) (extended : Bool) (body b : Bytes)
    → room s fmt h n ≤ length body
    → read_timestamp s fmt h body ≡ ok (ts, extended, b)
    → n ≤ length b
unfolding read_timestamp
read_timestamp-room s fmt n ts h extended body b r e = ground arith

pub read_timestamp-ok :
    (s : ChunkStreamState) (fmt n : ℕ) (h : Header) (body : Bytes) (e : ProtocolError)
    → room s fmt h n ≤ length body
    → (read_timestamp s fmt h body ≢ panic) × (read_timestamp s fmt h body ≢ err e)
unfolding read_timestamp
read_timestamp-ok s fmt n h body e r = (ground arith, ground arith)

-- The whole of a call on a chunk that the buffer holds.
consume-IsFine :
    (size max : ℕ) (s : ChunkStreamState) (fmt csid n : ℕ) (body : Bytes)
    → IsSound max s
    → max < 4294967296
    → whole_chunk size s body fmt 0 ≡ ok (some n)
    → IsFine max (consume max s fmt csid n body)
unfolding consume update_state
consume-IsFine size max s fmt csid n body sound hm whole =
    header (read_message_header s fmt body) refl
  where
    stamp :
        (h : Header) (b : Bytes) (r : Result ProtocolError (ℕ × Bool × Bytes))
        → read_message_header s fmt body ≡ ok (h, b)
        → read_timestamp s fmt h b ≡ r
        → IsFine max (with_timestamp max s fmt csid n h b r)
    stamp h b (ok (ts, x, b')) eh e =
        check_size-IsFine max csid n (update_state s fmt h ts x) b'
          (update_state-IsSound max s fmt ts h x b b' sound e)
          (λ hl. whole_chunk_limit size max s fmt n body b h sound hm hl whole eh)
          (read_timestamp-room s fmt n ts h x b b'
            (whole_chunk-room size max s fmt n body b h sound whole eh) e)
    stamp h b (err x) eh e = absurd (
        (read_timestamp-ok s fmt n h b x
            (whole_chunk-room size max s fmt n body b h sound whole eh)).1
          e)
    stamp h b panic eh e = absurd (
        (read_timestamp-ok s fmt n h b invalid_chunk_header
            (whole_chunk-room size max s fmt n body b h sound whole eh)).0
          e)

    header :
        (r : Result ProtocolError (Header × Bytes))
        → read_message_header s fmt body ≡ r
        → IsFine max (with_header max s fmt csid n body r)
    header (ok (h, b)) e = stamp h b (read_timestamp s fmt h b) e refl
    header (err x) e = absurd (read_message_header-ne-err s fmt body x e)
    header panic e = absurd (whole_chunk_header size s fmt n body whole e)

-- The look ahead, from behind the basic header.
pub whole_chunk_moved :
    (size : ℕ) (s : ChunkStreamState) (buf : Bytes) (fmt n : ℕ)
    → n ≤ length buf
    → whole_chunk size s buf fmt n ≡ whole_chunk size s (drop n buf) fmt 0
whole_chunk_moved size s buf fmt n within =
    let len : length (take n buf) ≡ n = omega (arith, length-take n buf) in
    subst (λ k. whole_chunk size s buf fmt k ≡ whole_chunk size s (drop n buf) fmt 0) len
      (subst
        (λ b.
          whole_chunk size s b fmt (length (take n buf)) ≡ whole_chunk size s (drop n buf) fmt 0)
        (take-append-drop n buf) (whole_chunk_front size s (take n buf) (drop n buf) fmt))

pub decode_stream-IsFine :
    (size max : ℕ) (s : ChunkStreamState) (buf : Bytes) (fmt csid n : ℕ)
    → IsSound max s
    → max < 4294967296
    → fmt < 4
    → n ≤ length buf
    → IsFine max (decode_stream size max s buf fmt csid n)
unfolding decode_stream
decode_stream-IsFine size max s buf fmt csid n sound hm hf within =
    go (whole_chunk size s buf fmt n) refl
  where
    moved : whole_chunk size s buf fmt n ≡ whole_chunk size s (drop n buf) fmt 0
    moved = whole_chunk_moved size s buf fmt n within

    go :
        (w : Result ProtocolError (Option ℕ))
        → whole_chunk size s buf fmt n ≡ w
        → IsFine max (when_whole max s buf fmt csid n w)
    go (ok (some k)) e = consume-IsFine size max s fmt csid k (drop n buf) sound hm (sym moved ∙ e)
    go (ok none) e = record { sound = sound; delivered = tt }
    go (err x) e = record { sound = sound; delivered = tt }
    go panic e = absurd (whole_chunk-ne-panic size s fmt (drop n buf) hf (sym moved ∙ e))
