-- ===== src/Chunk/Progress.antt =====
-- What one call of `decode` does to the buffer, and that the receiving loop ends
-- (protocol/chunk.rs, server/connection.rs).
use rtmp_rs.Prelude.{
  ap, inl, inr, Bool-cases, ltb, ltb→lt, ℕ, zero, suc, ◌≤◌, ◌<◌, ◌≡◌, refl, Option, none, some,
  Bool, arith, length, length-drop, drop, Result, ok, err, panic,
}
use rtmp_rs.Bytes.{Bytes}
use rtmp_rs.Error.{ProtocolError}
use rtmp_rs.Chunk.State.{RtmpChunk, ChunkStreamState, entry}
use rtmp_rs.Chunk.Peek.{parse_basic_header, whole_chunk}
use rtmp_rs.Chunk.Decoder.{
  ChunkDecoder, Decoded, Header, decode, decode_stream, consume, check_size, read_data,
  read_timestamp, read_message_header, update_state, with_header, with_timestamp, when_whole,
  decode_header,
}
use rtmp_rs.Chunk.Receive.{Drained, hand_on, round, drain, drain_all}

read_data_takes :
    (csid n : ℕ) (s : ChunkStreamState) (body : Bytes)
    → length (read_data csid n s body).buf ≤ length body
unfolding read_data
read_data_takes csid n s body = ground (arith, length-drop n body)

check_size_takes :
    (max csid n : ℕ) (s : ChunkStreamState) (body : Bytes)
    → length (check_size max csid n s body).buf ≤ length body
unfolding check_size
check_size_takes max csid n s body = ground (arith, length-drop n body)

read_message_header_takes :
    (s : ChunkStreamState) (fmt : ℕ) (body : Bytes) (h : Header) (b : Bytes)
    → read_message_header s fmt body ≡ ok (h, b)
    → length b ≤ length body
unfolding read_message_header
read_message_header_takes s fmt body h b e = ground arith

read_timestamp_takes :
    (s : ChunkStreamState) (fmt : ℕ) (h : Header) (body : Bytes) (ts : ℕ) (x : Bool) (b : Bytes)
    → read_timestamp s fmt h body ≡ ok (ts, x, b)
    → length b ≤ length body
unfolding read_timestamp
read_timestamp_takes s fmt h body ts x b e = ground arith

pub parse_basic_header_within :
    (buf : Bytes) (fmt csid n : ℕ)
    → parse_basic_header buf ≡ some (fmt, csid, n)
    → (0 < n) × (n ≤ length buf) × (fmt < 4) × (2 ≤ csid)
unfolding parse_basic_header
parse_basic_header_within buf fmt csid n e = ground arith

-- A call of `decode` past the point where the whole chunk is there only takes bytes off.
pub consume_takes :
    (max : ℕ) (s : ChunkStreamState) (fmt csid n : ℕ) (body : Bytes)
    → length (consume max s fmt csid n body).buf ≤ length body
unfolding consume
consume_takes max s fmt csid n body = header (read_message_header s fmt body) refl
  where
    stamp :
        (h : Header) (b : Bytes) (r : Result ProtocolError (ℕ × Bool × Bytes))
        → read_timestamp s fmt h b ≡ r
        → length b ≤ length body
        → length (with_timestamp max s fmt csid n h b r).buf ≤ length body
    stamp h b (ok (ts, x, b')) e le = omega (
      arith,
      le,
      read_timestamp_takes s fmt h b ts x b' e,
      check_size_takes max csid n (update_state s fmt h ts x) b',
    )
    stamp h b (err x) e le = le
    stamp h b panic e le = le

    header :
        (r : Result ProtocolError (Header × Bytes))
        → read_message_header s fmt body ≡ r
        → length (with_header max s fmt csid n body r).buf ≤ length body
    header (ok (h, b)) e =
        stamp h b (read_timestamp s fmt h b) refl (read_message_header_takes s fmt body h b e)
    header (err x) e = omega arith
    header panic e = omega arith

-- What is left is no longer than the buffer, and shorter where a message is returned.
abbrev pub Takes : Bytes → Bytes → Result ProtocolError (Option RtmpChunk) → Type 0
Takes buf left (ok (some c)) = length left < length buf
Takes buf left r = length left ≤ length buf

Takes-lt :
    (buf left : Bytes) (r : Result ProtocolError (Option RtmpChunk))
    → length left < length buf
    → Takes buf left r
Takes-lt buf left (ok (some c)) h = h
Takes-lt buf left (ok none) h = omega arith
Takes-lt buf left (err e) h = omega arith
Takes-lt buf left panic h = omega arith

decode_stream-Takes :
    (size max : ℕ) (s : ChunkStreamState) (buf : Bytes) (fmt csid n : ℕ)
    → 0 < n
    → n ≤ length buf
    → let r = decode_stream size max s buf fmt csid n in Takes buf r.buf r.result
unfolding decode_stream
decode_stream-Takes size max s buf fmt csid n pos within = go (whole_chunk size s buf fmt n)
  where
    go :
        (w : Result ProtocolError (Option ℕ))
        → let r = when_whole max s buf fmt csid n w in Takes buf r.buf r.result
    go (ok (some k)) =
        Takes-lt buf _ (consume max s fmt csid k (drop n buf)).result
          (omega (arith, consume_takes max s fmt csid k (drop n buf), length-drop n buf))
    go (ok none) = omega arith
    go (err e) = omega arith
    go panic = omega arith

-- `decode` never adds to the buffer, and a message that it returns has taken a byte off at least.
pub decode-Takes :
    (d : ChunkDecoder) (buf : Bytes) → Takes buf (decode d buf).buf (decode d buf).result
unfolding decode
decode-Takes d buf = go (parse_basic_header buf) refl
  where
    go :
        (h : Option (ℕ × ℕ × ℕ))
        → parse_basic_header buf ≡ h
        → Takes buf (decode_header d buf h).buf (decode_header d buf h).result
    go none e = omega arith
    go (some (fmt, csid, n)) e =
        let (pos, within, _, _) = parse_basic_header_within buf fmt csid n e in
        decode_stream-Takes d.chunk_size d.max_message_size (entry d.streams csid) buf fmt csid n
          pos within

round_agrees :
    (go go' : ChunkDecoder → Bytes → Drained) (on_chunk : RtmpChunk → ChunkDecoder → ChunkDecoder)
    (buf : Bytes) (r : Decoded) (res : Result ProtocolError (Option RtmpChunk))
    → ((d : ChunkDecoder) (b : Bytes) → length b < length buf → go d b ≡ go' d b)
    → Takes buf r.buf res
    → round go on_chunk buf r res ≡ round go' on_chunk buf r res
round_agrees go go' on_chunk buf r (ok (some c)) agree h =
    ap (hand_on c) (agree (on_chunk c r.decoder) r.buf h)
round_agrees go go' on_chunk buf r (ok none) agree h =
    elim (Bool-cases (ltb (length r.buf) (length buf))) [
      | inl t ↦ rw t (agree r.decoder r.buf (ltb→lt _ _ t))
      | inr f ↦ rw f
    ]
round_agrees go go' on_chunk buf r (err e) agree h = refl
round_agrees go go' on_chunk buf r panic agree h = refl

-- The loop's fuel does not matter once it exceeds the length of the buffer: it ends by its own test.
pub drain_fuel :
    (f g : ℕ) (on_chunk : RtmpChunk → ChunkDecoder → ChunkDecoder) (d : ChunkDecoder) (buf : Bytes)
    → length buf < f
    → length buf < g
    → drain f on_chunk d buf ≡ drain g on_chunk d buf
unfolding drain
drain_fuel zero g on_chunk d buf hf hg = absurd (omega arith)
drain_fuel (suc f) zero on_chunk d buf hf hg = absurd (omega arith)
drain_fuel (suc f) (suc g) on_chunk d buf hf hg =
    round_agrees (drain f on_chunk) (drain g on_chunk) on_chunk buf (decode d buf)
      (decode d buf).result (λ d' b h. drain_fuel f g on_chunk d' b (omega arith) (omega arith))
      (decode-Takes d buf)

-- The loop over all bytes runs one round and goes on with what is left.
pub drain_all-round :
    (on_chunk : RtmpChunk → ChunkDecoder → ChunkDecoder) (d : ChunkDecoder) (buf : Bytes)
    → drain_all on_chunk d buf
      ≡ round (drain_all on_chunk) on_chunk buf (decode d buf) (decode d buf).result
unfolding drain_all drain
drain_all-round on_chunk d buf =
    round_agrees (drain (length buf) on_chunk) (drain_all on_chunk) on_chunk buf (decode d buf)
      (decode d buf).result
      (λ d' b h. drain_fuel (length buf) (suc (length b)) on_chunk d' b h (omega arith))
      (decode-Takes d buf)
