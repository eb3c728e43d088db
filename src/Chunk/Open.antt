-- ===== src/Chunk/Open.antt =====
-- One call of `decode` on a chunk that the encoder wrote (protocol/chunk.rs).
use rtmp_rs.Prelude.{
  ℕ, ◌-◌, ◌≤◌, ◌<◌, min, ◌≡◌, refl, ap, ◌∙◌, Bool, true, false, some, [], ◌++◌, arith, length,
  length-append, is_empty, ok, append_assoc, append-nil, take-append_exact, drop-append_exact,
}
use rtmp_rs.Prelude.Map.{insert, nat_eq, get-insert_self, insert-insert}
use rtmp_rs.Bytes.{Bytes}
use rtmp_rs.Constants.{extended_timestamp_threshold}
use rtmp_rs.Chunk.State.{RtmpChunk, ChunkStreamState, entry}
use rtmp_rs.Chunk.Peek.{whole_chunk}
use rtmp_rs.Chunk.Decoder.{
  ChunkDecoder, decode, store, consume, check_size, start_message, finish_chunk,
}
use rtmp_rs.Chunk.Encoder.{
  write_basic_header, write_header, write_message_header, write_extended, plan, select_format,
}
use rtmp_rs.Chunk.Fields.{parse_basic_header-write_basic_header, consume_continuation}
use rtmp_rs.Chunk.Sync.{InSync, Sendable, begun, opens, decode_stream_whole}

-- A decoder in which a chunk stream's state is replaced.
abbrev pub put : ChunkDecoder → ℕ → ChunkStreamState → ChunkDecoder
put d csid s = record d { streams = insert d.streams csid s }

pub put-put :
    (d : ChunkDecoder) (csid : ℕ) (s t : ChunkStreamState)
    → put (put d csid s) csid t ≡ put d csid t
put-put d csid s t = ap (λ m. record d { streams = m }) (insert-insert d.streams csid s t)

pub entry-put :
    (d : ChunkDecoder) (csid : ℕ) (s : ChunkStreamState) → entry (put d csid s).streams csid ≡ s
unfolding entry
entry-put d csid s = rw (get-insert_self d.streams csid s)

-- `decode` on a basic header and a chunk that is there in whole.
decode_front :
    (d : ChunkDecoder) (csid fmt n : ℕ) (body : Bytes)
    → 2 ≤ csid
    → csid < 65600
    → fmt < 4
    → whole_chunk d.chunk_size (entry d.streams csid) body fmt 0 ≡ ok (some n)
    → decode d (write_basic_header csid fmt ++ body)
      ≡ store d csid (consume d.max_message_size (entry d.streams csid) fmt csid n body)
unfolding decode
decode_front d csid fmt n body lo hi hf h =
    rw (parse_basic_header-write_basic_header csid fmt body lo hi hf) (
      ap (store d csid) (
        decode_stream_whole d.chunk_size d.max_message_size (entry d.streams csid)
          (write_basic_header csid fmt) body fmt csid n h))

select_format-lt : (c : RtmpChunk) (e : ChunkStreamState) → select_format c e < 4
unfolding select_format
select_format-lt c e = ground arith

-- A message whose timestamp is below the threshold has no extended timestamp in any chunk.
write_extended_plain :
    (c : RtmpChunk) (e : ChunkStreamState) (first_chunk : Bool)
    → c.timestamp < extended_timestamp_threshold
    → write_extended c (plan c e) first_chunk ≡ []
unfolding write_extended plan
write_extended_plain c e first_chunk h = ground arith

plan_format : (c : RtmpChunk) (e : ChunkStreamState) → (plan c e).fmt ≡ select_format c e
unfolding plan
plan_format c e = refl

header_first :
    (c : RtmpChunk) (e : ChunkStreamState) (tail : Bytes)
    → c.timestamp < extended_timestamp_threshold
    → write_header c (plan c e) true ++ tail
      ≡ write_basic_header c.csid (select_format c e) ++ (write_message_header c (plan c e) ++ tail)
unfolding write_header
header_first c e tail h =
    simp (write_extended_plain c e true h, plan_format, append-nil, append_assoc)

header_next :
    (c : RtmpChunk) (e : ChunkStreamState) (tail : Bytes)
    → c.timestamp < extended_timestamp_threshold
    → write_header c (plan c e) false ++ tail ≡ write_basic_header c.csid 3 ++ tail
unfolding write_header
header_next c e tail h = simp (write_extended_plain c e false h, append-nil)

-- The first chunk of a message.
pub decode_open :
    (d : ChunkDecoder) (c : RtmpChunk) (e s : ChunkStreamState) (tail : Bytes)
    → entry d.streams c.csid ≡ s
    → InSync e s
    → Sendable c e
    → min (length c.payload) d.chunk_size ≤ length tail
    → decode d (write_header c (plan c e) true ++ tail)
      ≡ store d c.csid (
          check_size d.max_message_size c.csid
            (min (length c.payload) d.chunk_size)
            (begun c e s)
            tail)
decode_open d c e s tail he sync send held =
    let (whole, taken) = opens d.chunk_size d.max_message_size c.csid c e s tail sync send held in
    rw (header_first c e tail send.plain) (
      decode_front d c.csid (select_format c e) (min (length c.payload) d.chunk_size)
        (write_message_header c (plan c e) ++ tail) send.csid_low send.csid_high
        (select_format-lt c e) (rw he whole)
      ∙ rw he (ap (store d c.csid) taken))

continuation_whole :
    (size n : ℕ) (s : ChunkStreamState) (tail : Bytes)
    → is_empty s.partial_message ≡ false
    → s.has_extended_timestamp ≡ false
    → length s.partial_message < 4294967296
    → n ≡ min (s.expected_length - length s.partial_message) size
    → n ≤ length tail
    → whole_chunk size s tail 3 0 ≡ ok (some n)
unfolding whole_chunk
continuation_whole size n s tail busy plain bound hn held = ground arith

-- A later chunk of a message.
pub decode_continue :
    (d : ChunkDecoder) (c : RtmpChunk) (e s : ChunkStreamState) (n : ℕ) (tail : Bytes)
    → entry d.streams c.csid ≡ s
    → Sendable c e
    → is_empty s.partial_message ≡ false
    → s.has_extended_timestamp ≡ false
    → s.timestamp_delta < extended_timestamp_threshold
    → length s.partial_message < 4294967296
    → n ≡ min (s.expected_length - length s.partial_message) d.chunk_size
    → n ≤ length tail
    → decode d (write_header c (plan c e) false ++ tail)
      ≡ store d c.csid (check_size d.max_message_size c.csid n s tail)
decode_continue d c e s n tail he send busy plain delta bound hn held =
    rw (header_next c e tail send.plain) (
      decode_front d c.csid 3 n tail send.csid_low send.csid_high (omega arith)
        (rw he (continuation_whole d.chunk_size n s tail busy plain bound hn held))
      ∙ rw he (
          ap (store d c.csid)
            (consume_continuation d.max_message_size c.csid n s tail busy plain delta)))

-- The data of a chunk joins the message.
pub check_size_data :
    (max csid n : ℕ) (s : ChunkStreamState) (piece rest : Bytes)
    → s.message_length ≤ max
    → n ≡ length piece
    → check_size max csid n s (piece ++ rest) ≡ (
        let t = start_message s in
        finish_chunk csid (record t { partial_message = t.partial_message ++ piece }) rest)
unfolding check_size
check_size_data max csid n s piece rest hm hn = ground (
  arith,
  length-append piece rest,
  take-append_exact n piece rest hn,
  drop-append_exact n piece rest hn,
)
