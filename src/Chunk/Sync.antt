-- ===== src/Chunk/Sync.antt =====
-- The encoder and the decoder of one chunk stream in step (protocol/chunk.rs).
use rtmp_rs.Prelude.{
  ℕ, ◌+◌, ◌≤◌, ◌<◌, min, ◌≡◌, refl, ap, ◌∙◌, false, ◌⊎◌, inl, inr, some, [], ◌++◌, arith, length,
  drop-append_exact, ok,
}
use rtmp_rs.Bytes.{Bytes, u32, put_u24}
use rtmp_rs.Constants.{extended_timestamp_threshold}
use rtmp_rs.Chunk.State.{RtmpChunk, ChunkStreamState}
use rtmp_rs.Chunk.Peek.{whole_chunk}
use rtmp_rs.Chunk.Decoder.{decode_stream, consume, check_size}
use rtmp_rs.Chunk.Encoder.{write_message_header, plan, select_format, wrapping_sub}
use rtmp_rs.Chunk.Fields.{
  whole_chunk_front, whole_full, whole_same_stream, whole_delta, whole_repeat, received,
  consume_full, consume_same_stream, consume_delta, consume_repeat, full_fields, same_stream_fields,
}

-- The decoder `d` of a chunk stream has seen what the encoder `e` has written, whole messages all.
pub record InSync (e d : ChunkStreamState) : Type 0 where
  pub same_timestamp : d.timestamp ≡ e.timestamp
  pub same_delta : d.timestamp_delta ≡ e.timestamp_delta
  pub same_length : d.message_length ≡ e.message_length
  pub same_type : d.message_type ≡ e.message_type
  pub same_stream : d.stream_id ≡ e.stream_id
  pub decoder_plain : d.has_extended_timestamp ≡ false
  pub idle : d.partial_message ≡ []

-- A message that the encoder in state `e` writes so that the decoder can read it back.
pub record Sendable (c : RtmpChunk) (e : ChunkStreamState) : Type 0 where
  pub csid_low : 2 ≤ c.csid
  pub csid_high : c.csid < 65600
  pub plain : c.timestamp < extended_timestamp_threshold
  pub forward : e.timestamp ≤ c.timestamp
  pub stream_range : c.stream_id < 4294967296
  pub filled : 0 < length c.payload
  pub short : length c.payload < 16777216
  pub restart : select_format c e ≡ 0 → e.timestamp ≡ 0

-- What the four formats say of the message and of the one before it.
abbrev Formats : RtmpChunk → ChunkStreamState → Type 0
Formats c e =
    (select_format c e ≡ 0)
    ⊎ ((select_format c e ≡ 1) × (c.stream_id ≡ e.stream_id))
    ⊎ ((select_format c e ≡ 2)
        × (c.stream_id ≡ e.stream_id)
        × (c.message_type ≡ e.message_type)
        × (u32 (length c.payload) ≡ e.message_length))
    ⊎ ((select_format c e ≡ 3)
        × (c.stream_id ≡ e.stream_id)
        × (c.message_type ≡ e.message_type)
        × (u32 (length c.payload) ≡ e.message_length)
        × (wrapping_sub c.timestamp e.timestamp ≡ e.timestamp_delta))

format_cases : (c : RtmpChunk) (e : ChunkStreamState) → Formats c e
unfolding select_format
format_cases c e = ground arith

-- A chunk that the buffer holds whole is taken off it.
pub decode_stream_whole :
    (size max : ℕ) (s : ChunkStreamState) (front body : Bytes) (fmt csid n : ℕ)
    → whole_chunk size s body fmt 0 ≡ ok (some n)
    → decode_stream size max s (front ++ body) fmt csid (length front)
      ≡ consume max s fmt csid n body
unfolding decode_stream
decode_stream_whole size max s front body fmt csid n h = ground (
  arith,
  whole_chunk_front size s front body fmt,
  drop-append_exact (length front) front body refl,
)

-- The decoder's state when it has read the header of the message.
abbrev pub begun : RtmpChunk → ChunkStreamState → ChunkStreamState → ChunkStreamState
begun c e d =
    received d c.timestamp (wrapping_sub c.timestamp e.timestamp) (length c.payload) c.message_type
      c.stream_id

-- The decoder takes the first chunk of a message for what it is: all of its data, and no more.
abbrev Opens : ℕ → ℕ → ℕ → RtmpChunk → ChunkStreamState → ChunkStreamState → Bytes → Type 0
Opens size max csid c e d tail =
    let fmt = select_format c e in
    let body = write_message_header c (plan c e) ++ tail in
    let n = min (length c.payload) size in
    (whole_chunk size d body fmt 0 ≡ ok (some n))
    × (consume max d fmt csid n body ≡ check_size max csid n (begun c e d) tail)

-- What the encoder writes for the header of a message whose timestamp is not extended.
module _ (c : RtmpChunk) (e : ChunkStreamState) (plain : c.timestamp < extended_timestamp_threshold)
    (short : length c.payload < 16777216) where
  header_full :
      select_format c e ≡ 0
      → write_message_header c (plan c e)
        ≡ full_fields c.timestamp (length c.payload) c.message_type c.stream_id
  unfolding write_message_header plan
  header_full h = ground arith

  header_same_stream :
      select_format c e ≡ 1
      → write_message_header c (plan c e)
        ≡ same_stream_fields
            (wrapping_sub c.timestamp e.timestamp)
            (length c.payload)
            c.message_type
  unfolding write_message_header plan
  header_same_stream h = ground arith

  header_delta :
      select_format c e ≡ 2
      → write_message_header c (plan c e) ≡ put_u24 (wrapping_sub c.timestamp e.timestamp)
  unfolding write_message_header plan
  header_delta h = ground arith

  header_repeat : select_format c e ≡ 3 → write_message_header c (plan c e) ≡ []
  unfolding write_message_header plan
  header_repeat h = ground arith

module _ (size max csid : ℕ) (c : RtmpChunk) (e d : ChunkStreamState) (tail : Bytes)
    (sync : InSync e d) (send : Sendable c e)
    (held : min (length c.payload) size ≤ length tail) where
  abbrev delta : ℕ
  delta = wrapping_sub c.timestamp e.timestamp

  -- The decoder adds the delta to the timestamp of the message before.
  u32-add-delta : u32 (d.timestamp + delta) ≡ c.timestamp
  u32-add-delta = omega arith

  Opens-full : select_format c e ≡ 0 → Opens size max csid c e d tail
  Opens-full h =
      let start : delta ≡ c.timestamp = omega (arith, send.restart h) in
      rw (h, header_full c e send.plain send.short h, start)
        (
          whole_full size d sync.idle tail c.timestamp (length c.payload) c.message_type c.stream_id
              send.plain send.short held,
          consume_full max csid (min (length c.payload) size) d tail c.timestamp (length c.payload)
              c.message_type c.stream_id send.plain send.short send.stream_range,
        )

  Opens-same_stream :
      select_format c e ≡ 1 → c.stream_id ≡ e.stream_id → Opens size max csid c e d tail
  Opens-same_stream h sid =
      rw (h, header_same_stream c e send.plain send.short h)
        (
          whole_same_stream size d sync.idle tail delta (length c.payload) c.message_type
              (omega arith) send.short held,
          consume_same_stream max csid (min (length c.payload) size) d tail delta (length c.payload)
                c.message_type (omega arith) send.short
              ∙ ap (λ s. check_size max csid (min (length c.payload) size) s tail)
                  (ground (arith, u32-add-delta)),
        )

  Opens-delta :
      select_format c e ≡ 2
      → c.stream_id ≡ e.stream_id
      → c.message_type ≡ e.message_type
      → length c.payload ≡ d.message_length
      → Opens size max csid c e d tail
  Opens-delta h sid typ len =
      rw (h, header_delta c e send.plain send.short h, len)
        (
          whole_delta size d sync.idle tail delta (omega arith) (omega arith),
          consume_delta max csid (min d.message_length size) d tail delta (omega arith)
              ∙ ap (λ s. check_size max csid (min d.message_length size) s tail)
                  (ground (arith, u32-add-delta)),
        )

  Opens-repeat :
      select_format c e ≡ 3
      → c.stream_id ≡ e.stream_id
      → c.message_type ≡ e.message_type
      → length c.payload ≡ d.message_length
      → delta ≡ d.timestamp_delta
      → Opens size max csid c e d tail
  Opens-repeat h sid typ len same =
      rw (h, header_repeat c e send.plain send.short h, len)
        (
          whole_repeat size d sync.idle tail sync.decoder_plain (omega arith),
          consume_repeat max csid (min d.message_length size) d tail sync.idle sync.decoder_plain
                (omega arith)
              ∙ ap (λ s. check_size max csid (min d.message_length size) s tail)
                  (ground (arith, u32-add-delta)),
        )

  pub opens : Opens size max csid c e d tail
  opens = elim (format_cases c e) [
    | inl h ↦ Opens-full h
    | inr (inl (h, sid)) ↦ Opens-same_stream h sid
    | inr (inr (inl (h, sid, typ, len))) ↦ Opens-delta h sid typ (omega arith)
    | inr (inr (inr (h, sid, typ, len, same))) ↦ Opens-repeat h sid typ (omega arith) (omega arith)
  ]
