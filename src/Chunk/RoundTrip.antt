-- ===== src/Chunk/RoundTrip.antt =====
-- Whole messages: what `encode` writes, the receiving loop reassembles (protocol/chunk.rs,
-- server/connection.rs).
use rtmp_rs.Prelude.{
  ℕ, zero, suc, ◌-◌, ◌≤◌, ◌<◌, min, ◌≡◌, refl, sym, ap, ◌∙◌, true, false, some, [], ◌∷◌, ◌++◌,
  arith, length, length-append, take, drop, length-take, take-append-drop, append_assoc, append-nil,
}
use rtmp_rs.Bytes.{Bytes}
use rtmp_rs.Constants.{max_message_size as message_size_limit}
use rtmp_rs.Chunk.State.{RtmpChunk, ChunkStreamState, entry}
use rtmp_rs.Chunk.Decoder.{ChunkDecoder, decode, store, finish_chunk}
use rtmp_rs.Chunk.Encoder.{write_header, plan, write_chunks}
use rtmp_rs.Chunk.Sync.{InSync, Sendable, begun}
use rtmp_rs.Chunk.Receive.{Drained, hand_on, drain_all}
use rtmp_rs.Chunk.Open.{put, put-put, entry-put, decode_open, decode_continue, check_size_data}
use rtmp_rs.Chunk.Rounds.{
  midway, ended, write_chunks-suc, write_chunks_nil, write_chunks-zero, length-write_header_pos,
  finish_complete, finish_partial, length-is_empty, start_message_first, start_message_later,
  round_complete, round_partial,
}

module _ (on_chunk : RtmpChunk → ChunkDecoder → ChunkDecoder) (d : ChunkDecoder) (c : RtmpChunk)
    (e s : ChunkStreamState) (rest : Bytes) (send : Sendable c e) (positive : 0 < d.chunk_size)
    (limit : d.max_message_size ≡ message_size_limit) where
  -- The loop with the whole message behind it.
  abbrev Received : Drained → Type 0
  Received r = r ≡ hand_on c (drain_all on_chunk (on_chunk c (put d c.csid (ended c e s))) rest)

  -- A call of `decode` on a chunk whose data brings the message up to `front`, where `left` is
  -- still to come and written as `more`.
  advance :
      (d' : ChunkDecoder) (fuel : ℕ) (buf front left more : Bytes)
      → ((t : ChunkStreamState) → put d' c.csid t ≡ put d c.csid t)
      → decode d' buf ≡ store d' c.csid (finish_chunk c.csid (midway c e s front) (more ++ rest))
      → length (more ++ rest) < length buf
      → front ++ left ≡ c.payload
      → write_chunks fuel d.chunk_size c (plan c e) false left ≡ some more
      → (0 < length left
          → Received (drain_all on_chunk (put d c.csid (midway c e s front)) (more ++ rest)))
      → Received (drain_all on_chunk d' buf)
  advance d' fuel buf front [] more same step shorter split written later =
      let nothing : more ≡ [] =
        cc (written, write_chunks_nil fuel d.chunk_size c (plan c e) false) in
      let whole =
        finish_complete c e s send front (more ++ rest) (sym (append-nil front) ∙ split) in
      round_complete on_chunk d' buf (more ++ rest) c.csid (ended c e s) c
        (step ∙ ap (store d' c.csid) whole)
      ∙ rw (same (ended c e s), nothing)
  advance d' fuel buf front (y ∷ ys) more same step shorter split written later =
      let size = ap length split in
      let part =
        finish_partial c e s send front (more ++ rest)
          (omega (arith, length-append front (y ∷ ys))) in
      round_partial on_chunk d' buf (more ++ rest) c.csid (midway c e s front) shorter
        (step ∙ ap (store d' c.csid) part)
      ∙ rw (same (midway c e s front)) (later (omega arith))

  -- A later chunk, of which the data is `piece`.
  decode_piece :
      (front piece tail : Bytes)
      → 0 < length front
      → length piece ≡ min (length c.payload - length front) d.chunk_size
      → length front ≤ length c.payload
      → let d' = put d c.csid (midway c e s front) in
        decode d' (write_header c (plan c e) false ++ (piece ++ tail))
        ≡ store d' c.csid (finish_chunk c.csid (midway c e s (front ++ piece)) tail)
  decode_piece front piece tail hf hn within =
      let d' = put d c.csid (midway c e s front) in
      decode_continue d' c e (midway c e s front) (length piece) (piece ++ tail)
        (entry-put d c.csid (midway c e s front)) send (length-is_empty front hf) refl (omega arith)
        (omega arith) hn (omega (arith, length-append piece tail))
      ∙ ap (store d' c.csid) (
          check_size_data d.max_message_size c.csid (length piece) (midway c e s front) piece tail
            (omega arith) refl
          ∙ ap
              (λ t.
                finish_chunk c.csid (record t { partial_message = t.partial_message ++ piece })
                  tail)
              (start_message_later c e s front hf))

  -- The first chunk, likewise.
  decode_first :
      (piece tail : Bytes)
      → entry d.streams c.csid ≡ s
      → InSync e s
      → length piece ≡ min (length c.payload) d.chunk_size
      → decode d (write_header c (plan c e) true ++ (piece ++ tail))
        ≡ store d c.csid (finish_chunk c.csid (midway c e s piece) tail)
  decode_first piece tail he sync hn =
      decode_open d c e s (piece ++ tail) he sync send (omega (arith, length-append piece tail))
      ∙ ap (store d c.csid) (
          check_size_data d.max_message_size c.csid (min (length c.payload) d.chunk_size)
            (begun c e s) piece tail (omega arith) (sym hn)
          ∙ ap
              (λ t.
                finish_chunk c.csid (record t { partial_message = t.partial_message ++ piece })
                  tail)
              (start_message_first c e s sync.idle))

  written_shape :
      (header piece more bytes : Bytes)
      → header ++ (piece ++ more) ≡ bytes
      → bytes ++ rest ≡ header ++ (piece ++ (more ++ rest))
  written_shape header piece more bytes h =
      ap (λ b. b ++ rest) (sym h)
      ∙ append_assoc header (piece ++ more) rest
      ∙ ap (λ t. header ++ t) (append_assoc piece more rest)

  receive_rest :
      (fuel : ℕ) (front left bytes : Bytes)
      → 0 < length front
      → front ++ left ≡ c.payload
      → write_chunks fuel d.chunk_size c (plan c e) false left ≡ some bytes
      → 0 < length left
      → Received (drain_all on_chunk (put d c.csid (midway c e s front)) (bytes ++ rest))
  receive_rest fuel front [] bytes hf split written hl = absurd (omega arith)
  receive_rest zero front (x ∷ xs) bytes hf split written hl =
      absurd (write_chunks-zero d.chunk_size c (plan c e) false x xs bytes written)
  receive_rest (suc f) front (x ∷ xs) bytes hf split written hl =
      let n = min (length (x ∷ xs)) d.chunk_size in
      let piece = take n (x ∷ xs) in
      let left = drop n (x ∷ xs) in
      let (more, written', same) =
        write_chunks-suc f d.chunk_size c (plan c e) false x xs written in
      let header = write_header c (plan c e) false in
      let total = ap length split in
      let split' : (front ++ piece) ++ left ≡ c.payload =
        append_assoc front piece left
        ∙ ap (λ t. front ++ t) (take-append-drop n (x ∷ xs))
        ∙ split in
      rw (written_shape header piece more bytes same) (
        advance (put d c.csid (midway c e s front)) f (header ++ (piece ++ (more ++ rest)))
          (front ++ piece) left more (put-put d c.csid (midway c e s front))
          (decode_piece front piece (more ++ rest) hf
            (omega (arith, total, length-append front (x ∷ xs), length-take n (x ∷ xs)))
            (omega (arith, total, length-append front (x ∷ xs))))
          (omega (
            arith,
            length-write_header_pos c (plan c e) false (piece ++ (more ++ rest)),
            length-append piece (more ++ rest),
          ))
          split' written'
          (receive_rest f (front ++ piece) left more (omega (arith, length-append front piece))
            split' written'))

  -- The loop reassembles the message from its chunks, with whatever follows them.
  pub receive_message :
      (fuel : ℕ) (bytes : Bytes)
      → entry d.streams c.csid ≡ s
      → InSync e s
      → write_chunks fuel d.chunk_size c (plan c e) true c.payload ≡ some bytes
      → Received (drain_all on_chunk d (bytes ++ rest))
  receive_message fuel bytes he sync = go fuel c.payload refl
    where
      go :
          (fuel : ℕ) (payload : Bytes)
          → payload ≡ c.payload
          → write_chunks fuel d.chunk_size c (plan c e) true payload ≡ some bytes
          → Received (drain_all on_chunk d (bytes ++ rest))
      go fuel [] p written = absurd (omega (arith, ap length p, send.filled))
      go zero (x ∷ xs) p written =
          absurd (write_chunks-zero d.chunk_size c (plan c e) true x xs bytes written)
      go (suc f) (x ∷ xs) p written =
          let n = min (length (x ∷ xs)) d.chunk_size in
          let piece = take n (x ∷ xs) in
          let (more, written', same) =
            write_chunks-suc f d.chunk_size c (plan c e) true x xs written in
          let header = write_header c (plan c e) true in
          let split : piece ++ drop n (x ∷ xs) ≡ c.payload = take-append-drop n (x ∷ xs) ∙ p in
          rw (written_shape header piece more bytes same) (
            advance d f (header ++ (piece ++ (more ++ rest))) piece (drop n (x ∷ xs)) more
              (λ t. refl)
              (decode_first piece (more ++ rest) he sync
                (omega (arith, ap length p, length-take n (x ∷ xs))))
              (omega (
                arith,
                length-write_header_pos c (plan c e) true (piece ++ (more ++ rest)),
                length-append piece (more ++ rest),
              ))
              split written'
              (receive_rest f piece (drop n (x ∷ xs)) more (omega (arith, length-take n (x ∷ xs)))
                split written'))
