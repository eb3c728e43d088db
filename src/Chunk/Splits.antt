-- ===== src/Chunk/Splits.antt =====
-- The receiving loop on bytes that come in two reads (protocol/chunk.rs, server/connection.rs).
use rtmp_rs.Prelude.{
  ℕ, zero, suc, ◌≤◌, ◌<◌, ◌≡◌, refl, sym, ap, ◌∙◌, subst, true, inl, inr, Bool-cases, Option, none,
  some, ◌++◌, arith, length, length-append, length-drop, drop, Result, ok, err, panic, ltb, ltb→lt,
  ltb→le, lt→ltb,
}
use rtmp_rs.Prelude.Map.{nat_eq}
use rtmp_rs.Bytes.{Bytes}
use rtmp_rs.Error.{ProtocolError}
use rtmp_rs.Chunk.State.{RtmpChunk, ChunkStreamState, entry}
use rtmp_rs.Chunk.Peek.{parse_basic_header, whole_chunk}
use rtmp_rs.Chunk.Decoder.{ChunkDecoder, store, decode, decode_header, decode_stream, when_whole}
use rtmp_rs.Chunk.Progress.{
  parse_basic_header_within, Takes, decode-Takes, consume_takes, drain_all-round,
}
use rtmp_rs.Chunk.Receive.{Drained, hand_on, hand_on_all, round, drain_all}
use rtmp_rs.Chunk.Robust.{IsSoundDecoder, decode-IsSoundDecoder}
use rtmp_rs.Chunk.Open.{put, put-put, entry-put}
use rtmp_rs.Chunk.Fragments.{parse_basic_header-append, decode-append}

-- Replacing a chunk stream's state by itself is seen by no later call on that chunk stream.
decode_header-put :
    (d : ChunkDecoder) (csid fmt n : ℕ) (buf : Bytes)
    → decode_header (put d csid (entry d.streams csid)) buf (some (fmt, csid, n))
      ≡ decode_header d buf (some (fmt, csid, n))
decode_header-put d csid fmt n buf =
    let s = entry d.streams csid in
    let at =
      λ (t : ChunkStreamState). decode_stream d.chunk_size d.max_message_size t buf fmt csid n in
    ap (λ t. store (put d csid s) csid (at t)) (entry-put d csid s)
    ∙ ap (λ k. record { decoder = k; buf = (at s).buf; result = (at s).result })
        (put-put d csid s (at s).state)

-- A call that returned nothing and took nothing changed nothing that a later call sees.
decode_idle :
    (d : ChunkDecoder) (buf more : Bytes)
    → (decode d buf).result ≡ ok none
    → length buf ≤ length (decode d buf).buf
    → ((decode d buf).buf ≡ buf)
      × (decode (decode d buf).decoder (buf ++ more) ≡ decode d (buf ++ more))
unfolding decode decode_stream
decode_idle d buf more nothing stays = go (parse_basic_header buf) refl nothing stays
  where
    whole :
        (fmt csid n : ℕ) (w : Result ProtocolError (Option ℕ))
        → parse_basic_header buf ≡ some (fmt, csid, n)
        → let r = when_whole d.max_message_size (entry d.streams csid) buf fmt csid n w in
          r.result ≡ ok none
          → length buf ≤ length r.buf
          → (r.buf ≡ buf) × (decode (put d csid r.state) (buf ++ more) ≡ decode d (buf ++ more))
    whole fmt csid n (ok (some k)) e q stays =
        let (pos, within, _, _) = parse_basic_header_within buf fmt csid n e in
        absurd (
          omega (
            arith,
            consume_takes d.max_message_size (entry d.streams csid) fmt csid k (drop n buf),
            length-drop n buf,
          ))
    whole fmt csid n (ok none) e q stays = (
      refl,
      rw (parse_basic_header-append buf more e) (decode_header-put d csid fmt n (buf ++ more)),
    )
    whole fmt csid n (err x) e q stays = cc
    whole fmt csid n panic e q stays = cc

    go :
        (h : Option (ℕ × ℕ × ℕ))
        → parse_basic_header buf ≡ h
        → (decode_header d buf h).result ≡ ok none
        → length buf ≤ length (decode_header d buf h).buf
        → ((decode_header d buf h).buf ≡ buf)
          × (decode (decode_header d buf h).decoder (buf ++ more) ≡ decode d (buf ++ more))
    go none e q stays = (refl, refl)
    go (some (fmt, csid, n)) e q stays =
        whole fmt csid n (whole_chunk d.chunk_size (entry d.streams csid) buf fmt n) e q stays

module _ (on_chunk : RtmpChunk → ChunkDecoder → ChunkDecoder)
    (keeps : (c : RtmpChunk) (d : ChunkDecoder) → IsSoundDecoder d → IsSoundDecoder (on_chunk c d))
    (more : Bytes) where
  -- The loop over both reads is the loop over the first, then the loop over what it left and the
  -- second read.
  abbrev Splits : Drained → Drained → Type 0
  Splits whole first =
      whole
      ≡ hand_on_all first.messages (drain_all on_chunk first.last.decoder (first.last.buf ++ more))

  drain_all-append_within :
      (k : ℕ) (d : ChunkDecoder) (buf : Bytes)
      → length buf < k
      → IsSoundDecoder d
      → (drain_all on_chunk d buf).last.result ≡ ok none
      → Splits (drain_all on_chunk d (buf ++ more)) (drain_all on_chunk d buf)
  drain_all-append_within zero d buf hk sound fine = absurd (omega arith)
  drain_all-append_within (suc k) d buf hk sound fine =
      let (after, _) = decode-IsSoundDecoder d buf sound in
      rw (drain_all-round on_chunk d buf) (
        go (decode d buf).result refl after (decode-Takes d buf)
          (subst (λ r. r.last.result ≡ ok none) (drain_all-round on_chunk d buf) fine)
          (λ d' b hb hs. drain_all-append_within k d' b (omega arith) hs))
    where
      -- A call that took bytes.
      taken :
          length (decode d buf).buf < length buf
          → drain_all on_chunk d (buf ++ more)
            ≡ round
                (drain_all on_chunk)
                on_chunk
                (buf ++ more)
                (record (decode d buf) { buf = (decode d buf).buf ++ more })
                (decode d buf).result
      taken h =
          drain_all-round on_chunk d (buf ++ more)
          ∙ ap (λ r. round (drain_all on_chunk) on_chunk (buf ++ more) r r.result)
              (decode-append d buf more sound h)

      go :
          (res : Result ProtocolError (Option RtmpChunk))
          → (decode d buf).result ≡ res
          → IsSoundDecoder (decode d buf).decoder
          → Takes buf (decode d buf).buf res
          → (round (drain_all on_chunk) on_chunk buf (decode d buf) res).last.result ≡ ok none
          → ((d' : ChunkDecoder) (b : Bytes)
              → length b < length buf
              → IsSoundDecoder d'
              → (drain_all on_chunk d' b).last.result ≡ ok none
              → Splits (drain_all on_chunk d' (b ++ more)) (drain_all on_chunk d' b))
          → Splits
              (drain_all on_chunk d (buf ++ more))
              (round (drain_all on_chunk) on_chunk buf (decode d buf) res)
      go (ok (some c)) e hs took fine later =
          taken took
          ∙ rw e (
              ap (hand_on c) (
                later (on_chunk c (decode d buf).decoder) (decode d buf).buf took
                  (keeps c (decode d buf).decoder hs) fine))
      go (ok none) e hs took fine later =
          elim (Bool-cases (ltb (length (decode d buf).buf) (length buf))) [
            | inl t ↦
                let shorter = ltb→lt _ _ t in
                let still : ltb (length ((decode d buf).buf ++ more)) (length (buf ++ more))
                    ≡ true =
                  lt→ltb _ _ (
                    omega (arith, length-append buf more, length-append (decode d buf).buf more)) in
                rw t (
                  taken shorter
                  ∙ rw (e, still)
                      (later (decode d buf).decoder (decode d buf).buf shorter hs (rw t at fine)))
            | inr f ↦
                let (same, sees) = decode_idle d buf more e (ltb→le _ _ f) in
                let idle = (decode d buf).decoder in
                rw f (
                  drain_all-round on_chunk d (buf ++ more)
                  ∙ ap (λ r. round (drain_all on_chunk) on_chunk (buf ++ more) r r.result)
                      (sym sees)
                  ∙ sym (drain_all-round on_chunk idle (buf ++ more))
                  ∙ ap (λ b. drain_all on_chunk idle (b ++ more)) (sym same))
          ]
      go (err x) e hs took fine later = cc (e, fine)
      go panic e hs took fine later = cc (e, fine)

  -- Bytes that arrive in two reads are received as if they had arrived in one, on any bytes that
  -- the decoder does not refuse: the same messages, and what is left is what one read leaves.
  pub drain_all-append :
      (d : ChunkDecoder) (buf : Bytes)
      → IsSoundDecoder d
      → (drain_all on_chunk d buf).last.result ≡ ok none
      → let first = drain_all on_chunk d buf in
        drain_all on_chunk d (buf ++ more)
        ≡ hand_on_all first.messages
            (drain_all on_chunk first.last.decoder (first.last.buf ++ more))
  drain_all-append d buf sound fine =
      drain_all-append_within (suc (length buf)) d buf (omega arith) sound fine
