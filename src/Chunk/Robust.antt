-- ===== src/Chunk/Robust.antt =====
-- The decoder and the server's receiving loop on any bytes at all (protocol/chunk.rs,
-- server/connection.rs).
use rtmp_rs.Prelude.{
  subst, ℕ, zero, suc, ◌≤◌, ◌<◌, ◌≡◌, ◌≢◌, refl, ap, ◌∙◌, inl, inr, Bool-cases, Option, none, some,
  arith, length, All, Result, ok, err, panic, ◌==◌, ltb,
}
use rtmp_rs.Prelude.Map.{insert, nat_eq, get}
use rtmp_rs.Bytes.{Bytes}
use rtmp_rs.Error.{ProtocolError}
use rtmp_rs.Chunk.State.{RtmpChunk, ChunkStreamState, entry, entry-insert, or_default}
use rtmp_rs.Chunk.Peek.{parse_basic_header}
use rtmp_rs.Chunk.Decoder.{
  ChunkDecoder, StreamResult, Decoded, decode, decode_header, decode_stream, set_chunk_size, abort,
  abort_known,
}
use rtmp_rs.Chunk.Decoder
use rtmp_rs.Chunk.Progress.{parse_basic_header_within}
use rtmp_rs.Chunk.Receive.{Drained, round, drain, drain_all}
use rtmp_rs.Chunk.Safety.{IsSound, Delivers, decode_stream-IsFine}

-- Every chunk stream of the decoder is sound.
pub record IsSoundDecoder (d : ChunkDecoder) : Type 0 where
  pub limit : d.max_message_size < 4294967296
  pub streams : (csid : ℕ) → IsSound d.max_message_size (entry d.streams csid)

pub new-IsSoundDecoder : IsSoundDecoder Decoder.new
unfolding Decoder.new entry
new-IsSoundDecoder = record { limit = omega arith; streams = λ csid. omega arith }

insert-IsSoundDecoder :
    (d : ChunkDecoder) (csid : ℕ) (s : ChunkStreamState)
    → IsSoundDecoder d
    → IsSound d.max_message_size s
    → IsSoundDecoder (record d { streams = insert d.streams csid s })
insert-IsSoundDecoder d csid s sound hs = record {
  limit = sound.limit;
  streams = λ j. elim (Bool-cases (csid == j)) [
    | inl t ↦ rw (entry-insert, t) hs
    | inr f ↦ rw (entry-insert, f) (sound.streams j)
  ];
}

-- On any bytes, a call of `decode` on a sound decoder does not panic, returns no message over the
-- limit, buffers no more than the limit on any chunk stream, and leaves a sound decoder.
pub decode-IsSoundDecoder :
    (d : ChunkDecoder) (buf : Bytes)
    → IsSoundDecoder d
    → IsSoundDecoder (decode d buf).decoder × Delivers d.max_message_size (decode d buf).result
unfolding decode
decode-IsSoundDecoder d buf sound = go (parse_basic_header buf) refl
  where
    go :
        (h : Option (ℕ × ℕ × ℕ))
        → parse_basic_header buf ≡ h
        → IsSoundDecoder (decode_header d buf h).decoder
          × Delivers d.max_message_size (decode_header d buf h).result
    go none e = (sound, tt)
    go (some (fmt, csid, n)) e =
        let (_, within, hf, _) = parse_basic_header_within buf fmt csid n e in
        let fine =
          decode_stream-IsFine d.chunk_size d.max_message_size (entry d.streams csid) buf fmt csid n
            (sound.streams csid) sound.limit hf within in
        (insert-IsSoundDecoder d csid _ sound fine.sound, fine.delivered)

entry_known :
    (d : ChunkDecoder) (csid : ℕ) (s : ChunkStreamState)
    → get d.streams csid ≡ some s
    → entry d.streams csid ≡ s
unfolding entry
entry_known d csid s e = ap or_default e

-- Aborting a chunk stream, whether it is known or not, leaves a sound decoder sound.
pub abort-IsSoundDecoder :
    (d : ChunkDecoder) (csid : ℕ) → IsSoundDecoder d → IsSoundDecoder (abort d csid)
unfolding abort
abort-IsSoundDecoder d csid sound = go (get d.streams csid) refl
  where
    go :
        (o : Option ChunkStreamState)
        → get d.streams csid ≡ o
        → IsSoundDecoder (abort_known d csid o)
    go none e = sound
    go (some s) e =
        let known : entry d.streams csid ≡ s = entry_known d csid s e in
        let before : IsSound d.max_message_size s =
          subst (IsSound d.max_message_size) known (sound.streams csid) in
        insert-IsSoundDecoder d csid _ sound
          (record { buffered = omega arith; expected = omega arith; stamped = before.stamped })

-- Setting the chunk size, to any value, leaves a sound decoder sound.
pub set_chunk_size-IsSoundDecoder :
    (d : ChunkDecoder) (size : ℕ) → IsSoundDecoder d → IsSoundDecoder (set_chunk_size d size)
unfolding set_chunk_size
set_chunk_size-IsSoundDecoder d size sound = record { limit = sound.limit; streams = sound.streams }

decode_limit :
    (d : ChunkDecoder) (buf : Bytes) → (decode d buf).decoder.max_message_size ≡ d.max_message_size
unfolding decode
decode_limit d buf = ground arith

-- Every message handed on is within the limit, and the last call of `decode` did not panic.
abbrev pub Robust : ℕ → Drained → Type 0
Robust max r = All (λ c. length c.payload ≤ max) r.messages × (r.last.result ≢ panic)

Delivers-ne-panic :
    (max : ℕ) (r : Result ProtocolError (Option RtmpChunk)) → Delivers max r → r ≢ panic
Delivers-ne-panic max (ok o) h e = cc
Delivers-ne-panic max (err x) h e = cc
Delivers-ne-panic max panic h e = h

module _ (on_chunk : RtmpChunk → ChunkDecoder → ChunkDecoder)
    (keeps : (c : RtmpChunk) (d : ChunkDecoder)
      → IsSoundDecoder d
      → IsSoundDecoder (on_chunk c d)
        × ((on_chunk c d).max_message_size ≡ d.max_message_size)) where
  drain-Robust :
      (fuel : ℕ) (max : ℕ) (d : ChunkDecoder) (buf : Bytes)
      → IsSoundDecoder d
      → d.max_message_size ≡ max
      → Robust max (drain fuel on_chunk d buf)
  unfolding drain
  drain-Robust zero max d buf sound same = (
    tt,
    Delivers-ne-panic d.max_message_size (decode d buf).result
        (decode-IsSoundDecoder d buf sound).1,
  )
  drain-Robust (suc f) max d buf sound same =
      let (after, delivered) = decode-IsSoundDecoder d buf sound in
      go (decode d buf) (decode d buf).result refl (decode_limit d buf ∙ same) after
        (subst (λ m. Delivers m (decode d buf).result) same delivered)
        (λ d' b hs hm. drain-Robust f max d' b hs hm)
    where
      go :
          (r : Decoded) (res : Result ProtocolError (Option RtmpChunk))
          → r.result ≡ res
          → r.decoder.max_message_size ≡ max
          → IsSoundDecoder r.decoder
          → Delivers max res
          → ((d' : ChunkDecoder) (b : Bytes)
              → IsSoundDecoder d'
              → d'.max_message_size ≡ max
              → Robust max (drain f on_chunk d' b))
          → Robust max (round (drain f on_chunk) on_chunk buf r res)
      go r (ok (some c)) e hm hs hd later =
          let (hs', hm') = keeps c r.decoder hs in
          let (small, calm) = later (on_chunk c r.decoder) r.buf hs' (hm' ∙ hm) in
          ((hd, small), calm)
      go r (ok none) e hm hs hd later = elim (Bool-cases (ltb (length r.buf) (length buf))) [
        | inl t ↦ rw t (later r.decoder r.buf hs hm)
        | inr t ↦ rw t (tt, λ q. cc (e, q))
      ]
      go r (err x) e hm hs hd later = (tt, λ q. cc (e, q))
      go r panic e hm hs hd later = absurd hd

  -- On any bytes, the receiving loop on a sound decoder ends in a call of `decode` that did not
  -- panic, and hands on no message over the limit, where handling a message keeps the decoder
  -- sound and its limit.
  pub drain_all-Robust :
      (d : ChunkDecoder) (buf : Bytes)
      → IsSoundDecoder d
      → Robust d.max_message_size (drain_all on_chunk d buf)
  unfolding drain_all
  drain_all-Robust d buf sound = drain-Robust (suc (length buf)) d.max_message_size d buf sound refl
