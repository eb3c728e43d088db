-- ===== src/Chunk/Pair.antt =====
-- An encoder and the decoder at the other end, over all chunk streams and any sequence of messages
-- (protocol/chunk.rs, server/connection.rs).
use mathlib.Core.Option
use rtmp_rs.Prelude.{
  ℕ, zero, suc, ◌≤◌, ◌<◌, min, ◌≡◌, refl, ap, ◌∙◌, Bool, true, false, inl, inr, Bool-cases, Option,
  none, some, List, [], ◌∷◌, ◌++◌, arith, length, take, drop, length-drop, append_assoc, All, ◌==◌,
}
use rtmp_rs.Prelude.Map.{insert, nat_eq}
use rtmp_rs.Bytes.{Bytes}
use rtmp_rs.Constants.{max_message_size as message_size_limit}
use rtmp_rs.Chunk.State.{RtmpChunk, ChunkStreamState, entry, entry-insert}
use rtmp_rs.Chunk.Decoder.{ChunkDecoder}
use rtmp_rs.Chunk.Decoder
use rtmp_rs.Chunk.Encoder.{
  ChunkEncoder, Plan, write_header, plan, wrapping_sub, write_chunks, sent_state, encode,
  encode_within,
}
use rtmp_rs.Chunk.Encoder
use rtmp_rs.Chunk.Sync.{InSync, Sendable}
use rtmp_rs.Chunk.Receive.{hand_on, hand_on_all, drain_all}
use rtmp_rs.Chunk.Open.{put}
use rtmp_rs.Chunk.Rounds.{ended}
use rtmp_rs.Chunk.RoundTrip.{receive_message}

-- Encoder and decoder agree on the chunk size and are in step on every chunk stream.
pub record Paired (e : ChunkEncoder) (d : ChunkDecoder) : Type 0 where
  pub same_size : d.chunk_size ≡ e.chunk_size
  pub positive : 0 < e.chunk_size
  pub limit : d.max_message_size ≡ message_size_limit
  pub streams : (csid : ℕ) → InSync (entry e.streams csid) (entry d.streams csid)

-- A new encoder and a new decoder are a pair.
pub new-Paired : Paired Encoder.new Decoder.new
unfolding Encoder.new Decoder.new entry
new-Paired = record {
  same_size = refl;
  positive = omega arith;
  limit = refl;
  streams = λ csid. ground arith;
}

-- The encoder after a message.
abbrev pub after : ChunkEncoder → RtmpChunk → ChunkEncoder
after e c = record e { streams = insert e.streams c.csid (sent_state c (entry e.streams c.csid)) }

write_chunks_enough :
    (fuel size : ℕ) (c : RtmpChunk) (p : Plan) (first_chunk : Bool) (payload : Bytes)
    → 0 < size
    → length payload ≤ fuel
    → (bytes : Bytes) × (write_chunks fuel size c p first_chunk payload ≡ some bytes)
unfolding write_chunks
write_chunks_enough zero size c p first_chunk [] hs hf = ([], refl)
write_chunks_enough (suc f) size c p first_chunk [] hs hf = ([], refl)
write_chunks_enough zero size c p first_chunk (x ∷ xs) hs hf = absurd (omega arith)
write_chunks_enough (suc f) size c p first_chunk (x ∷ xs) hs hf =
    let n = min (length (x ∷ xs)) size in
    let (more, h) =
      write_chunks_enough f size c p false (drop n (x ∷ xs)) hs
        (omega (arith, length-drop n (x ∷ xs))) in
    (write_header c p first_chunk ++ (take n (x ∷ xs) ++ more), rw h)

-- With a positive chunk size the loop of `encode` ends on every message, and `encode` leaves the
-- encoder that `after` gives.
pub encode_total :
    (e : ChunkEncoder) (c : RtmpChunk)
    → 0 < e.chunk_size
    → (bytes : Bytes) × (encode e c ≡ some (after e c, bytes))
unfolding encode encode_within
encode_total e c h =
    let (bytes, written) =
      write_chunks_enough (length c.payload) e.chunk_size c (plan c (entry e.streams c.csid)) true
        c.payload h (omega arith) in
    (bytes, rw written)

write_chunks_stuck :
    (fuel : ℕ) (c : RtmpChunk) (p : Plan) (first_chunk : Bool) (payload : Bytes)
    → 0 < length payload
    → write_chunks fuel 0 c p first_chunk payload ≡ none
unfolding write_chunks
write_chunks_stuck fuel c p first_chunk [] h = absurd (omega arith)
write_chunks_stuck zero c p first_chunk (x ∷ xs) h = refl
write_chunks_stuck (suc f) c p first_chunk (x ∷ xs) h =
    let nothing : min (length (x ∷ xs)) 0 ≡ 0 = omega arith in
    rw (nothing, write_chunks_stuck f c p false (x ∷ xs) h)

-- With chunk size 0, which `set_chunk_size` accepts, no number of rounds ends the loop of `encode`
-- on a message that is not empty.
pub encode_within-zero :
    (fuel : ℕ) (e : ChunkEncoder) (c : RtmpChunk)
    → 0 < length c.payload
    → encode_within fuel (Encoder.set_chunk_size e 0) c ≡ none
unfolding encode_within Encoder.set_chunk_size
encode_within-zero fuel e c filled =
    rw (write_chunks_stuck fuel c (plan c (entry e.streams c.csid)) true c.payload filled)

sent_state-InSync :
    (c : RtmpChunk) (e s : ChunkStreamState) → Sendable c e → InSync (sent_state c e) (ended c e s)
unfolding sent_state
sent_state-InSync c e s send = ground arith

-- A message keeps both ends in step, on its own chunk stream and on every other.
pub after-Paired :
    (e : ChunkEncoder) (d : ChunkDecoder) (c : RtmpChunk)
    → Paired e d
    → Sendable c (entry e.streams c.csid)
    → Paired (after e c) (put d c.csid (ended c (entry e.streams c.csid) (entry d.streams c.csid)))
after-Paired e d c pair send = record {
  same_size = pair.same_size;
  positive = pair.positive;
  limit = pair.limit;
  streams = λ csid. elim (Bool-cases (c.csid == csid)) [
    | inl t ↦
        simp (entry-insert, t)
          (sent_state-InSync c (entry e.streams c.csid) (entry d.streams c.csid) send)
    | inr f ↦ simp (entry-insert, f) (pair.streams csid)
  ];
}

-- What `encode` writes for a message, the receiving loop hands on as that message, whatever follows
-- it in the buffer, and both ends are in step again.
pub drain_all-encode :
    (on_chunk : RtmpChunk → ChunkDecoder → ChunkDecoder) (e : ChunkEncoder) (d : ChunkDecoder)
    (c : RtmpChunk)
    → Paired e d
    → Sendable c (entry e.streams c.csid)
    → (bytes : Bytes) × (d' : ChunkDecoder) × (encode e c ≡ some (after e c, bytes))
      × Paired (after e c) d'
      × ((rest : Bytes)
          → drain_all on_chunk d (bytes ++ rest)
            ≡ hand_on c (drain_all on_chunk (on_chunk c d') rest))
unfolding encode encode_within
drain_all-encode on_chunk e d c pair send =
    let s = entry d.streams c.csid in
    let es = entry e.streams c.csid in
    let (bytes, written) =
      write_chunks_enough (length c.payload) e.chunk_size c (plan c es) true c.payload pair.positive
        (omega arith) in
    (
      bytes,
      put d c.csid (ended c es s),
      rw written,
      after-Paired e d c pair send,
      λ rest.
          receive_message on_chunk d c es s rest send (omega (arith, pair.positive, pair.same_size))
            pair.limit (length c.payload) bytes refl (pair.streams c.csid)
            (rw pair.same_size written),
    )

abbrev encode_next :
    Option (ChunkEncoder × Bytes)
    → (ChunkEncoder → Option (ChunkEncoder × Bytes))
    → Option (ChunkEncoder × Bytes)
encode_next none more = none
encode_next (some (e, bytes)) more = Option.map (λ r. (r.0, bytes ++ r.1)) (more e)

-- All messages encoded in order into one buffer.
unfoldable pub encode_all : ChunkEncoder → List RtmpChunk → Option (ChunkEncoder × Bytes)
encode_all e [] = some (e, [])
encode_all e (c ∷ cs) = encode_next (encode e c) (λ e'. encode_all e' cs)

-- Each message is sendable after those before it.
abbrev pub AllSendable : ChunkEncoder → List RtmpChunk → Type 0
AllSendable e [] = Unit
AllSendable e (c ∷ cs) = Sendable c (entry e.streams c.csid) × AllSendable (after e c) cs

-- Any sequence of sendable messages, on any chunk streams, encoded into one buffer, comes out of the
-- receiving loop as that sequence, whatever follows in the buffer, and both ends are in step again.
-- The messages are such that handling them leaves the decoder alone.
pub drain_all-encode_all :
    (on_chunk : RtmpChunk → ChunkDecoder → ChunkDecoder) (cs : List RtmpChunk) (e : ChunkEncoder)
    (d : ChunkDecoder)
    → Paired e d
    → AllSendable e cs
    → All (λ c. (d : ChunkDecoder) → on_chunk c d ≡ d) cs
    → (e' : ChunkEncoder) × (bytes : Bytes) × (d' : ChunkDecoder) × (encode_all e cs
        ≡ some (e', bytes))
      × Paired e' d'
      × ((rest : Bytes)
          → drain_all on_chunk d (bytes ++ rest) ≡ hand_on_all cs (drain_all on_chunk d' rest))
unfolding encode_all
drain_all-encode_all on_chunk [] e d pair send quiet = (e, [], d, refl, pair, λ rest. refl)
drain_all-encode_all on_chunk (c ∷ cs) e d pair send quiet =
    let (bytes, d₁, written, pair₁, got) = drain_all-encode on_chunk e d c pair send.0 in
    let (e', more, d', written', pair', got') =
      drain_all-encode_all on_chunk cs (after e c) d₁ pair₁ send.1 quiet.1 in
    (
      e',
      bytes ++ more,
      d',
      rw (written, written'),
      pair',
      λ rest.
          ap (drain_all on_chunk d) (append_assoc bytes more rest)
          ∙ got (more ++ rest)
          ∙ ap (λ d. hand_on c (drain_all on_chunk d (more ++ rest))) (quiet.0 d₁)
          ∙ ap (hand_on c) (got' rest),
    )
