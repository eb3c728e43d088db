-- ===== src/Chunk/Rounds.antt =====
-- The rounds of encoder and decoder on one message (protocol/chunk.rs, server/connection.rs).
use rtmp_rs.Prelude.{
  ℕ, zero, suc, ◌<◌, min, ◌≡◌, ◌≢◌, refl, ap, Bool, false, lt→ltb, none, some, map-eq-some, [], ◌∷◌,
  ◌++◌, arith, length, length-append, take, drop, is_empty, ok,
}
use rtmp_rs.Bytes.{Bytes}
use rtmp_rs.Chunk.State.{RtmpChunk, ChunkStreamState}
use rtmp_rs.Chunk.Decoder.{ChunkDecoder, decode, store, start_message, finish_chunk}
use rtmp_rs.Chunk.Encoder.{Plan, write_basic_header, write_header, write_chunks}
use rtmp_rs.Chunk.Sync.{Sendable, begun}
use rtmp_rs.Chunk.Receive.{hand_on, drain_all}
use rtmp_rs.Chunk.Progress.{drain_all-round}
use rtmp_rs.Chunk.Open.{put}

-- The decoder's state between two chunks of a message, and behind its last one.
abbrev pub midway : RtmpChunk → ChunkStreamState → ChunkStreamState → Bytes → ChunkStreamState
midway c e s front = record (begun c e s) {
  partial_message = front;
  expected_length = length c.payload;
}

abbrev pub ended : RtmpChunk → ChunkStreamState → ChunkStreamState → ChunkStreamState
ended c e s = record (begun c e s) { partial_message = []; expected_length = 0 }

-- A round of `write_chunks` in a loop that ends, and the end.
pub write_chunks-suc :
    (f size : ℕ) (c : RtmpChunk) (p : Plan) (first_chunk : Bool) (x : ℕ) (xs : Bytes)
    {bytes : Bytes}
    → write_chunks (suc f) size c p first_chunk (x ∷ xs) ≡ some bytes
    → let n = min (length (x ∷ xs)) size in
      (more : Bytes) × (write_chunks f size c p false (drop n (x ∷ xs)) ≡ some more)
      × (write_header c p first_chunk ++ (take n (x ∷ xs) ++ more) ≡ bytes)
unfolding write_chunks
write_chunks-suc f size c p first_chunk x xs h = map-eq-some _ _ h

pub write_chunks_nil :
    (f size : ℕ) (c : RtmpChunk) (p : Plan) (first_chunk : Bool)
    → write_chunks f size c p first_chunk [] ≡ some []
unfolding write_chunks
write_chunks_nil zero size c p first_chunk = refl
write_chunks_nil (suc f) size c p first_chunk = refl

pub write_chunks-zero :
    (size : ℕ) (c : RtmpChunk) (p : Plan) (first_chunk : Bool) (x : ℕ) (xs bytes : Bytes)
    → write_chunks zero size c p first_chunk (x ∷ xs) ≢ some bytes
unfolding write_chunks
write_chunks-zero size c p first_chunk x xs bytes h = cc

-- A chunk is at least its header long.
pub length-write_header_pos :
    (c : RtmpChunk) (p : Plan) (first_chunk : Bool) (tail : Bytes)
    → length tail < length (write_header c p first_chunk ++ tail)
unfolding write_header write_basic_header
length-write_header_pos c p first_chunk tail =
    ground (arith, length-append (write_header c p first_chunk) tail)

module _ (c : RtmpChunk) (e s : ChunkStreamState) (send : Sendable c e) where
  pub finish_complete :
      (whole rest : Bytes)
      → whole ≡ c.payload
      → finish_chunk c.csid (midway c e s whole) rest
        ≡ record { state = ended c e s; buf = rest; result = ok (some c) }
  unfolding finish_chunk
  finish_complete whole rest h = rw h (ground arith)

  pub finish_partial :
      (front rest : Bytes)
      → length front < length c.payload
      → finish_chunk c.csid (midway c e s front) rest
        ≡ record { state = midway c e s front; buf = rest; result = ok none }
  unfolding finish_chunk
  finish_partial front rest h = ground arith

pub length-is_empty : (xs : Bytes) → 0 < length xs → is_empty xs ≡ false
length-is_empty [] h = absurd (omega arith)
length-is_empty (x ∷ xs) h = refl

-- The reassembly buffer is set up at the first chunk and kept at the later ones.
pub start_message_first :
    (c : RtmpChunk) (e s : ChunkStreamState)
    → s.partial_message ≡ []
    → start_message (begun c e s) ≡ midway c e s []
unfolding start_message
start_message_first c e s h = ground (arith, ap is_empty h)

pub start_message_later :
    (c : RtmpChunk) (e s : ChunkStreamState) (front : Bytes)
    → 0 < length front
    → start_message (midway c e s front) ≡ midway c e s front
unfolding start_message
start_message_later c e s front h = rw (length-is_empty front h)

-- A round of the loop that reassembles a whole message, and one that does not.
pub round_complete :
    (on_chunk : RtmpChunk → ChunkDecoder → ChunkDecoder) (d : ChunkDecoder) (buf rest : Bytes)
    (csid : ℕ) (t : ChunkStreamState) (c : RtmpChunk)
    → decode d buf ≡ store d csid (record { state = t; buf = rest; result = ok (some c) })
    → drain_all on_chunk d buf ≡ hand_on c (drain_all on_chunk (on_chunk c (put d csid t)) rest)
round_complete on_chunk d buf rest csid t c h = rw (drain_all-round on_chunk d buf, h)

pub round_partial :
    (on_chunk : RtmpChunk → ChunkDecoder → ChunkDecoder) (d : ChunkDecoder) (buf rest : Bytes)
    (csid : ℕ) (t : ChunkStreamState)
    → length rest < length buf
    → decode d buf ≡ store d csid (record { state = t; buf = rest; result = ok none })
    → drain_all on_chunk d buf ≡ drain_all on_chunk (put d csid t) rest
round_partial on_chunk d buf rest csid t shorter h =
    rw (drain_all-round on_chunk d buf, h, lt→ltb _ _ shorter)
