-- ===== src/Chunk/Receive.antt =====
-- The server's loop over the bytes it has read (`read_and_process`, server/connection.rs): it
-- decodes until a call neither returns a message nor takes a byte.
use rtmp_rs.Prelude.{
  ℕ, zero, suc, Option, none, some, List, [], ◌∷◌, if◌then◌else◌, ltb, length, Result, ok, err,
  panic,
}
use rtmp_rs.Bytes.{Bytes}
use rtmp_rs.Error.{ProtocolError}
use rtmp_rs.Chunk.State.{RtmpChunk}
use rtmp_rs.Chunk.Decoder.{ChunkDecoder, Decoded, decode}

-- The messages handed on, and how the last call of `decode` ended.
pub record Drained : Type 0 where
  pub messages : List RtmpChunk
  pub last : Decoded

abbrev pub hand_on : RtmpChunk → Drained → Drained
hand_on c r = record r { messages = c ∷ r.messages }

abbrev pub hand_on_all : List RtmpChunk → Drained → Drained
hand_on_all [] r = r
hand_on_all (c ∷ cs) r = hand_on c (hand_on_all cs r)

-- One round behind its call of `decode`, where `go` is the rest of the loop. `on_chunk` is what
-- handling a message does to the decoder (`handle_chunk`).
abbrev pub round :
    (ChunkDecoder → Bytes → Drained)
    → (RtmpChunk → ChunkDecoder → ChunkDecoder)
    → Bytes
    → Decoded
    → Result ProtocolError (Option RtmpChunk)
    → Drained
round go on_chunk buf r (ok (some c)) = hand_on c (go (on_chunk c r.decoder) r.buf)
round go on_chunk buf r (ok none) =
    if ltb (length r.buf) (length buf)
    then go r.decoder r.buf
    else record { messages = []; last = r }
round go on_chunk buf r (err e) = record { messages = []; last = r }
round go on_chunk buf r panic = record { messages = []; last = r }

-- Each round takes a byte at least, so a fuel above the buffer's length is enough.
unfoldable pub drain :
    ℕ → (RtmpChunk → ChunkDecoder → ChunkDecoder) → ChunkDecoder → Bytes → Drained
drain zero on_chunk d buf = record { messages = []; last = decode d buf }
drain (suc fuel) on_chunk d buf =
    let r = decode d buf in round (drain fuel on_chunk) on_chunk buf r r.result

-- The loop over all bytes that are there.
unfoldable pub drain_all :
    (RtmpChunk → ChunkDecoder → ChunkDecoder) → ChunkDecoder → Bytes → Drained
drain_all on_chunk d buf = drain (suc (length buf)) on_chunk d buf
