-- ===== src/Chunk/Tests.antt =====
-- Runs of the codec, and its theorems at messages of two chunk streams.
use rtmp_rs.Prelude.{◌≡◌, refl, Option, none, some, [], ◌∷◌, ◌++◌, ok, arith, ◌<◌, length}
use rtmp_rs.Prelude.Map.{insert}
use rtmp_rs.Bytes.{Bytes}
use rtmp_rs.Chunk.State.{RtmpChunk, entry}
use rtmp_rs.Chunk.Decoder
use rtmp_rs.Chunk.Decoder.{
  ChunkDecoder, decode, decode_stream, consume, read_message_header, read_timestamp, update_state,
  check_size, abort,
}
use rtmp_rs.Chunk.Peek.{parse_basic_header, whole_chunk}
use rtmp_rs.Chunk.Encoder
use rtmp_rs.Chunk.Encoder.{
  ChunkEncoder, encode, encode_within, plan, write_chunks, write_header, write_basic_header,
  write_message_header, write_extended, sent_state, select_format,
}
use rtmp_rs.Chunk.Sync.{Sendable}
use rtmp_rs.Chunk.Receive.{hand_on, hand_on_all, drain_all, drain}
use rtmp_rs.Chunk.Fields.{parse_basic_header-write_basic_header}
use rtmp_rs.Chunk.Progress.{drain_fuel}
use rtmp_rs.Chunk.Robust.{new-IsSoundDecoder, Robust, drain_all-Robust}
use rtmp_rs.Chunk.Splits.{drain_all-append}
use rtmp_rs.Chunk.Pair.{
  Paired, new-Paired, after, encode_total, encode_within-zero, drain_all-encode, encode_all,
  AllSendable, drain_all-encode_all,
}

abbrev small : RtmpChunk
small = record {
  csid = 3;
  timestamp = 1000;
  message_type = 20;
  stream_id = 0;
  payload = 7 ∷ 8 ∷ 9 ∷ [];
}

-- On a chunk stream with a basic header of two bytes.
abbrev video_message : RtmpChunk
video_message = record {
  csid = 70;
  timestamp = 40;
  message_type = 9;
  stream_id = 1;
  payload = 23 ∷ 1 ∷ 0 ∷ 0 ∷ 0 ∷ [];
}

abbrev sent : Option (ChunkEncoder × Bytes) → Bytes
sent none = []
sent (some (e, b)) = b

-- What a run of the codec computes with.
runs : Unit {0}
unfolding decode decode_stream parse_basic_header whole_chunk consume read_message_header
    read_timestamp update_state check_size entry encode encode_within plan write_chunks write_header
    write_basic_header write_message_header write_extended sent_state Decoder.new Encoder.new drain
    drain_all Encoder.set_chunk_size Decoder.set_chunk_size insert
runs = tt

small_round_trip : (decode Decoder.new (sent (encode Encoder.new small))).result ≡ ok (some small)
unfolding runs
small_round_trip = refl

-- The bytes of `small`, and the first eight of them.
abbrev whole_bytes : Bytes
whole_bytes = 3 ∷ 0 ∷ 3 ∷ 232 ∷ 0 ∷ 0 ∷ 3 ∷ 20 ∷ 0 ∷ 0 ∷ 0 ∷ 0 ∷ 7 ∷ 8 ∷ 9 ∷ []

abbrev half_bytes : Bytes
half_bytes = 3 ∷ 0 ∷ 3 ∷ 232 ∷ 0 ∷ 0 ∷ 3 ∷ 20 ∷ []

small_bytes : sent (encode Encoder.new small) ≡ whole_bytes
unfolding runs
small_bytes = refl

-- In chunks of two bytes.
small_in_two_chunks :
    (drain_all
      (λ c d. d)
      (Decoder.set_chunk_size Decoder.new 2)
      (sent (encode (Encoder.set_chunk_size Encoder.new 2) small))).messages
    ≡ small ∷ []
unfolding runs
small_in_two_chunks = refl

small-Sendable : Sendable small (entry Encoder.new.streams small.csid)
unfolding entry Encoder.new
small-Sendable = record {
  csid_low = omega arith;
  csid_high = omega arith;
  plain = omega arith;
  forward = omega arith;
  stream_range = omega arith;
  filled = omega arith;
  short = omega arith;
  restart = λ h. refl;
}

video-Sendable : Sendable video_message (entry (after Encoder.new small).streams video_message.csid)
unfolding entry Encoder.new insert
video-Sendable = record {
  csid_low = omega arith;
  csid_high = omega arith;
  plain = omega arith;
  forward = omega arith;
  stream_range = omega arith;
  filled = omega arith;
  short = omega arith;
  restart = λ h. refl;
}

-- Handling that leaves the decoder alone.
abbrev ignore : RtmpChunk → ChunkDecoder → ChunkDecoder
ignore c d = d

two-AllSendable : AllSendable Encoder.new (small ∷ video_message ∷ [])
two-AllSendable = (small-Sendable, (video-Sendable, tt))

drain_all-encode_all_example :
    (e' : ChunkEncoder) × (bytes : Bytes) × (d' : ChunkDecoder) × (encode_all Encoder.new
        (small ∷ video_message ∷ [])
      ≡ some (e', bytes))
    × Paired e' d'
    × ((rest : Bytes)
        → drain_all ignore Decoder.new (bytes ++ rest)
          ≡ hand_on_all (small ∷ video_message ∷ []) (drain_all ignore d' rest))
drain_all-encode_all_example =
    drain_all-encode_all ignore (small ∷ video_message ∷ []) Encoder.new Decoder.new new-Paired
      two-AllSendable (λ d. refl, (λ d. refl, tt))

drain_all-encode_example :
    (bytes : Bytes) × (d' : ChunkDecoder) × (encode Encoder.new small
      ≡ some (after Encoder.new small, bytes))
    × Paired (after Encoder.new small) d'
    × ((rest : Bytes)
        → drain_all ignore Decoder.new (bytes ++ rest)
          ≡ hand_on small (drain_all ignore (ignore small d') rest))
drain_all-encode_example =
    drain_all-encode ignore Encoder.new Decoder.new small new-Paired small-Sendable

encode_total_example :
    (bytes : Bytes) × (encode Encoder.new small ≡ some (after Encoder.new small, bytes))
unfolding Encoder.new
encode_total_example = encode_total Encoder.new small (omega arith)

encode_within-zero_example : encode_within 1000 (Encoder.set_chunk_size Encoder.new 0) small ≡ none
encode_within-zero_example = encode_within-zero 1000 Encoder.new small (omega arith)

drain_fuel_example :
    drain 20 ignore Decoder.new whole_bytes ≡ drain 1000 ignore Decoder.new whole_bytes
drain_fuel_example = drain_fuel 20 1000 ignore Decoder.new whole_bytes (omega arith) (omega arith)

parse_basic_header-write_basic_header_example :
    parse_basic_header (write_basic_header 70 2 ++ (5 ∷ []))
    ≡ some (2, 70, length (write_basic_header 70 2))
parse_basic_header-write_basic_header_example =
    parse_basic_header-write_basic_header 70 2 (5 ∷ []) (omega arith) (omega arith) (omega arith)

drain_all-Robust_example :
    Robust Decoder.new.max_message_size (drain_all ignore Decoder.new whole_bytes)
drain_all-Robust_example =
    drain_all-Robust ignore (λ c d sound. (sound, refl)) Decoder.new whole_bytes new-IsSoundDecoder

whole_taken : length (decode Decoder.new whole_bytes).buf < length whole_bytes
unfolding runs
whole_taken = omega arith

half_fine : (drain_all ignore Decoder.new half_bytes).last.result ≡ ok none
unfolding runs
half_fine = refl

drain_all-append_example :
    let first = drain_all ignore Decoder.new half_bytes in
    drain_all ignore Decoder.new (half_bytes ++ (0 ∷ 0 ∷ 0 ∷ 0 ∷ 7 ∷ 8 ∷ 9 ∷ []))
    ≡ hand_on_all first.messages
        (drain_all ignore first.last.decoder (first.last.buf ++ (0 ∷ 0 ∷ 0 ∷ 0 ∷ 7 ∷ 8 ∷ 9 ∷ [])))
drain_all-append_example =
    drain_all-append ignore (λ c d sound. sound) (0 ∷ 0 ∷ 0 ∷ 0 ∷ 7 ∷ 8 ∷ 9 ∷ []) Decoder.new
      half_bytes new-IsSoundDecoder half_fine
