-- ===== src/Message/Total.antt =====
-- Parsing ends on every chunk, with a message or an error (protocol/message.rs).
use rtmp_rs.Prelude.{
  ℕ, zero, suc, ◌≤◌, ◌<◌, Bool, true, false, Option, none, some, [], ◌∷◌, if◌then◌else◌, ◌%◌, ◌==◌,
  length, Result, ok, err, panic, arith,
}
use rtmp_rs.Bytes.{Bytes}
use rtmp_rs.Constants.{
  msg_set_chunk_size, msg_abort, msg_acknowledgement, msg_user_control, msg_window_ack_size,
  msg_set_peer_bandwidth, msg_audio, msg_video, msg_command_amf0, msg_command_amf3, msg_data_amf0,
  msg_data_amf3, msg_aggregate,
}
use rtmp_rs.Chunk.State.{RtmpChunk}
use rtmp_rs.Amf.Value.{AmfValue, null, string, Elements, no_elements, push_element}
use rtmp_rs.Amf.Reads
use rtmp_rs.Amf.Decoder
use rtmp_rs.Amf.Reads.{AmfError, unexpected_eof, Amf0Decoder, Step}
use rtmp_rs.Amf.Decoder.{decode}
use rtmp_rs.Amf.Ends.{Leaves, Ends}
use rtmp_rs.Amf.Total.{decode-Ends}
use rtmp_rs.Message.Types.{
  RtmpMessage, set_chunk_size, abort, acknowledgement, window_ack_size, command, command_amf3,
  data_message, data_amf3,
}
use rtmp_rs.Message.Parse.{
  Parsed, and_then, decoded, next_value, after_value, map_parsed, parse_values, parse_rest,
  parse_object, with_object, with_name, with_handler, command_of, data_of, transaction_of, name_of,
  parse_command, parse_data, skip_marker, parse_u32, parse_bandwidth, parse_user_control, parse,
  from_chunk,
}

-- A parser has come to an end without a panic.
abbrev pub Answers : {A : Type 0} → Parsed A → Type 0
Answers none = ⊥
Answers (some (ok a)) = Unit
Answers (some (err e)) = Unit
Answers (some panic) = ⊥

map_parsed-Answers :
    {A B : Type 0} (f : A → B) (p : Parsed A) → Answers p → Answers (map_parsed f p)
map_parsed-Answers f none h = h
map_parsed-Answers f (some (ok a)) h = tt
map_parsed-Answers f (some (err e)) h = tt
map_parsed-Answers f (some panic) h = h

if-Answers :
    {A : Type 0} (t : Bool) (p q : Parsed A) → Answers p → Answers q → Answers (if t then p else q)
if-Answers true p q h k = h
if-Answers false p q h k = k

decoded-Answers :
    {A : Type 0} (go : Amf0Decoder → Bytes → AmfValue → Parsed A) (s : Step AmfValue) (n : ℕ)
    (r : Result AmfError AmfValue)
    → Leaves n s.buf r
    → ((d : Amf0Decoder) (b : Bytes) (v : AmfValue) → length b < n → Answers (go d b v))
    → Answers (decoded go s r)
decoded-Answers go s n (ok v) h step = step s.decoder s.buf v h
decoded-Answers go s n (err e) h step = tt
decoded-Answers go s n panic h step = h

and_then-Answers :
    {A : Type 0} (go : Amf0Decoder → Bytes → AmfValue → Parsed A) (o : Option (Step AmfValue))
    (n : ℕ)
    → Ends n o
    → ((d : Amf0Decoder) (b : Bytes) (v : AmfValue) → length b < n → Answers (go d b v))
    → Answers (and_then o go)
and_then-Answers go none n h step = h
and_then-Answers go (some s) n h step = decoded-Answers go s n s.result h step

after_value-Answers :
    (go : Amf0Decoder → Bytes → Elements → Parsed Elements) (vs : Elements) (s : Step AmfValue)
    (n : ℕ) (r : Result AmfError AmfValue)
    → Leaves n s.buf r
    → ((d : Amf0Decoder) (b : Bytes) (ws : Elements) → length b < n → Answers (go d b ws))
    → Answers (after_value go vs s r)
after_value-Answers go vs s n (ok v) h step = step s.decoder s.buf (push_element vs v) h
after_value-Answers go vs s n (err e) h step = on e
  where
    on : (e : AmfError) → Answers (after_value go vs s (err e))
    on Reads.unexpected_eof = tt
    on (Reads.unknown_marker m) = tt
    on (Reads.invalid_reference i) = tt
    on Reads.invalid_utf8 = tt
    on Reads.nesting_too_deep = tt
    on Reads.invalid_object_end = tt
after_value-Answers go vs s n panic h step = h

next_value-Answers :
    (go : Amf0Decoder → Bytes → Elements → Parsed Elements) (vs : Elements)
    (o : Option (Step AmfValue)) (n : ℕ)
    → Ends n o
    → ((d : Amf0Decoder) (b : Bytes) (ws : Elements) → length b < n → Answers (go d b ws))
    → Answers (next_value go vs o)
next_value-Answers go vs none n h step = h
next_value-Answers go vs (some s) n h step = after_value-Answers go vs s n s.result h step

parse_values-Answers :
    (f : ℕ) (d : Amf0Decoder) (buf : Bytes) (vs : Elements)
    → length buf ≤ f
    → Answers (parse_values f d buf vs)
unfolding parse_values
parse_values-Answers zero d [] vs h = tt
parse_values-Answers (suc f) d [] vs h = tt
parse_values-Answers zero d (m ∷ buf) vs h = absurd (omega arith)
parse_values-Answers (suc f) d (m ∷ buf) vs h =
    next_value-Answers (λ d' b ws. parse_values f d' b ws) vs (decode d (m ∷ buf))
      (suc (length buf)) (decode-Ends d (m ∷ buf))
      (λ d' b ws lt. parse_values-Answers f d' b ws (omega arith))

parse_rest-Answers : (d : Amf0Decoder) (buf : Bytes) → Answers (parse_rest d buf)
parse_rest-Answers d buf = parse_values-Answers (length buf) d buf no_elements (omega arith)

with_object-Answers :
    (sid : ℕ) (name : Bytes) (t : ℕ) (d : Amf0Decoder) (buf : Bytes) (v : AmfValue)
    → Answers (with_object sid name t d buf v)
with_object-Answers sid name t d buf v =
    map_parsed-Answers (command_of sid name t v) (parse_rest d buf) (parse_rest-Answers d buf)

parse_object-Answers :
    (sid : ℕ) (name : Bytes) (t : ℕ) (d : Amf0Decoder) (buf : Bytes)
    → Answers (parse_object sid name t d buf)
parse_object-Answers sid name t d [] = with_object-Answers sid name t d [] null
parse_object-Answers sid name t d (m ∷ buf) =
    and_then-Answers (with_object sid name t) (decode d (m ∷ buf)) (suc (length buf))
      (decode-Ends d (m ∷ buf)) (λ d' b v lt. with_object-Answers sid name t d' b v)

with_name-Answers :
    (sid : ℕ) (d : Amf0Decoder) (buf : Bytes) (v : AmfValue) → Answers (with_name sid d buf v)
with_name-Answers sid d buf (string name) =
    and_then-Answers (λ d' b v. parse_object sid name (transaction_of v) d' b) (decode d buf)
      (length buf) (decode-Ends d buf)
      (λ d' b v lt. parse_object-Answers sid name (transaction_of v) d' b)
with_name-Answers sid d buf _ = tt

parse_command-Answers : (payload : Bytes) (sid : ℕ) → Answers (parse_command payload sid)
unfolding parse_command
parse_command-Answers payload sid =
    and_then-Answers (with_name sid) (decode Decoder.new payload) (length payload)
      (decode-Ends Decoder.new payload) (λ d b v lt. with_name-Answers sid d b v)

parse_data-Answers : (payload : Bytes) (sid : ℕ) → Answers (parse_data payload sid)
unfolding parse_data
parse_data-Answers payload sid =
    and_then-Answers (with_handler sid) (decode Decoder.new payload) (length payload)
      (decode-Ends Decoder.new payload)
      (λ d b v lt.
        map_parsed-Answers (data_of sid (name_of v)) (parse_rest d b) (parse_rest-Answers d b))

parse_user_control-Answers : (payload : Bytes) → Answers (parse_user_control payload)
unfolding parse_user_control
parse_user_control-Answers payload = ground arith

parse_u32-Answers : (make : ℕ → RtmpMessage) (payload : Bytes) → Answers (parse_u32 make payload)
parse_u32-Answers make payload = ground arith

parse_bandwidth-Answers : (payload : Bytes) → Answers (parse_bandwidth payload)
parse_bandwidth-Answers payload = ground arith

parse-Answers :
    (message_type timestamp sid : ℕ) (payload : Bytes)
    → Answers (parse message_type timestamp sid payload)
unfolding parse
parse-Answers message_type timestamp sid payload =
    if-Answers (message_type == msg_set_chunk_size) _ _
      (parse_u32-Answers (λ n. set_chunk_size (n % 2147483648)) payload)
      (if-Answers (message_type == msg_abort) _ _ (parse_u32-Answers abort payload) (
        if-Answers (message_type == msg_acknowledgement) _ _
          (parse_u32-Answers acknowledgement payload)
          (if-Answers (message_type == msg_user_control) _ _ (parse_user_control-Answers payload) (
            if-Answers (message_type == msg_window_ack_size) _ _
              (parse_u32-Answers window_ack_size payload)
              (if-Answers (message_type == msg_set_peer_bandwidth) _ _
                (parse_bandwidth-Answers payload)
                (if-Answers (message_type == msg_audio) _ _ tt (
                  if-Answers (message_type == msg_video) _ _ tt (
                    if-Answers (message_type == msg_command_amf0) _ _
                      (map_parsed-Answers command (parse_command payload sid)
                        (parse_command-Answers payload sid))
                      (if-Answers (message_type == msg_command_amf3) _ _
                        (map_parsed-Answers command_amf3 (parse_command (skip_marker payload) sid)
                          (parse_command-Answers (skip_marker payload) sid))
                        (if-Answers (message_type == msg_data_amf0) _ _
                          (map_parsed-Answers data_message (parse_data payload sid)
                            (parse_data-Answers payload sid))
                          (if-Answers (message_type == msg_data_amf3) _ _
                            (map_parsed-Answers data_amf3 (parse_data (skip_marker payload) sid)
                              (parse_data-Answers (skip_marker payload) sid))
                            (if-Answers (message_type == msg_aggregate) _ _ tt (tt)))))))))))))

-- Every chunk, whatever its type and its payload, is parsed to a message or refused with an error:
-- no read panics and no loop fails to end.
pub from_chunk-Answers : (c : RtmpChunk) → Answers (from_chunk c)
unfolding from_chunk
from_chunk-Answers c = parse-Answers c.message_type c.timestamp c.stream_id c.payload
