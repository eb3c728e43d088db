-- ===== src/Server/Tests.antt =====
-- The theorems on connections at a server that accepts everything, with the registry of
-- Registry/Tests.antt.
pub mod Ends
pub mod Viewers
use rtmp_rs.Prelude.{[], ◌≡◌, refl, true, false, some, List, ◌∷◌, All, err, arith}
use rtmp_rs.Prelude.Text.{codes}
use rtmp_rs.Prelude.Map.{get, insert}
use rtmp_rs.Bytes.{Bytes}
use rtmp_rs.Chunk.State.{entry}
use rtmp_rs.Chunk.Encoder
use rtmp_rs.Chunk.Peek
use rtmp_rs.Amf.Decoder as Amf
use rtmp_rs.Amf.Text.{utf8_after}
use rtmp_rs.Server.Commands.{handle_publish}
use rtmp_rs.Chunk.Encoder.{ChunkEncoder}
use rtmp_rs.Chunk.Decoder
use rtmp_rs.Chunk.Decoder.{ChunkDecoder}
use rtmp_rs.Chunk.Pair.{Paired, new-Paired, encode_all, AllSendable}
use rtmp_rs.Amf.Value.{push_element}
use rtmp_rs.Enhanced.Capabilities.{auto, default_server}
use rtmp_rs.Message.Types.{window_ack_size, set_peer_bandwidth, user_control, ping_request}
use rtmp_rs.Message.Encode.{encode}
use rtmp_rs.Registry.Frame.{StreamKey, bytes_beq, stream_already_publishing}
use rtmp_rs.Registry.Store.{register_publisher, has_active_stream}
use rtmp_rs.Registry.Tests.{log_channel, live, busy, busy-IsValid}
use rtmp_rs.Server.Handler.{Handler, accept}
use rtmp_rs.Server.Connection
use rtmp_rs.Server.Connection.{
  Connection, ServerConfig, LagConfig, done, send_window_ack_size, send_ping_response,
}
use rtmp_rs.Server.Receive.{
  process_buffer, process, handle_command, receive, process_messages, read_and_process,
  handle_chunk, handle_message, handle_user_control,
}
use rtmp_rs.Session.State
use rtmp_rs.Message.Parse.{from_chunk}
use rtmp_rs.Server.Wire.{with_wire}
use rtmp_rs.Server.Subscriber.{cleanup_on_disconnect}
use rtmp_rs.Server.Life.{here, next, reads}
use rtmp_rs.Server.End.{Reach-refuses}
use rtmp_rs.Server.Connection.{send_set_chunk_size}
use rtmp_rs.Chunk.Receive.{drain, drain_all}
use rtmp_rs.Server.Naturality.{chunk_effect}
use rtmp_rs.Server.Channel.{handle_all, status, process_buffer_refines}
use rtmp_rs.Server.Run.{
  begin, Event, readable, elsewhere, AllQuiet, has_returned, serve_event, serve, serve-frees,
}
use rtmp_rs.Registry.Publishing.{subscribe_op}
use rtmp_rs.Registry.Store.{unregister_publisher}
use rtmp_rs.Server.Delivery.{
  Sending, chunks_for, IsDeliverable, handle_messages, process_buffer-encode_all,
}

abbrev pub open_server : Handler
open_server = record {
  on_connect = λ c p. accept;
  on_fc_publish = λ c key. accept;
  on_publish = λ c p. accept;
  on_play = λ c p. accept;
}

abbrev pub server_config : ServerConfig
server_config = record {
  chunk_size = 4096;
  window_ack_size = 2500000;
  peer_bandwidth = 2500000;
  enhanced_rtmp = auto;
  enhanced_capabilities = default_server;
}

abbrev pub lag_limits : LagConfig
lag_limits = record { lag_threshold_low = 30; max_consecutive_lag_events = 3 }

abbrev pub fresh : Connection log_channel
fresh = Connection.new log_channel 0 9 server_config lag_limits busy

-- A client sets a window, pings and asks for a bandwidth.
abbrev first_messages : List Sending
first_messages =
    record { csid = 2; timestamp = 0; stream_id = 0; message = window_ack_size 1000000 }
    ∷ (record { csid = 2; timestamp = 5; stream_id = 0; message = user_control (ping_request 77) }
        ∷ (record { csid = 3; timestamp = 5; stream_id = 0; message = set_peer_bandwidth 4000 2 }
            ∷ []))

first-AreDeliverable : All IsDeliverable first_messages
first-AreDeliverable =
    ((omega arith, refl), ((omega arith, refl), (((omega arith, omega arith), refl), tt)))

first-AllSendable : AllSendable Encoder.new (chunks_for first_messages)
unfolding chunks_for entry Encoder.new encode Encoder.sent_state insert
first-AllSendable = (
  record {
    csid_low = omega arith;
    csid_high = omega arith;
    plain = omega arith;
    forward = ground arith;
    stream_range = omega arith;
    filled = omega arith;
    short = omega arith;
    restart = λ h. refl;
  },
  (
    record {
      csid_low = omega arith;
      csid_high = omega arith;
      plain = omega arith;
      forward = ground arith;
      stream_range = omega arith;
      filled = omega arith;
      short = omega arith;
      restart = λ h. refl;
    },
    (
      record {
        csid_low = omega arith;
        csid_high = omega arith;
        plain = omega arith;
        forward = ground arith;
        stream_range = omega arith;
        filled = omega arith;
        short = omega arith;
        restart = λ h. refl;
      },
      tt,
    ),
  ),
)

fresh-Paired : Paired Encoder.new fresh.chunk_decoder
unfolding Connection.new
fresh-Paired = new-Paired

abbrev greeted : Connection log_channel
greeted = (handle_messages log_channel open_server 0 first_messages fresh).0

first_handled :
    handle_messages log_channel open_server 0 first_messages fresh ≡ done log_channel greeted
unfolding handle_messages handle_message handle_user_control send_window_ack_size send_ping_response
first_handled = refl

process_buffer-encode_all_example :
    (e' : ChunkEncoder) × (bytes : Bytes) × (d' : ChunkDecoder) × (encode_all Encoder.new
        (chunks_for first_messages)
      ≡ some (e', bytes))
    × Paired e' d'
    × (process_buffer log_channel open_server 0
          (with_wire log_channel fresh.chunk_decoder bytes fresh)
        ≡ done log_channel (with_wire log_channel d' [] greeted))
process_buffer-encode_all_example =
    process_buffer-encode_all log_channel open_server 0 first_messages Encoder.new fresh greeted
      fresh-Paired first-AreDeliverable first-AllSendable first_handled

-- `publish` of the stream `a`, as a client sends it.
abbrev publish_bytes : Bytes
publish_bytes =
    3 ∷ 0 ∷ 0 ∷ 0 ∷ 0 ∷ 0 ∷ 24 ∷ 20 ∷ 1 ∷ 0 ∷ 0 ∷ 0 ∷ 2 ∷ 0 ∷ 7 ∷ 112 ∷ 117 ∷ 98 ∷ 108 ∷ 105 ∷ 115
    ∷ 104 ∷ 0 ∷ 0 ∷ 0 ∷ 0 ∷ 0 ∷ 0 ∷ 0 ∷ 0 ∷ 0 ∷ 5 ∷ 2 ∷ 0 ∷ 1 ∷ 97 ∷ []

abbrev publisher : Connection log_channel
publisher = (read_and_process log_channel open_server 3 publish_bytes fresh).0

abbrev first_key : StreamKey
first_key = record { app = []; name = codes "a" }

publisher_publishes : publisher.publishing_to ≡ some first_key
unfolding read_and_process process_buffer process receive process_messages Connection.new State.new
    Decoder.new Decoder.decode handle_chunk from_chunk Peek.parse_basic_header Decoder.decode_stream
    Peek.whole_chunk entry Decoder.consume Decoder.read_message_header Decoder.read_timestamp
    Decoder.check_size Decoder.update_state Amf.decode Amf.decode_within Amf.kind_of utf8_after
    handle_command bytes_beq handle_publish register_publisher get push_element
publisher_publishes = refl

Reach-refuses_example :
    (register_publisher log_channel 4 publisher.registry first_key 8).1
    ≡ err (stream_already_publishing first_key)
Reach-refuses_example =
    Reach-refuses log_channel 0 9 server_config lag_limits busy publisher first_key 4 8 busy-IsValid
      (next here (reads open_server 3 publish_bytes fresh)) publisher_publishes

-- The client publishes and hangs up; meanwhile someone subscribes to another stream.
abbrev broadcast_life : List Event
broadcast_life =
    readable open_server 3 publish_bytes
    ∷ (elsewhere (subscribe_op live) ∷ (readable open_server 8 [] ∷ []))

abbrev served : Connection log_channel
served = begin log_channel fresh

life_AllQuiet : AllQuiet log_channel broadcast_life served
unfolding AllQuiet serve_event begin Connection.new State.new read_and_process
life_AllQuiet = (refl, (refl, (refl, tt)))

life_ends :
    (has_returned log_channel (serve log_channel 9 broadcast_life served).1 ≡ true)
    × ((serve log_channel 9 broadcast_life served).0.publishing_to ≡ some first_key)
unfolding serve begin send_set_chunk_size serve_event cleanup_on_disconnect unregister_publisher
    AllQuiet read_and_process process_buffer process receive process_messages Connection.new
    State.new Decoder.new Decoder.decode handle_chunk from_chunk Peek.parse_basic_header
    Decoder.decode_stream Peek.whole_chunk entry Decoder.consume Decoder.read_message_header
    Decoder.read_timestamp Decoder.check_size Decoder.update_state Amf.decode Amf.decode_within
    Amf.kind_of utf8_after handle_command bytes_beq handle_publish register_publisher get
    push_element
life_ends = (refl, refl)

serve-frees_example :
    has_active_stream log_channel (serve log_channel 9 broadcast_life served).0.registry first_key
    ≡ false
serve-frees_example =
    serve-frees log_channel 0 9 server_config lag_limits busy 9 broadcast_life first_key
      busy-IsValid life_AllQuiet life_ends.0 life_ends.1

abbrev read_publisher : Connection log_channel
read_publisher =
    (handle_all log_channel open_server 3
      (drain_all chunk_effect fresh.chunk_decoder publish_bytes).messages fresh).0

publish_handled :
    handle_all log_channel open_server 3
      (drain_all chunk_effect fresh.chunk_decoder publish_bytes).messages
      fresh
    ≡ done log_channel read_publisher
unfolding handle_all drain_all drain chunk_effect read_and_process process_buffer process receive
    process_messages Connection.new State.new Decoder.new Decoder.decode handle_chunk from_chunk
    Peek.parse_basic_header Decoder.decode_stream Peek.whole_chunk entry Decoder.consume
    Decoder.read_message_header Decoder.read_timestamp Decoder.check_size Decoder.update_state
    Amf.decode Amf.decode_within Amf.kind_of utf8_after handle_command bytes_beq handle_publish
    register_publisher get push_element
publish_handled = refl

process_buffer_refines_example :
    process_buffer log_channel open_server 3
      (with_wire log_channel fresh.chunk_decoder publish_bytes fresh)
    ≡ (
      with_wire log_channel
          (drain_all chunk_effect fresh.chunk_decoder publish_bytes).last.decoder
          (drain_all chunk_effect fresh.chunk_decoder publish_bytes).last.buf
          read_publisher,
      status log_channel open_server 3
          (drain_all chunk_effect fresh.chunk_decoder publish_bytes).last.result,
    )
process_buffer_refines_example =
    process_buffer_refines log_channel open_server 3 fresh.chunk_decoder publish_bytes fresh
      read_publisher publish_handled
