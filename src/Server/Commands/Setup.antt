-- ===== src/Server/Commands/Setup.antt =====
-- The handlers of the commands in front of publishing and playing, and what commands are read with
-- (server/connection.rs).
use rtmp_rs.Prelude.{ℕ, Bool, Option, none, some, [], if◌then◌else◌, Result, ok, err, panic}
use rtmp_rs.Prelude.Map.{insert, remove}
use rtmp_rs.Bytes.{Bytes}
use rtmp_rs.Amf.Value.{null, number}
use rtmp_rs.Amf.Access.{as_str, as_number, as_bool, unwrap_or, get_element, f64_of_u32, u32_of_f64}
use rtmp_rs.Amf.Access
use rtmp_rs.Message.Types.{Error, Command, rejected, stream_begin}
use rtmp_rs.Message.Connect.{ConnectParams, from_amf}
use rtmp_rs.Message.Commands.{result, bare, cmd_on_fc_publish, cmd_on_fc_unpublish}
use rtmp_rs.Enhanced.Capabilities.{EnhancedCapabilities, negotiate}
use rtmp_rs.Quirks.{EncoderType, unknown, from_flash_ver}
use rtmp_rs.Registry.Frame.{bytes_eq}
use rtmp_rs.Registry.Entry.{Broadcast}
use rtmp_rs.Session.Stream.{StreamState, is_publishing}
use rtmp_rs.Session.State.{SessionState, allocate_stream_id, remove_stream, on_connect}
use rtmp_rs.Server.Handler.{
  AuthResult, accept, reject, redirect, Handler, with_connect, with_enhanced_capabilities,
  publish_stop, unpublish,
}
use rtmp_rs.Server.Connection.{
  Connection, Outcome, done, notify, send_command, send_user_control, send_window_ack_size,
  send_peer_bandwidth, send_connect_result_with_ertmp, send_connect_error, send_connect_redirect,
}

-- Arguments of a command.
abbrev pub text_at : Command → ℕ → Bytes → Bytes
text_at cmd i d = unwrap_or (Access.and_then (get_element cmd.arguments i) as_str) d

abbrev pub number_at : Command → ℕ → ℕ → ℕ
number_at cmd i d = unwrap_or (Access.and_then (get_element cmd.arguments i) as_number) d

abbrev pub bool_at : Command → ℕ → Bool → Bool
bool_at cmd i d = unwrap_or (Access.and_then (get_element cmd.arguments i) as_bool) d

-- -2.0 and -1.0.
abbrev pub minus_two : ℕ
minus_two = 0xC000000000000000

abbrev pub minus_one : ℕ
minus_one = 0xBFF0000000000000

abbrev pub encoder_of : Option Bytes → EncoderType
encoder_of none = unknown
encoder_of (some flash_ver) = from_flash_ver flash_ver

module _ (B : Broadcast) where
  abbrev pub with_caps : Option EnhancedCapabilities → Connection B → Connection B
  with_caps none c = c
  with_caps (some caps) c = record c { context = with_enhanced_capabilities c.context caps }

  abbrev pub connected : ConnectParams → Option EnhancedCapabilities → Connection B → Connection B
  connected params caps c = with_caps caps (record c {
    state = on_connect c.state params (encoder_of params.flash_ver);
    context = with_connect c.context params (encoder_of params.flash_ver);
  })

  abbrev pub connect_on :
      AuthResult → ℕ → ConnectParams → Option EnhancedCapabilities → Connection B → Outcome B
  connect_on accept transaction params caps c = done B (
      send_connect_result_with_ertmp B transaction caps (
        send_user_control B (stream_begin 0) (
          send_peer_bandwidth B c.config.peer_bandwidth
            (send_window_ack_size B c.config.window_ack_size (connected params caps c)))))
  connect_on (reject reason) transaction params caps c =
      (send_connect_error B transaction reason c, err rejected)
  connect_on (redirect url) transaction params caps c =
      (send_connect_redirect B transaction url c, err rejected)

  abbrev pub negotiated_on :
      Handler
      → ℕ
      → ConnectParams
      → Connection B
      → Result Error (Option EnhancedCapabilities)
      → Outcome B
  negotiated_on h transaction params c (ok caps) =
      connect_on (h.on_connect c.context params) transaction params caps c
  negotiated_on h transaction params c (err e) = (c, err e)
  negotiated_on h transaction params c panic = (c, panic)

  unfoldable pub handle_connect : Handler → Command → Connection B → Outcome B
  unfolding from_amf negotiate on_connect with_connect with_enhanced_capabilities send_command
      send_user_control send_peer_bandwidth send_window_ack_size send_connect_result_with_ertmp
      send_connect_error send_connect_redirect from_flash_ver
  handle_connect h cmd c =
      let params = from_amf cmd.command_object in
      negotiated_on h cmd.transaction_id params c
        (negotiate c.config.enhanced_rtmp c.config.enhanced_capabilities params)

  abbrev pub created : Command → Connection B → Option (SessionState × ℕ) → Outcome B
  created cmd c none = (c, panic)
  created cmd c (some (state, stream_id)) = done B (
      send_command B 0 (result cmd.transaction_id null (number (f64_of_u32 stream_id)))
        (record c { state = state }))

  unfoldable pub handle_create_stream : Command → Connection B → Outcome B
  unfolding allocate_stream_id send_command result f64_of_u32
  handle_create_stream cmd c = created cmd c (allocate_stream_id c.state)

  abbrev pub unpublished : ℕ → Option StreamState → Connection B → Connection B
  unpublished stream_id none c = c
  unpublished stream_id (some stream) c =
      if is_publishing stream
      then notify B (unpublish stream_id (unwrap_or stream.stream_key []))
          (notify B (publish_stop stream_id (unwrap_or stream.stream_key [])) c)
      else c

  unfoldable pub handle_delete_stream : Command → Connection B → Outcome B
  unfolding remove_stream get_element u32_of_f64
  handle_delete_stream cmd c =
      let stream_id = u32_of_f64 (number_at cmd 0 0) in
      let (state, stream) = remove_stream c.state stream_id in
      done B (unpublished stream_id stream (record c { state = state }))

  abbrev pub fc_publish_on : AuthResult → Command → Bytes → Connection B → Outcome B
  fc_publish_on accept cmd key c = done B (
      send_command B 0 (bare cmd_on_fc_publish)
        (record c { pending_fc = insert c.pending_fc key cmd.transaction_id }))
  fc_publish_on (reject reason) cmd key c = (c, err rejected)
  fc_publish_on (redirect url) cmd key c = (c, err rejected)

  unfoldable pub handle_fc_publish : Handler → Command → Connection B → Outcome B
  unfolding get_element send_command bare
  handle_fc_publish h cmd c =
      let key = text_at cmd 0 [] in fc_publish_on (h.on_fc_publish c.context key) cmd key c

  unfoldable pub handle_fc_unpublish : Command → Connection B → Outcome B
  unfolding get_element send_command bare
  handle_fc_unpublish cmd c = done B (
      send_command B 0 (bare cmd_on_fc_unpublish)
        (record c { pending_fc = remove c.pending_fc (text_at cmd 0 []) }))
