-- ===== src/Server/Receive.antt =====
-- The dispatch of messages and the loop that receives them (server/connection.rs).
use rtmp_rs.Prelude.{
  ℕ, zero, suc, Bool, true, false, ◌||◌, Option, none, some, ◌++◌, if◌then◌else◌, ltb, length,
  is_empty, Result, ok, err, panic,
}
use rtmp_rs.Prelude.Text.{codes}
use rtmp_rs.Bytes.{Bytes}
use rtmp_rs.Error.{ProtocolError}
use rtmp_rs.Chunk.State.{RtmpChunk}
use rtmp_rs.Chunk.Decoder
use rtmp_rs.Chunk.Decoder.{ChunkDecoder, Decoded}
use rtmp_rs.Message.Types.{
  UserControlEvent, ping_request, Command, RtmpMessage, set_chunk_size, abort, window_ack_size,
  user_control, set_peer_bandwidth, audio, video, command, command_amf3, data_message, data_amf3,
  protocol,
}
use rtmp_rs.Message.Parse.{Parsed, from_chunk}
use rtmp_rs.Message.Commands.{
  cmd_connect, cmd_create_stream, cmd_delete_stream, cmd_publish, cmd_play, cmd_fc_publish,
  cmd_fc_unpublish, cmd_release_stream, cmd_pause, cmd_close,
}
use rtmp_rs.Registry.Frame.{bytes_beq}
use rtmp_rs.Registry.Entry.{Broadcast}
use rtmp_rs.Session.State.{SessionState, add_bytes_received}
use rtmp_rs.Server.Handler.{Handler}
use rtmp_rs.Server.Connection.{
  Connection, Outcome, done, and_then, send_window_ack_size, send_ping_response,
  send_acknowledgement,
}
use rtmp_rs.Server.Commands.{
  handle_connect, handle_create_stream, handle_delete_stream, handle_publish, handle_play,
  handle_fc_publish, handle_fc_unpublish, handle_close_stream,
}
use rtmp_rs.Server.Subscriber.{handle_pause}
use rtmp_rs.Server.Publisher.{handle_audio, handle_video, handle_data}

-- The commands that `handle_command` tells apart.
pub data CommandName : Type 0 where
  connect create_stream delete_stream publish play fc_publish fc_unpublish release_stream pause
        close_stream unknown_command :
      CommandName

unfoldable pub command_name : Bytes → CommandName
command_name name =
    if bytes_beq name cmd_connect
    then connect
    else if bytes_beq name cmd_create_stream
    then create_stream
    else if bytes_beq name cmd_delete_stream
    then delete_stream
    else if bytes_beq name cmd_publish
    then publish
    else if bytes_beq name cmd_play
    then play
    else if bytes_beq name cmd_fc_publish
    then fc_publish
    else if bytes_beq name cmd_fc_unpublish
    then fc_unpublish
    else if bytes_beq name cmd_release_stream
    then release_stream
    else if bytes_beq name cmd_pause
    then pause
    else if bytes_beq name cmd_close || bytes_beq name (codes "closeStream")
    then close_stream
    else unknown_command

module _ (B : Broadcast) (h : Handler) (now : ℕ) where
  unfoldable pub handle_user_control : UserControlEvent → Connection B → Connection B
  unfolding send_ping_response
  handle_user_control (ping_request timestamp) c = send_ping_response B timestamp c
  handle_user_control _ c = c

  unfoldable pub dispatch : CommandName → Command → Connection B → Outcome B
  dispatch connect cmd c = handle_connect B h cmd c
  dispatch create_stream cmd c = handle_create_stream B cmd c
  dispatch delete_stream cmd c = handle_delete_stream B cmd c
  dispatch publish cmd c = handle_publish B h now cmd c
  dispatch play cmd c = handle_play B h now cmd c
  dispatch fc_publish cmd c = handle_fc_publish B h cmd c
  dispatch fc_unpublish cmd c = handle_fc_unpublish B cmd c
  dispatch release_stream cmd c = done B c
  dispatch pause cmd c = handle_pause B cmd c
  dispatch close_stream cmd c = handle_close_stream B cmd c
  dispatch unknown_command cmd c = done B c

  unfoldable pub handle_command : Command → Connection B → Outcome B
  unfolding dispatch command_name
  handle_command cmd c = dispatch (command_name cmd.name) cmd c

  abbrev pub resized : ℕ → Connection B → Connection B
  resized size c = record c {
    chunk_decoder = Decoder.set_chunk_size c.chunk_decoder size;
    state = record c.state { in_chunk_size = size };
  }

  unfoldable pub handle_message : RtmpMessage → Connection B → Outcome B
  unfolding handle_user_control send_window_ack_size
  handle_message (set_chunk_size size) c = done B (resized size c)
  handle_message (abort csid) c =
      done B (record c { chunk_decoder = Decoder.abort c.chunk_decoder csid })
  handle_message (window_ack_size size) c =
      done B (record c { state = record c.state { window_ack_size = size } })
  handle_message (set_peer_bandwidth size limit_type) c = done B (send_window_ack_size B size c)
  handle_message (user_control event) c = done B (handle_user_control event c)
  handle_message (command cmd) c = handle_command cmd c
  handle_message (command_amf3 cmd) c = handle_command cmd c
  handle_message (data_message m) c = handle_data B m c
  handle_message (data_amf3 m) c = handle_data B m c
  handle_message (audio timestamp bytes) c = handle_audio B timestamp bytes c
  handle_message (video timestamp bytes) c = handle_video B timestamp bytes c
  handle_message _ c = done B c

  -- A message that the parser gives; it always gives something.
  abbrev pub parsed_on : Connection B → Parsed RtmpMessage → Outcome B
  parsed_on c none = (c, panic)
  parsed_on c (some (ok m)) = handle_message m c
  parsed_on c (some (err e)) = (c, err e)
  parsed_on c (some panic) = (c, panic)

  unfoldable pub handle_chunk : RtmpChunk → Connection B → Outcome B
  unfolding from_chunk handle_message
  handle_chunk chunk c = parsed_on c (from_chunk chunk)

  -- What a call of `decode` on the read buffer leaves of the connection.
  abbrev pub took : Connection B → Decoded → Connection B
  took c r = record c { chunk_decoder = r.decoder; read_buf = r.buf }

  -- The end of a loop behind its last call of `decode`.
  abbrev pub stopped : Connection B → Decoded → Result ProtocolError (Option RtmpChunk) → Outcome B
  stopped c r (ok o) = done B (took c r)
  stopped c r (err e) = (took c r, err (protocol e))
  stopped c r panic = (took c r, panic)

  -- One round of the first loop of `read_and_process`, where `go` is the rest of the loop.
  abbrev pub round :
      (Connection B → Outcome B)
      → Connection B
      → Decoded
      → Result ProtocolError (Option RtmpChunk)
      → Outcome B
  round go c r (ok (some chunk)) = and_then B (handle_chunk chunk (took c r)) go
  round go c r (ok none) =
      if ltb (length r.buf) (length c.read_buf) then go (took c r) else stopped c r (ok none)
  round go c r (err e) = stopped c r (err e)
  round go c r panic = stopped c r panic

  -- The first loop: each round but the last takes a byte, so a fuel above the buffer's length is
  -- enough.
  unfoldable pub process : ℕ → Connection B → Outcome B
  process zero c = let r = Decoder.decode c.chunk_decoder c.read_buf in stopped c r r.result
  process (suc fuel) c =
      let r = Decoder.decode c.chunk_decoder c.read_buf in round (process fuel) c r r.result

  unfoldable pub process_buffer : Connection B → Outcome B
  unfolding process
  process_buffer c = process (suc (length c.read_buf)) c

  -- One round of the second loop, which ends where `decode` returns no message.
  abbrev pub message_round :
      (Connection B → Outcome B)
      → Connection B
      → Decoded
      → Result ProtocolError (Option RtmpChunk)
      → Outcome B
  message_round go c r (ok (some chunk)) = and_then B (handle_chunk chunk (took c r)) go
  message_round go c r (ok none) = stopped c r (ok none)
  message_round go c r (err e) = stopped c r (err e)
  message_round go c r panic = stopped c r panic

  unfoldable pub process_messages : ℕ → Connection B → Outcome B
  process_messages zero c =
      let r = Decoder.decode c.chunk_decoder c.read_buf in stopped c r r.result
  process_messages (suc fuel) c =
      let r = Decoder.decode c.chunk_decoder c.read_buf in
      message_round (process_messages fuel) c r r.result

  abbrev pub arrived : Connection B → Bytes → SessionState → Connection B
  arrived c bytes state = record c { read_buf = c.read_buf ++ bytes; state = state }

  abbrev pub acknowledged : Bool → Connection B → Outcome B
  acknowledged true c = done B (send_acknowledgement B c)
  acknowledged false c = done B c

  abbrev pub counted_on : Connection B → Bytes → Option (SessionState × Bool) → Outcome B
  counted_on c bytes none = (c, panic)
  counted_on c bytes (some (state, needs_ack)) =
      let c' = arrived c bytes state in
      and_then B (process_messages (suc (length c'.read_buf)) c') (acknowledged needs_ack)

  -- What follows the read of the bytes `bytes`, the first loop being through.
  unfoldable pub receive : Bytes → Connection B → Outcome B
  unfolding process_messages add_bytes_received send_acknowledgement
  receive bytes c = counted_on c bytes (add_bytes_received c.state (length bytes))

  -- `read_and_process`, where the socket gives the bytes `bytes`; none are the end of the input.
  unfoldable pub read_and_process : Bytes → Connection B → Outcome B
  unfolding process_buffer receive
  read_and_process bytes c =
      and_then B (process_buffer c) (λ c'. if is_empty bytes then done B c' else receive bytes c')
