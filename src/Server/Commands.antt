-- ===== src/Server/Commands.antt =====
-- The handlers of commands (server/connection.rs).
pub mod Setup
use rtmp_rs.Prelude.{[], ℕ, Bool, true, some, List, ◌++◌, if◌then◌else◌, Result, ok, err, panic}
use rtmp_rs.Prelude.Text.{codes}
use rtmp_rs.Bytes.{Bytes}
use rtmp_rs.Amf.Access.{get_element}
use rtmp_rs.Message.Types.{Command, rejected, stream_begin}
use rtmp_rs.Message.Commands.{
  on_status, ns_publish_start, ns_publish_bad_name, ns_play_start, ns_play_reset,
  ns_play_stream_not_found,
}
use rtmp_rs.Registry.Frame.{
  StreamKey, BroadcastFrame, RegistryError, stream_not_found, stream_already_publishing,
  stream_not_active, publisher_mismatch,
}
use rtmp_rs.Registry.Entry.{Broadcast}
use rtmp_rs.Registry.Store.{register_publisher, subscribe}
use rtmp_rs.Session.Stream.{start_publish, start_play, stop}
use rtmp_rs.Session.State.{update_stream}
use rtmp_rs.Server.Handler.{AuthResult, accept, reject, redirect, Handler}
use rtmp_rs.Server.Connection.{Connection, Outcome, done, send_command, send_user_control}
use rtmp_rs.Server.Subscriber.{send_frames}
unfoldable pub use rtmp_rs.Server.Commands.Setup.{
  text_at, number_at, bool_at, minus_two, minus_one, encoder_of, with_caps, connected, connect_on,
  negotiated_on, handle_connect, created, handle_create_stream, unpublished, handle_delete_stream,
  fc_publish_on, handle_fc_publish, handle_fc_unpublish,
}

-- What `Display` writes.
abbrev pub show_key : StreamKey → Bytes
show_key k = k.app ++ (codes "/" ++ k.name)

unfoldable pub show_error : RegistryError → Bytes
show_error (stream_not_found k) = codes "Stream not found: " ++ show_key k
show_error (stream_already_publishing k) = codes "Stream already has a publisher: " ++ show_key k
show_error publisher_mismatch = codes "Publisher ID mismatch"
show_error (stream_not_active k) = codes "Stream not active: " ++ show_key k

abbrev pub key_of : Bytes → Bytes → StreamKey
key_of app name = record { app = app; name = name }

module _ (B : Broadcast) where
  abbrev pub publish_failed : Command → RegistryError → Connection B → Outcome B
  publish_failed cmd e c = (
    send_command B cmd.stream_id
        (on_status cmd.stream_id (codes "error") ns_publish_bad_name
          (codes "Stream already publishing: " ++ show_error e))
        c,
    err rejected,
  )

  abbrev pub published : ℕ → Command → Bytes → Bytes → StreamKey → Connection B → Connection B
  published now cmd name kind key c =
      send_command B cmd.stream_id
        (on_status cmd.stream_id (codes "status") ns_publish_start
          (name ++ codes " is now published"))
        (send_user_control B (stream_begin cmd.stream_id) (record c {
          publishing_to = some key;
          state = update_stream c.state cmd.stream_id (λ s. start_publish now s name kind);
        }))

  abbrev pub registered_on :
      ℕ → Command → Bytes → Bytes → StreamKey → Connection B → Result RegistryError Unit → Outcome B
  registered_on now cmd name kind key c (ok u) = done B (published now cmd name kind key c)
  registered_on now cmd name kind key c (err e) = publish_failed cmd e c
  registered_on now cmd name kind key c panic = (c, panic)

  abbrev pub publish_on : AuthResult → ℕ → Command → Bytes → Bytes → Connection B → Outcome B
  publish_on accept now cmd name kind c =
      let key = key_of c.context.app name in
      let (registry, registered) = register_publisher B now c.registry key c.state.id in
      registered_on now cmd name kind key (record c { registry = registry }) registered
  publish_on (reject reason) now cmd name kind c = (
    send_command B cmd.stream_id
        (on_status cmd.stream_id (codes "error") ns_publish_bad_name reason) c,
    err rejected,
  )
  publish_on (redirect url) now cmd name kind c = (c, err rejected)

  unfoldable pub handle_publish : Handler → ℕ → Command → Connection B → Outcome B
  unfolding get_element send_command send_user_control on_status show_error update_stream
  handle_publish h now cmd c =
      let name = text_at cmd 0 [] in
      let kind = text_at cmd 1 (codes "live") in
      publish_on
        (h.on_publish c.context
          (record { stream_key = name; publish_type = kind; stream_id = cmd.stream_id }))
        now cmd name kind c

  abbrev pub play_reset : Bool → Command → Connection B → Connection B
  play_reset reset cmd c =
      if reset
      then send_command B cmd.stream_id
          (on_status cmd.stream_id (codes "status") ns_play_reset (codes "Playing and resetting")) c
      else c

  abbrev pub playing :
      ℕ → Command → Bytes → Bool → StreamKey → B.Receiver → Connection B → Connection B
  playing now cmd name reset key rx c =
      send_command B cmd.stream_id
        (on_status cmd.stream_id (codes "status") ns_play_start (codes "Started playing " ++ name))
        (play_reset reset cmd (
          send_user_control B (stream_begin cmd.stream_id) (record c {
            subscribed_to = some key;
            frame_rx = some rx;
            playback_stream_id = some cmd.stream_id;
            state = update_stream c.state cmd.stream_id (λ s. start_play now s name);
          })))

  abbrev pub subscribed_on :
      ℕ
      → Command
      → Bytes
      → Bool
      → StreamKey
      → Connection B
      → Result RegistryError (B.Receiver × List BroadcastFrame)
      → Outcome B
  subscribed_on now cmd name reset key c (ok (rx, catchup)) =
      done B (send_frames B catchup (playing now cmd name reset key rx c))
  subscribed_on now cmd name reset key c (err e) = done B (
      send_command B cmd.stream_id
        (on_status cmd.stream_id (codes "error") ns_play_stream_not_found
          (codes "Stream not found: " ++ name))
        c)
  subscribed_on now cmd name reset key c panic = (c, panic)

  abbrev pub play_on : AuthResult → ℕ → Command → Bytes → Bool → Connection B → Outcome B
  play_on accept now cmd name reset c =
      let key = key_of c.context.app name in
      let (registry, subscription) = subscribe B c.registry key in
      subscribed_on now cmd name reset key (record c { registry = registry }) subscription
  play_on (reject reason) now cmd name reset c = done B (
      send_command B cmd.stream_id
        (on_status cmd.stream_id (codes "error") ns_play_stream_not_found reason) c)
  play_on (redirect url) now cmd name reset c = done B c

  unfoldable pub handle_play : Handler → ℕ → Command → Connection B → Outcome B
  unfolding get_element send_command send_user_control on_status update_stream
  handle_play h now cmd c =
      let name = text_at cmd 0 [] in
      let reset = bool_at cmd 3 true in
      play_on
        (h.on_play c.context (record {
          stream_name = name;
          start = number_at cmd 1 minus_two;
          duration = number_at cmd 2 minus_one;
          reset = reset;
          stream_id = cmd.stream_id;
        }))
        now cmd name reset c

  unfoldable pub handle_close_stream : Command → Connection B → Outcome B
  unfolding update_stream
  handle_close_stream cmd c = done B (record c { state = update_stream c.state cmd.stream_id stop })
