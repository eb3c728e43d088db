-- ===== src/Server/Tests/Ends.antt =====
-- The theorems on the end of a connection at a session that publishes.
use rtmp_rs.Prelude.{◌≡◌, refl, false, some, [], ok, err}
use rtmp_rs.Prelude.Text.{codes}
use rtmp_rs.Prelude.Map.{get}
use rtmp_rs.Server.Commands.{handle_publish}
use rtmp_rs.Amf.Value.{null, string, no_elements, element}
use rtmp_rs.Message.Types.{Command}
use rtmp_rs.Registry.Frame.{key_eq, bytes_beq, stream_already_publishing}
use rtmp_rs.Registry.Store.{register_publisher}
use rtmp_rs.Registry.Tests.{log_channel, live, busy-IsValid, busy-Owns}
use rtmp_rs.Server.Connection
use rtmp_rs.Server.Connection.{
  Connection, ServerConfig, LagConfig, done, send_window_ack_size, send_ping_response,
}
use rtmp_rs.Server.Commands.{text_at, key_of}
use rtmp_rs.Server.Subscriber.{cleanup_on_disconnect}
use rtmp_rs.Server.Ownership.{IsSound}
use rtmp_rs.Server.End.{handle_publish-leaks}
use rtmp_rs.Amf.Access.{get_element}
use rtmp_rs.Server.Tests.{open_server, fresh}
use rtmp_rs.Server.Receive.{handle_chunk}
use rtmp_rs.Message.Types.{command}
use rtmp_rs.Message.RoundTrip.{chunk_of}
use rtmp_rs.Server.Publishing.{handle_chunk-IsSound}

-- A connection of session 7 that publishes.
abbrev holder : Connection log_channel
holder = record fresh { publishing_to = some live; state = record fresh.state { id = 7 } }

holder-IsSound : IsSound log_channel holder
unfolding Connection.new
holder-IsSound = record { valid = busy-IsValid; owned = busy-Owns }

abbrev publish_again : Command
publish_again = record {
  name = codes "publish";
  transaction_id = 0;
  command_object = null;
  arguments = element (string (codes "b")) no_elements;
  stream_id = 1;
}

another_key : key_eq.beq (key_of holder.context.app (text_at publish_again 0 [])) live ≡ false
unfolding bytes_beq Connection.new get_element
another_key = refl

published_again : (handle_publish log_channel open_server 8 publish_again holder).1 ≡ ok tt
unfolding handle_publish register_publisher get bytes_beq Connection.new
published_again = refl

handle_publish-leaks_example :
    (register_publisher log_channel 9
      (cleanup_on_disconnect log_channel 9
        (handle_publish log_channel open_server 8 publish_again holder).0).registry
      live
      8).1
    ≡ err (stream_already_publishing live)
handle_publish-leaks_example =
    handle_publish-leaks log_channel open_server 8 9 publish_again holder live 8 holder-IsSound refl
      another_key published_again

handle_chunk-IsSound_example :
    IsSound log_channel
      (handle_chunk log_channel open_server 8 (chunk_of 3 0 1 (command publish_again)) holder).0
handle_chunk-IsSound_example =
    handle_chunk-IsSound log_channel open_server 8 (chunk_of 3 0 1 (command publish_again)) holder
      holder-IsSound
