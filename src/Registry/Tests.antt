-- ===== src/Registry/Tests.antt =====
-- The theorems on the registry at one stream with a publisher and two subscribers, and a channel
-- that keeps every frame.
use rtmp_rs.Prelude.{
  ℕ, ◌+◌, ltb, ◌-◌, ◌^◌, ◌≡◌, refl, true, false, none, some, List, [], ◌∷◌, ◌++◌, if◌then◌else◌, ok,
  err, ◌>>=◌, arith, length,
}
use rtmp_rs.Prelude.Map.{get}
use rtmp_rs.Media.Flv.{is_keyframe, new_video}
use rtmp_rs.Media.Gop.{with_max_size, tags, to_list}
use rtmp_rs.Media.Window
use rtmp_rs.Media.Catchup.{current_gop}
use rtmp_rs.Media.Whole.{FitsAll}
use rtmp_rs.Registry.Frame.{StreamKey, key_eq, BroadcastFrame, stream_already_publishing, bytes_beq}
use rtmp_rs.Registry.Frame
use rtmp_rs.Registry.Entry.{Broadcast, RegistryConfig, StreamEntry, active, frames_of}
use rtmp_rs.Registry.Store.{
  StreamRegistry, register_publisher, unregister_publisher, subscribe, unsubscribe, cleanup,
  has_active_stream, released, claim, stream_exists,
}
use rtmp_rs.Registry.Keys.{IsDistinct, distinct}
use rtmp_rs.Registry.Expiry.{cleanup-unregister_publisher}
use rtmp_rs.Registry.Publishing.{
  Operation, register_op, unregister_op, subscribe_op, unsubscribe_op, cleanup_op, run, IsValid,
  run-IsValid,
}
use rtmp_rs.Registry.Owner.{Owns, owned_by, run-Owns, register_publisher_result}
use rtmp_rs.Registry.Subscribers.{is_ok, count, subscribe_exists, replaced, unsubscribe_wraps}
use rtmp_rs.Registry.Join.{
  broadcast_all, last_of, video_config, audio_config, is_metadata, video_tags,
  subscribe-broadcast_all,
}

abbrev pub log_channel : Broadcast
log_channel = record {
  Sender = List BroadcastFrame;
  Receiver = ℕ;
  channel = λ capacity. [];
  subscribe = λ sent. (sent, length sent);
  send = λ sent f. sent ++ (f ∷ []);
}

abbrev pub live : StreamKey
live = record { app = 108 ∷ []; name = 49 ∷ [] }

abbrev pub other : StreamKey
other = record { app = 108 ∷ []; name = 50 ∷ [] }

abbrev pub settings : RegistryConfig
settings = record {
  broadcast_capacity = 128;
  publisher_grace_period = 10;
  idle_stream_timeout = 30;
  max_gop_size = 100;
}

abbrev pub live_entry : StreamEntry log_channel
live_entry = record {
  gop_buffer = with_max_size 100;
  video_header = none;
  audio_header = none;
  metadata = none;
  publisher_id = some 7;
  tx = [];
  subscriber_count = 2;
  publisher_disconnected_at = none;
  created_at = 5;
  state = active;
}

abbrev pub busy : StreamRegistry log_channel
busy = record { streams = (live, live_entry) ∷ []; config = settings }

busy_live : get busy.streams live ≡ some live_entry
unfolding get bytes_beq
busy_live = refl

busy-IsDistinct : IsDistinct busy.streams
unfolding distinct get
busy-IsDistinct = refl

pub busy-IsValid : IsValid log_channel busy
unfolding get
busy-IsValid = record { keys = busy-IsDistinct; consistent = λ key. ground arith }

pub busy-Owns : Owns log_channel busy live 7
unfolding get bytes_beq
busy-Owns = refl

-- A video frame that is no keyframe, a keyframe and a header.
abbrev pub shown : List BroadcastFrame
shown =
    Frame.new_video 0 (23 ∷ 0 ∷ []) true true
    ∷ Frame.new_video 40 (23 ∷ 1 ∷ []) true false
    ∷ Frame.new_video 80 (39 ∷ 1 ∷ []) false false
    ∷ []

-- Everyone but the publisher does something.
abbrev others : List Operation
others =
    register_op 11 live 8
    ∷ (unregister_op 12 live 8
        ∷ (subscribe_op live
            ∷ (unsubscribe_op live ∷ (unregister_op 13 other 7 ∷ (cleanup_op 1000 ∷ [])))))

run-IsValid_example : IsValid log_channel (run log_channel busy others)
run-IsValid_example = run-IsValid log_channel busy others busy-IsValid

run-Owns_example : Owns log_channel (run log_channel busy others) live 7
unfolding bytes_beq
run-Owns_example = run-Owns log_channel busy others live 7 busy-IsValid busy-Owns refl

other_key : key_eq.beq live other ≡ false
unfolding bytes_beq
other_key = refl

register_publisher_result_example :
    let (next, result) = register_publisher log_channel 11 busy live 8 in
    (result ≡ (
      if has_active_stream log_channel busy live
      then err (stream_already_publishing live)
      else ok tt))
    × (owned_by log_channel 8 (get next.streams live) ≡ (
        if has_active_stream log_channel busy live
        then owned_by log_channel 8 (get busy.streams live)
        else true))
    × (get next.streams other ≡ get busy.streams other)
register_publisher_result_example =
    register_publisher_result log_channel 11 busy live 8 other other_key

cleanup-unregister_publisher_example :
    let r' = unregister_publisher log_channel 50 busy live 7 in
    (get (cleanup log_channel 61 r').streams live ≡ (
      if ltb
        (50
          + (if ltb 0 live_entry.subscriber_count
              then settings.publisher_grace_period
              else settings.idle_stream_timeout))
        61
      then none
      else some (released log_channel live_entry 50)))
    × (get (cleanup log_channel 61 (register_publisher log_channel 55 r' live 8).0).streams live
        ≡ some (claim log_channel (released log_channel live_entry 50) 8))
cleanup-unregister_publisher_example =
    cleanup-unregister_publisher log_channel 50 61 55 busy live 7 8 live_entry busy-IsDistinct
      busy_live refl

subscribe_exists_example :
    is_ok (subscribe log_channel busy live).1 ≡ stream_exists log_channel busy live
subscribe_exists_example = subscribe_exists log_channel busy live busy-IsValid

unsubscribe_wraps_example :
    count log_channel
      (unsubscribe log_channel (replaced log_channel 20 40 50 busy live 7 8) live)
      live
    ≡ some (2 ^ 32 - 1)
unsubscribe_wraps_example =
    unsubscribe_wraps log_channel 20 40 50 busy live 7 8 live_entry busy-IsValid busy_live refl
      (omega arith) (omega arith)

shown-FitsAll :
    FitsAll live_entry.gop_buffer.max_size (tags live_entry.gop_buffer.frames) (video_tags shown)
unfolding with_max_size is_keyframe new_video video_tags Frame.new_video
shown-FitsAll = (omega arith, (omega arith, tt))

subscribe-broadcast_all_example :
    ((subscribe log_channel (broadcast_all log_channel busy live shown) live).1 >>= λ got. ok got.1)
    ≡ ok (
        to_list (last_of is_metadata none shown)
        ++ (to_list (last_of video_config none shown)
            ++ (to_list (last_of audio_config none shown)
                ++ frames_of (current_gop (tags live_entry.gop_buffer.frames) (video_tags shown)))))
unfolding with_max_size
subscribe-broadcast_all_example =
    subscribe-broadcast_all log_channel shown busy live live_entry busy_live refl
      (Window.with_max_size-IsValid 100) refl refl shown-FitsAll
