-- ===== src/Server/Tests/Viewers.antt =====
-- The theorems on slow and paused subscribers at a viewer of one stream.
use rtmp_rs.Prelude.{◌≡◌, List, ◌++◌, refl, true, false, some, [], ◌∷◌, if◌then◌else◌, ok, err}
use rtmp_rs.Message.Types.{rejected}
use rtmp_rs.Registry.Frame.{BroadcastFrame, new_audio, new_video, new_metadata}
use rtmp_rs.Registry.Tests.{log_channel, live}
use rtmp_rs.Server.Connection.{Connection}
use rtmp_rs.Server.Subscriber.{send_frames, do_pause, do_unpause, resumed}
use rtmp_rs.Server.Slow.{handle_lags, any_large, past_limit, handle_lags_result}
use rtmp_rs.Server.Resume.{
  forward_all, starts_video, NoneStarts, pass_metadata, send_frames-do_unpause,
  do_unpause-send_frames,
}
use rtmp_rs.Amf.Access.{unwrap_or}
use rtmp_rs.Server.Tests.{fresh}

handle_lags_result_example : (handle_lags log_channel (40 ∷ (5 ∷ (60 ∷ (70 ∷ [])))) fresh).1 ≡ (
    if any_large log_channel fresh.lag_config.lag_threshold_low
      (past_limit log_channel fresh (40 ∷ (5 ∷ (60 ∷ (70 ∷ [])))))
    then err rejected
    else ok tt)
handle_lags_result_example = handle_lags_result log_channel (40 ∷ (5 ∷ (60 ∷ (70 ∷ [])))) fresh

-- A viewer who has paused.
abbrev viewer : Connection log_channel
viewer = record fresh { subscribed_to = some live; playback_stream_id = some 1; is_paused = true }

abbrev delta_frame : BroadcastFrame
delta_frame = new_video 80 (39 ∷ (1 ∷ [])) false false

abbrev key_frame : BroadcastFrame
key_frame = new_video 120 (23 ∷ (1 ∷ [])) true false

abbrev sound_frame : BroadcastFrame
sound_frame = new_audio 100 (175 ∷ (1 ∷ [])) false

abbrev title_frame : BroadcastFrame
title_frame = new_metadata (2 ∷ (0 ∷ (0 ∷ [])))

do_unpause-send_frames_example :
    do_unpause log_channel 1
      (send_frames log_channel (delta_frame ∷ (key_frame ∷ [])) (do_pause log_channel 1 viewer))
    ≡ do_unpause log_channel 1 (do_pause log_channel 1 viewer)
do_unpause-send_frames_example =
    do_unpause-send_frames log_channel 1 (delta_frame ∷ (key_frame ∷ [])) viewer

abbrev before_key : List BroadcastFrame
before_key = delta_frame ∷ (title_frame ∷ (sound_frame ∷ []))

before_key-NoneStarts : NoneStarts log_channel before_key
unfolding new_video new_audio new_metadata
before_key-NoneStarts = (refl, (refl, (refl, tt)))

key_starts : starts_video log_channel key_frame.frame_type key_frame ≡ true
unfolding new_video
key_starts = refl

send_frames-do_unpause_example :
    let c' = do_unpause log_channel 1 viewer in
    let stream_id = unwrap_or c'.playback_stream_id 1 in
    send_frames log_channel (before_key ++ (key_frame ∷ (sound_frame ∷ []))) c'
    ≡ forward_all log_channel stream_id
        (key_frame ∷ (sound_frame ∷ []))
        (resumed log_channel (pass_metadata log_channel stream_id before_key c'))
send_frames-do_unpause_example =
    send_frames-do_unpause log_channel 1 before_key (sound_frame ∷ []) key_frame viewer refl
      before_key-NoneStarts key_starts
