-- ===== src/Server/Resume.antt =====
-- What a subscriber plays after a pause (server/connection.rs).
use rtmp_rs.Prelude.{
  ℕ, ◌+◌, length, Bool, true, false, ◌||◌, ◌≡◌, refl, sym, ap, ◌∙◌, Option, none, some, List, [],
  ◌∷◌, ◌++◌, All, arith,
}
use rtmp_rs.Registry.Frame.{
  StreamKey, BroadcastFrame, FrameType, video_frame, audio_frame, metadata_frame,
}
use rtmp_rs.Registry.Entry.{Broadcast}
use rtmp_rs.Registry.Store.{get_sequence_headers}
use rtmp_rs.Amf.Access.{unwrap_or}
use rtmp_rs.Server.Connection.{
  Connection, notify, send_command, send_user_control, send_video, send_audio, send_metadata_frame,
}
use rtmp_rs.Server.Slow.{send_frames-paused}
use rtmp_rs.Server.Handler.{unpaused}
use rtmp_rs.Server.Subscriber.{
  is_skipping, key_name, forward, resumed, skip_frame, send_broadcast_frame, send_frames, resend,
  resend_headers, headers_again, dropped_reset, unpause_begins, unpausing, do_unpause, do_pause,
}

module _ (B : Broadcast) where
  -- Every frame goes out by its type.
  unfoldable pub forward_all : ℕ → List BroadcastFrame → Connection B → Connection B
  unfolding send_video send_audio send_metadata_frame
  forward_all stream_id [] c = c
  forward_all stream_id (f ∷ fs) c = forward_all stream_id fs (forward B stream_id f.frame_type f c)

  -- Video that starts a picture from nothing.
  abbrev pub starts_video : FrameType → BroadcastFrame → Bool
  starts_video video_frame f = f.is_keyframe || f.is_header
  starts_video _ f = false

  -- None of the frames does.
  abbrev pub NoneStarts : List BroadcastFrame → Type 0
  NoneStarts fs = All (λ f. starts_video f.frame_type f ≡ false) fs

  -- What a frame that does not start video does: metadata goes out, the rest is held back.
  abbrev pub pass_on : ℕ → FrameType → BroadcastFrame → Connection B → Connection B
  pass_on stream_id metadata_frame f c = send_metadata_frame B stream_id f.payload c
  pass_on stream_id _ f c = c

  unfoldable pub pass_metadata : ℕ → List BroadcastFrame → Connection B → Connection B
  unfolding send_metadata_frame
  pass_metadata stream_id [] c = c
  pass_metadata stream_id (f ∷ fs) c =
      pass_metadata stream_id fs (pass_on stream_id f.frame_type f c)

  -- A connection that waits for video to start.
  abbrev IsWaiting : Connection B → Type 0
  IsWaiting c =
      (c.is_paused ≡ false)
      × (is_skipping c.subscriber_state ≡ true)
      × (c.skip_audio_until_keyframe ≡ true)

  skip_frame-starts :
      (id : ℕ) (t : FrameType) (f : BroadcastFrame) (c : Connection B)
      → starts_video t f ≡ true
      → skip_frame B id t f c ≡ forward B id t f (resumed B c)
  skip_frame-starts id video_frame f c h = rw h refl
  skip_frame-starts id audio_frame f c h = ground arith
  skip_frame-starts id metadata_frame f c h = ground arith

  send_broadcast_frame-waits :
      (f : BroadcastFrame) (c : Connection B)
      → IsWaiting c
      → send_broadcast_frame B f c
        ≡ skip_frame B (unwrap_or c.playback_stream_id 1) f.frame_type f c
  unfolding send_broadcast_frame
  send_broadcast_frame-waits f c (p, s, a) = rw p (rw s refl)

  -- What a frame that goes out leaves as it is.
  forward_keeps :
      (id : ℕ) (t : FrameType) (f : BroadcastFrame) (c : Connection B)
      → let c' = forward B id t f c in
        (c'.is_paused ≡ c.is_paused)
        × (c'.subscriber_state ≡ c.subscriber_state)
        × (c'.playback_stream_id ≡ c.playback_stream_id)
        × (c'.skip_audio_until_keyframe ≡ c.skip_audio_until_keyframe)
  unfolding send_video send_audio send_metadata_frame
  forward_keeps id video_frame f c = (refl, refl, refl, refl)
  forward_keeps id audio_frame f c = (refl, refl, refl, refl)
  forward_keeps id metadata_frame f c = (refl, refl, refl, refl)

  send_frames-forward_all :
      (fs : List BroadcastFrame) (c : Connection B)
      → c.is_paused ≡ false
      → is_skipping c.subscriber_state ≡ false
      → send_frames B fs c ≡ forward_all (unwrap_or c.playback_stream_id 1) fs c
  unfolding send_frames forward_all send_broadcast_frame
  send_frames-forward_all [] c p s = refl
  send_frames-forward_all (f ∷ fs) c p s =
      let id = unwrap_or c.playback_stream_id 1 in
      let c' = forward B id f.frame_type f c in
      let (p', s', i', a') = forward_keeps id f.frame_type f c in
      ap (send_frames B fs) (rw p (rw s refl))
      ∙ send_frames-forward_all fs c' (p' ∙ p) (ap is_skipping s' ∙ s)
      ∙ ap (λ i. forward_all (unwrap_or i 1) fs c') i'

  pass_on-IsWaiting :
      (id : ℕ) (t : FrameType) (f : BroadcastFrame) (c : Connection B)
      → IsWaiting c
      → IsWaiting (pass_on id t f c)
  unfolding send_metadata_frame
  pass_on-IsWaiting id video_frame f c w = w
  pass_on-IsWaiting id audio_frame f c w = w
  pass_on-IsWaiting id metadata_frame f c w = w

  pass_on_keeps :
      (id : ℕ) (t : FrameType) (f : BroadcastFrame) (c : Connection B)
      → (pass_on id t f c).playback_stream_id ≡ c.playback_stream_id
  unfolding send_metadata_frame
  pass_on_keeps id video_frame f c = refl
  pass_on_keeps id audio_frame f c = refl
  pass_on_keeps id metadata_frame f c = refl

  skip_frame-pass_on :
      (id : ℕ) (t : FrameType) (f : BroadcastFrame) (c : Connection B)
      → c.skip_audio_until_keyframe ≡ true
      → starts_video t f ≡ false
      → skip_frame B id t f c ≡ pass_on id t f c
  skip_frame-pass_on id video_frame f c a n = rw n refl
  skip_frame-pass_on id audio_frame f c a n = rw a refl
  skip_frame-pass_on id metadata_frame f c a n = refl

  send_frames-waits :
      (fs gs : List BroadcastFrame) (f : BroadcastFrame) (c : Connection B) (id : ℕ)
      → unwrap_or c.playback_stream_id 1 ≡ id
      → IsWaiting c
      → NoneStarts fs
      → starts_video f.frame_type f ≡ true
      → send_frames B (fs ++ (f ∷ gs)) c
        ≡ forward_all id (f ∷ gs) (resumed B (pass_metadata id fs c))
  unfolding send_frames forward_all pass_metadata
  send_frames-waits [] gs f c id i w none_starts k =
      let (p, _, _) = w in
      let sent : send_broadcast_frame B f c ≡ forward B id f.frame_type f (resumed B c) =
        send_broadcast_frame-waits f c w
        ∙ skip_frame-starts _ f.frame_type f c k
        ∙ ap (λ j. forward B j f.frame_type f (resumed B c)) i in
      let c' = forward B id f.frame_type f (resumed B c) in
      let (p', s', i', _) = forward_keeps id f.frame_type f (resumed B c) in
      ap (send_frames B gs) sent
      ∙ send_frames-forward_all gs c' (p' ∙ p) (ap is_skipping s')
      ∙ ap (λ j. forward_all j gs c') (ap (λ o. unwrap_or o 1) i' ∙ i)
  send_frames-waits (g ∷ fs) gs f c id i w (n, none_starts) k =
      let (_, _, a) = w in
      let sent : send_broadcast_frame B g c ≡ pass_on id g.frame_type g c =
        send_broadcast_frame-waits g c w
        ∙ skip_frame-pass_on _ g.frame_type g c a n
        ∙ ap (λ j. pass_on j g.frame_type g c) i in
      ap (send_frames B (fs ++ (f ∷ gs))) sent
      ∙ send_frames-waits fs gs f (pass_on id g.frame_type g c) id
          (ap (λ o. unwrap_or o 1) (pass_on_keeps id g.frame_type g c) ∙ i)
          (pass_on-IsWaiting id g.frame_type g c w) none_starts k

  resend-IsWaiting :
      (id : ℕ) (t : FrameType) (f : BroadcastFrame) (c : Connection B)
      → IsWaiting c
      → IsWaiting (resend B id t f c)
  unfolding send_video send_audio
  resend-IsWaiting id video_frame f c w = w
  resend-IsWaiting id audio_frame f c w = w
  resend-IsWaiting id metadata_frame f c w = w

  resend_headers-IsWaiting :
      (id : ℕ) (fs : List BroadcastFrame) (c : Connection B)
      → IsWaiting c
      → IsWaiting (resend_headers B id fs c)
  unfolding resend_headers
  resend_headers-IsWaiting id [] c w = w
  resend_headers-IsWaiting id (f ∷ fs) c w =
      resend_headers-IsWaiting id fs (resend B id f.frame_type f c)
        (resend-IsWaiting id f.frame_type f c w)

  unpausing-IsWaiting : (id : ℕ) (c : Connection B) → IsWaiting (unpausing B id c)
  unfolding send_command send_user_control
  unpausing-IsWaiting id c = on c.subscribed_to
    where
      on : (k : Option StreamKey) → IsWaiting (headers_again B id k (unpause_begins B id c))
      on none = (refl, refl, refl)
      on (some key) =
          resend_headers-IsWaiting id (get_sequence_headers B c.registry key)
            (unpause_begins B id c) (refl, refl, refl)

  -- After a paused connection goes on, the frames up to the first video frame that is a
  -- keyframe or a sequence header leave their metadata, which goes out at once and in its order,
  -- and nothing else: audio and video are held back. From that frame on every frame is forwarded
  -- in its order.
  pub send_frames-do_unpause :
      (id : ℕ) (fs gs : List BroadcastFrame) (f : BroadcastFrame) (c : Connection B)
      → c.is_paused ≡ true
      → NoneStarts fs
      → starts_video f.frame_type f ≡ true
      → let c' = do_unpause B id c in
        let stream_id = unwrap_or c'.playback_stream_id 1 in
        send_frames B (fs ++ (f ∷ gs)) c'
        ≡ forward_all stream_id (f ∷ gs) (resumed B (pass_metadata stream_id fs c'))
  unfolding do_unpause
  send_frames-do_unpause id fs gs f c p h k =
      let unpaused : do_unpause B id c ≡ unpausing B id c = rw p refl in
      ap (send_frames B (fs ++ (f ∷ gs))) unpaused
      ∙ send_frames-waits fs gs f (unpausing B id c) _ refl (unpausing-IsWaiting id c) h k
      ∙ ap
          (λ x.
            let i = unwrap_or x.playback_stream_id 1 in
            forward_all i (f ∷ gs) (resumed B (pass_metadata i fs x)))
          (sym unpaused)

  -- A connection with another count of dropped frames.
  abbrev dropped : ℕ → Connection B → Connection B
  dropped n c = record c { frames_dropped_while_paused = n }

  resend-dropped :
      (id : ℕ) (t : FrameType) (f : BroadcastFrame) (n : ℕ) (c : Connection B)
      → resend B id t f (dropped n c) ≡ dropped n (resend B id t f c)
  unfolding send_video send_audio
  resend-dropped id video_frame f n c = refl
  resend-dropped id audio_frame f n c = refl
  resend-dropped id metadata_frame f n c = refl

  resend_headers-dropped :
      (id : ℕ) (fs : List BroadcastFrame) (n : ℕ) (c : Connection B)
      → resend_headers B id fs (dropped n c) ≡ dropped n (resend_headers B id fs c)
  unfolding resend_headers
  resend_headers-dropped id [] n c = refl
  resend_headers-dropped id (f ∷ fs) n c =
      ap (resend_headers B id fs) (resend-dropped id f.frame_type f n c)
      ∙ resend_headers-dropped id fs n (resend B id f.frame_type f c)

  unpausing-dropped :
      (id n : ℕ) (c : Connection B) → unpausing B id (dropped n c) ≡ unpausing B id c
  unfolding send_command send_user_control
  unpausing-dropped id n c = on c.subscribed_to
    where
      on :
          (k : Option StreamKey)
          → dropped_reset B (
              notify B
                (unpaused id (key_name c.subscribed_to))
                (headers_again B id k (unpause_begins B id (dropped n c))))
            ≡ dropped_reset B (
                notify B
                  (unpaused id (key_name c.subscribed_to))
                  (headers_again B id k (unpause_begins B id c)))
      on none = refl
      on (some key) =
          ap (λ x. dropped_reset B (notify B (unpaused id (key_name c.subscribed_to)) x))
            (resend_headers-dropped id (get_sequence_headers B c.registry key) n
              (unpause_begins B id c))

  do_pause-pauses : (id : ℕ) (c : Connection B) → (do_pause B id c).is_paused ≡ true
  unfolding do_pause send_command send_user_control
  do_pause-pauses id c = ground arith

  pub do_unpause-send_frames :
      (id : ℕ) (fs : List BroadcastFrame) (c : Connection B)
      → do_unpause B id (send_frames B fs (do_pause B id c)) ≡ do_unpause B id (do_pause B id c)
  unfolding do_unpause
  do_unpause-send_frames id fs c =
      let c' = do_pause B id c in
      let p = do_pause-pauses id c in
      let n = c'.frames_dropped_while_paused + length fs in
      ap (do_unpause B id) (send_frames-paused B fs c' p) ∙ rw p (unpausing-dropped id n c')
