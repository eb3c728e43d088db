-- ===== src/Server/Run.antt =====
-- The main loop of a connection behind the handshake, and its end (`run`, server/connection.rs).
use rtmp_rs.Prelude.{
  ℕ, Bool, true, false, not, ◌≡◌, refl, sym, ◌∙◌, Option, none, some, List, [], ◌∷◌, is_empty,
  Result, ok, err, panic, arith,
}
use rtmp_rs.Bytes.{Bytes}
use rtmp_rs.Registry.Frame.{StreamKey, BroadcastFrame}
use rtmp_rs.Registry.Entry.{Broadcast}
use rtmp_rs.Registry.Store.{StreamRegistry, has_active_stream}
use rtmp_rs.Registry.Publishing.{Operation, apply, IsValid}
use rtmp_rs.Message.Types.{Error}
use rtmp_rs.Server.Handler.{Handler}
use rtmp_rs.Server.Connection
use rtmp_rs.Server.Connection.{
  Connection, Outcome, ServerConfig, LagConfig, encoder_chunk_size, put_out, send_set_chunk_size,
  send_command, send_user_control,
}
use rtmp_rs.Server.Subscriber.{
  send_broadcast_frame, handle_lag, handle_stream_ended, stop_notice, cleanup_on_disconnect,
  released, unsubscribed,
}
use rtmp_rs.Server.Receive.{read_and_process}
use rtmp_rs.Server.Ownership.{unregisters, IsSound}
use rtmp_rs.Server.Soundness.{Same, same, by_Same}
use rtmp_rs.Server.Life.{reads, plays, lags, others, Step-IsSound}
use rtmp_rs.Server.End.{new-IsSound, cleanup_on_disconnect-frees}

-- What a round of the loop waits for, and operations of other connections.
pub data Event : Type 0 where
  frame : BroadcastFrame → Event
  lagged : ℕ → Event
  stream_closed : Event
  -- The application, the time, and what the socket gives; nothing at the end of the input.
  readable : Handler → ℕ → Bytes → Event
  idle_timeout : Event
  elsewhere : Operation → Event

-- None of the operations is the session's own `unregister_publisher`.
abbrev pub is_quiet : ℕ → Event → Bool
is_quiet session (elsewhere op) = not (unregisters session op)
is_quiet session _ = true

module _ (B : Broadcast) where
  -- What comes behind the handshake: the chunk size is announced and taken.
  unfoldable pub begin : Connection B → Connection B
  unfolding send_set_chunk_size
  begin c =
      put_out B (encoder_chunk_size c.config.chunk_size)
        (send_set_chunk_size B c.config.chunk_size c)

  -- The receiver that a round has taken out comes back.
  abbrev put_back : Option B.Receiver → Connection B → Connection B
  put_back none c = c
  put_back (some rx) c = record c { frame_rx = some rx }

  abbrev pub continues : Bool → Result Error (Unit {0}) → Result Error Bool
  continues b (ok u) = ok b
  continues b (err e) = err e
  continues b panic = panic

  -- One round; frames, lags and the end of the stream come to subscribers.
  unfoldable pub serve_event : Event → Connection B → Connection B × Result Error Bool
  unfolding send_broadcast_frame handle_lag handle_stream_ended read_and_process apply
  serve_event (frame f) c =
      (send_broadcast_frame B f (record c { consecutive_lag_count = 0 }), ok true)
  serve_event (lagged n) c = let (c', r) = handle_lag B n c in (c', continues true r)
  serve_event stream_closed c = (handle_stream_ended B c, ok false)
  serve_event (readable h now bytes) c =
      let (c', r) = read_and_process B h now bytes c in
      (put_back c.frame_rx c', continues (not (is_empty bytes)) r)
  serve_event idle_timeout c = (c, ok false)
  serve_event (elsewhere op) c = (record c { registry = apply B c.registry op }, ok true)

  -- The end of the loop; a panic ends the task.
  abbrev serve_on :
      ℕ
      → (Connection B → Connection B × Option (Result Error (Unit {0})))
      → Connection B × Result Error Bool
      → Connection B × Option (Result Error (Unit {0}))
  serve_on now go (c, ok true) = go c
  serve_on now go (c, ok false) = (cleanup_on_disconnect B now c, some (ok tt))
  serve_on now go (c, err e) = (cleanup_on_disconnect B now c, some (err e))
  serve_on now go (c, panic) = (c, some panic)

  -- The loop over what happens, with the time of its end, and what `run` returns once it ends.
  unfoldable pub serve :
      ℕ → List Event → Connection B → Connection B × Option (Result Error (Unit {0}))
  unfolding serve_event cleanup_on_disconnect
  serve now [] c = (c, none)
  serve now (e ∷ es) c = serve_on now (serve now es) (serve_event e c)

  put_back-Same : (o : Option B.Receiver) (c : Connection B) → Same B c (put_back o c)
  put_back-Same none c = same B c
  put_back-Same (some rx) c = same B c

  handle_stream_ended-Same : (c : Connection B) → Same B c (handle_stream_ended B c)
  unfolding handle_stream_ended send_command send_user_control
  handle_stream_ended-Same c = on c.playback_stream_id
    where
      on :
          (o : Option ℕ)
          → Same B c (
              stop_notice B o
                (Connection.put_out B Connection.encoder_reset (record c { is_paused = false })))
      on none = same B c
      on (some id) = same B c

  serve_event-IsSound :
      (e : Event) (c : Connection B)
      → is_quiet c.state.id e ≡ true
      → IsSound B c
      → IsSound B (serve_event e c).0
  unfolding serve_event
  serve_event-IsSound (frame f) c q s = Step-IsSound B (plays f c) s
  serve_event-IsSound (lagged n) c q s = Step-IsSound B (lags n c) s
  serve_event-IsSound stream_closed c q s =
      by_Same B c (handle_stream_ended B c) (handle_stream_ended-Same c) s
  serve_event-IsSound (readable h now bytes) c q s =
      let c' = (read_and_process B h now bytes c).0 in
      by_Same B c' (put_back c.frame_rx c') (put_back-Same c.frame_rx c')
        (Step-IsSound B (reads h now bytes c) s)
  serve_event-IsSound idle_timeout c q s = s
  serve_event-IsSound (elsewhere op) c q s = Step-IsSound B (others op c (ground arith)) s

  cleanup_on_disconnect_keeps :
      (now : ℕ) (c : Connection B) → (cleanup_on_disconnect B now c).publishing_to ≡ c.publishing_to
  unfolding cleanup_on_disconnect
  cleanup_on_disconnect_keeps now c =
      unsubscribed_keeps c.subscribed_to (released B now c.publishing_to c)
      ∙ released_keeps c.publishing_to
    where
      released_keeps : (o : Option StreamKey) → (released B now o c).publishing_to ≡ c.publishing_to
      released_keeps none = refl
      released_keeps (some key) = refl

      unsubscribed_keeps :
          (o : Option StreamKey) (d : Connection B)
          → (unsubscribed B o d).publishing_to ≡ d.publishing_to
      unsubscribed_keeps none d = refl
      unsubscribed_keeps (some key) d = refl

  -- At none of the events another connection unregisters this session's stream for it.
  unfoldable pub AllQuiet : List Event → Connection B → Type 0
  AllQuiet [] c = Unit
  AllQuiet (e ∷ es) c = (is_quiet c.state.id e ≡ true) × AllQuiet es (serve_event e c).0

  -- The connection has ended without a panic.
  abbrev pub has_returned : Option (Result Error (Unit {0})) → Bool
  has_returned none = false
  has_returned (some (ok u)) = true
  has_returned (some (err e)) = true
  has_returned (some panic) = false

  -- Where a connection has ended, the stream that it has published last is free.
  abbrev pub IsFreed : Connection B × Option (Result Error (Unit {0})) → Type 0
  IsFreed (c, r) =
      (key : StreamKey)
      → has_returned r ≡ true
      → c.publishing_to ≡ some key
      → has_active_stream B c.registry key ≡ false

  cleaned-IsFreed :
      (now : ℕ) (c : Connection B) (r : Option (Result Error (Unit {0})))
      → IsSound B c
      → IsFreed (cleanup_on_disconnect B now c, r)
  cleaned-IsFreed now c r s key h p =
      cleanup_on_disconnect-frees B c key now s (sym (cleanup_on_disconnect_keeps now c) ∙ p)

  serve_on-IsFreed :
      (now : ℕ) (es : List Event) (c : Connection B) (r : Result Error Bool)
      → IsSound B c
      → IsFreed (serve now es c)
      → IsFreed (serve_on now (serve now es) (c, r))
  serve_on-IsFreed now es c (ok true) s rest = rest
  serve_on-IsFreed now es c (ok false) s rest = cleaned-IsFreed now c (some (ok tt)) s
  serve_on-IsFreed now es c (err e) s rest = cleaned-IsFreed now c (some (err e)) s
  serve_on-IsFreed now es c panic s rest = λ key h p. ground arith

  serve-IsFreed :
      (now : ℕ) (es : List Event) (c : Connection B)
      → IsSound B c
      → AllQuiet es c
      → IsFreed (serve now es c)
  unfolding serve AllQuiet
  serve-IsFreed now [] c s q = λ key h p. ground arith
  serve-IsFreed now (e ∷ es) c s (q, qs) =
      let (d, r) = serve_event e c in
      let sound = serve_event-IsSound e c q s in
      serve_on-IsFreed now es d r sound (serve-IsFreed now es d sound qs)

  abbrev pub started : ℕ → ℕ → ServerConfig → LagConfig → StreamRegistry B → Connection B
  started start id config lag r = begin (Connection.new B start id config lag r)

  -- A connection of a server with a valid registry, whatever its loop receives, in whatever order,
  -- and whatever other connections do in between: once the loop has ended other than by a panic, be
  -- it by an error, the end of the input, a timeout or as too slow, the stream that it published
  -- last has no active publisher. No other connection unregisters it in this session's name.
  pub serve-frees :
      (start id : ℕ) (config : ServerConfig) (lag : LagConfig) (r : StreamRegistry B) (now : ℕ)
      (es : List Event) (key : StreamKey)
      → IsValid B r
      → AllQuiet es (started start id config lag r)
      → has_returned (serve now es (started start id config lag r)).1 ≡ true
      → (serve now es (started start id config lag r)).0.publishing_to ≡ some key
      → has_active_stream B (serve now es (started start id config lag r)).0.registry key ≡ false
  unfolding begin
  serve-frees start id config lag r now es key v q h p =
      let c = Connection.new B start id config lag r in
      serve-IsFreed now es (begin c)
        (by_Same B c (begin c) (same B c) (new-IsSound B start id config lag r v)) q key h p
