-- ===== src/Server/End.antt =====
-- What a connection's end leaves in the registry (`cleanup_on_disconnect`, server/connection.rs).
use rtmp_rs.Prelude.{
  ℕ, true, false, ◌≡◌, refl, sym, ap, ◌∙◌, subst, Option, none, some, [], ◌∷◌, Result, ok, err,
  panic, arith,
}
use rtmp_rs.Prelude.Map.{get, get-insert, get-insert_self}
use rtmp_rs.Prelude.Text.{codes}
use rtmp_rs.Bytes.{Bytes}
use rtmp_rs.Registry.Frame.{
  StreamKey, RegistryError, key_eq, key_beq_iff, stream_already_publishing,
}
use rtmp_rs.Registry.Entry.{Broadcast, StreamEntry}
use rtmp_rs.Registry.Store.{
  StreamRegistry, register_publisher, unregister_publisher, unsubscribe, unregister_at,
  unsubscribe_at, has_active_stream, active_at, released, left,
}
use rtmp_rs.Registry.Publishing.{
  register_op, unregister_op, unsubscribe_op, apply, run, IsValid, apply-IsValid,
}
use rtmp_rs.Registry.Owner.{Owns, owned_by, register_at-result, run-Owns}
use rtmp_rs.Message.Types.{Command}
use rtmp_rs.Server.Handler.{Handler, AuthResult, accept, reject, redirect}
use rtmp_rs.Server.Connection
use rtmp_rs.Server.Connection.{Connection, ServerConfig, LagConfig, send_command, send_user_control}
use rtmp_rs.Server.Commands.{text_at, key_of, registered_on, publish_on, handle_publish}
use rtmp_rs.Server.Subscriber
use rtmp_rs.Server.Subscriber.{cleanup_on_disconnect, unsubscribed}
use rtmp_rs.Server.Ownership.{OwnsWhat, IsSound}
use rtmp_rs.Server.Life.{Reach, Reach-IsSound}

module _ (B : Broadcast) where
  pub new-IsSound :
      (now id : ℕ) (config : ServerConfig) (lag : LagConfig) (r : StreamRegistry B)
      → IsValid B r
      → IsSound B (Connection.new B now id config lag r)
  unfolding Connection.new
  new-IsSound now id config lag r v = record { valid = v; owned = tt }

  Owns-refuses :
      (r : StreamRegistry B) (key : StreamKey) (session now other : ℕ)
      → Owns B r key session
      → (register_publisher B now r key other).1 ≡ err (stream_already_publishing key)
  unfolding register_publisher
  Owns-refuses r key session now other o =
      let at = get r.streams key in ground (arith, register_at-result B at now r key other)

  owned_now :
      (c : Connection B) (key : StreamKey)
      → c.publishing_to ≡ some key
      → IsSound B c
      → Owns B c.registry key c.state.id
  owned_now c key p s = subst (OwnsWhat B c.registry c.state.id) p s.owned

  -- Whatever a connection of a server with a valid registry has gone through, bytes of any
  -- kind, frames, lag, and any operations of other connections that are not this session's
  -- `unregister_publisher`: while the connection publishes a stream, `register_publisher` of
  -- that stream is refused to everyone.
  pub Reach-refuses :
      (start id : ℕ) (config : ServerConfig) (lag : LagConfig) (r : StreamRegistry B)
      (c : Connection B) (key : StreamKey) (now other : ℕ)
      → IsValid B r
      → Reach B (Connection.new B start id config lag r) c
      → c.publishing_to ≡ some key
      → (register_publisher B now c.registry key other).1 ≡ err (stream_already_publishing key)
  Reach-refuses start id config lag r c key now other v reach p =
      Owns-refuses c.registry key c.state.id now other
        (owned_now c key p (Reach-IsSound B reach (new-IsSound start id config lag r v)))

  inactive_lem :
      (at : Option (StreamEntry B)) (now : ℕ) (r : StreamRegistry B) (key : StreamKey) (session : ℕ)
      → owned_by B session at ≡ true
      → active_at B (get (unregister_at B at now r key session).streams key) ≡ false
  inactive_lem none now r key session o = ground arith
  inactive_lem (some e) now r key session o =
      ground (arith, get-insert_self r.streams key (released B e now))

  left_inactive :
      (at : Option (StreamEntry B)) (r : StreamRegistry B) (k key : StreamKey)
      → (key_eq.beq k key ≡ true → active_at B at ≡ false)
      → active_at B (get r.streams key) ≡ false
      → active_at B (get (unsubscribe_at B at r k).streams key) ≡ false
  left_inactive none r k key h i = i
  left_inactive (some e) r k key h i = ground (arith, get-insert r.streams k (left B e) key)

  unsubscribed_inactive :
      (k : Option StreamKey) (c : Connection B) (key : StreamKey)
      → active_at B (get c.registry.streams key) ≡ false
      → has_active_stream B (unsubscribed B k c).registry key ≡ false
  unfolding has_active_stream unsubscribe
  unsubscribed_inactive none c key i = i
  unsubscribed_inactive (some k) c key i =
      left_inactive (get c.registry.streams k) c.registry k key
        (λ q. ap (λ j. active_at B (get c.registry.streams j)) ((key_beq_iff k key).0 q) ∙ i) i

  -- When a sound connection that publishes a stream ends, the stream has no active publisher
  -- any more, also where the connection is subscribed to that or another stream.
  pub cleanup_on_disconnect-frees :
      (c : Connection B) (key : StreamKey) (now : ℕ)
      → IsSound B c
      → c.publishing_to ≡ some key
      → has_active_stream B (cleanup_on_disconnect B now c).registry key ≡ false
  unfolding cleanup_on_disconnect unregister_publisher
  cleanup_on_disconnect-frees c key now s p =
      let at = get c.registry.streams key in
      subst
        (λ k.
          has_active_stream B
            (unsubscribed B c.subscribed_to (Subscriber.released B now k c)).registry key
          ≡ false)
        (sym p)
        (unsubscribed_inactive c.subscribed_to (Subscriber.released B now (some key) c) key
          (inactive_lem at now c.registry key c.state.id (owned_now c key p s)))

  cleaned_up :
      (c : Connection B) (subscribed : Option StreamKey) (k key : StreamKey) (session now : ℕ)
      → key_eq.beq k key ≡ false
      → IsValid B c.registry
      → Owns B c.registry key session
      → Owns B
          (unsubscribed B subscribed (Subscriber.released B now (some k) c)).registry
          key
          session
  unfolding unsubscribe unregister_publisher apply run
  cleaned_up c none k key session now d v o =
      run-Owns B c.registry (unregister_op now k c.state.id ∷ []) key session v o (rw d refl)
  cleaned_up c (some s) k key session now d v o =
      run-Owns B c.registry (unregister_op now k c.state.id ∷ (unsubscribe_op s ∷ [])) key session v
        o (rw d refl)

  registered_leaks :
      (now later : ℕ) (cmd : Command) (name kind : Bytes) (k key : StreamKey) (c : Connection B)
      (r : Result RegistryError (Unit {0})) (session : ℕ)
      → key_eq.beq k key ≡ false
      → IsValid B c.registry
      → Owns B c.registry key session
      → (registered_on B now cmd name kind k c r).1 ≡ ok tt
      → Owns B
          (cleanup_on_disconnect B later (registered_on B now cmd name kind k c r).0).registry
          key
          session
  unfolding cleanup_on_disconnect send_command send_user_control
  registered_leaks now later cmd name kind k key c (ok u) session d v o e =
      cleaned_up (registered_on B now cmd name kind k c (ok u)).0 c.subscribed_to k key session
        later d v o
  registered_leaks now later cmd name kind k key c (err x) session d v o e = ground arith
  registered_leaks now later cmd name kind k key c panic session d v o e = ground arith

  publish_leaks :
      (a : AuthResult) (now later : ℕ) (cmd : Command) (name kind : Bytes) (key : StreamKey)
      (c : Connection B)
      → key_eq.beq (key_of c.context.app name) key ≡ false
      → IsValid B c.registry
      → Owns B c.registry key c.state.id
      → (publish_on B a now cmd name kind c).1 ≡ ok tt
      → Owns B
          (cleanup_on_disconnect B later (publish_on B a now cmd name kind c).0).registry
          key
          c.state.id
  unfolding apply run
  publish_leaks accept now later cmd name kind key c d v o e =
      let k = key_of c.context.app name in
      let (registry, registered) = register_publisher B now c.registry k c.state.id in
      let op = register_op now k c.state.id in
      registered_leaks now later cmd name kind k key (record c { registry = registry }) registered
        c.state.id d (apply-IsValid B c.registry op v)
        (run-Owns B c.registry (op ∷ []) key c.state.id v o refl) e
  publish_leaks (reject reason) now later cmd name kind key c d v o e = ground arith
  publish_leaks (redirect url) now later cmd name kind key c d v o e = ground arith

  -- A sound connection that publishes a stream and then publishes another, which succeeds,
  -- gives up only the other when it ends: the first stream stays refused to everyone.
  pub handle_publish-leaks :
      (h : Handler) (now later : ℕ) (cmd : Command) (c : Connection B) (key : StreamKey) (other : ℕ)
      → IsSound B c
      → c.publishing_to ≡ some key
      → key_eq.beq (key_of c.context.app (text_at cmd 0 [])) key ≡ false
      → (handle_publish B h now cmd c).1 ≡ ok tt
      → (register_publisher B later
          (cleanup_on_disconnect B later (handle_publish B h now cmd c).0).registry
          key
          other).1
        ≡ err (stream_already_publishing key)
  unfolding handle_publish
  handle_publish-leaks h now later cmd c key other s p d e =
      let name = text_at cmd 0 [] in
      let kind = text_at cmd 1 (codes "live") in
      Owns-refuses (cleanup_on_disconnect B later (handle_publish B h now cmd c).0).registry key
        c.state.id later other
        (publish_leaks
          (h.on_publish c.context
            (record { stream_key = name; publish_type = kind; stream_id = cmd.stream_id }))
          now later cmd name kind key c d s.valid (owned_now c key p s) e)
