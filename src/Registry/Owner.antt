-- ===== src/Registry/Owner.antt =====
-- A publisher keeps its stream until it gives it up, and who may take a stream (registry/store.rs).
use rtmp_rs.Prelude.{
  ℕ, ◌≡◌, refl, ap, ◌∙◌, Bool, true, false, ◌&&◌, not, Option, none, some, List, [], ◌∷◌,
  if◌then◌else◌, arith, ok, err, ◌==◌,
}
use rtmp_rs.Prelude.Map.{get, get-insert, get-insert_self}
use rtmp_rs.Registry.Frame.{
  StreamKey, key_eq, key_beq_iff, BroadcastFrame, stream_already_publishing,
}
use rtmp_rs.Registry.Entry.{Broadcast, RegistryConfig, StreamEntry, update_caches}
use rtmp_rs.Registry.Store.{
  StreamRegistry, is_active, is_publisher, register_publisher, unregister_publisher, subscribe,
  unsubscribe, broadcast, cleanup, has_active_stream, active_at, should_remove, set_entry, created,
  claim, released, joined, left, cast, register_at, unregister_at, subscribe_at, unsubscribe_at,
  broadcast_at,
}
use rtmp_rs.Registry.Keys.{get-cleanup, expires}
use rtmp_rs.Registry.Publishing.{
  Operation, register_op, unregister_op, subscribe_op, unsubscribe_op, broadcast_op, cleanup_op,
  apply, run, IsValid, apply-IsValid, caches_keep,
}

-- Whether an operation is the publisher's own `unregister_publisher`.
abbrev pub gives_up : StreamKey → ℕ → Operation → Bool
gives_up key session (unregister_op now k s) = key_eq.beq k key && (session == s)
gives_up key session _ = false

abbrev pub none_gives_up : StreamKey → ℕ → List Operation → Bool
none_gives_up key session [] = true
none_gives_up key session (op ∷ ops) =
    not (gives_up key session op) && none_gives_up key session ops

module _ (B : Broadcast) where
  -- The entry is active and the session is its publisher.
  abbrev pub owned_by : ℕ → Option (StreamEntry B) → Bool
  owned_by session none = false
  owned_by session (some e) = is_active e.state && is_publisher e.publisher_id session

  abbrev pub Owns : StreamRegistry B → StreamKey → ℕ → Type 0
  Owns r key session = owned_by session (get r.streams key) ≡ true

  set_entry-Owns :
      (r : StreamRegistry B) (k : StreamKey) (e : StreamEntry B) (key : StreamKey) (session : ℕ)
      → Owns r key session
      → (key_eq.beq k key ≡ true → owned_by session (some e) ≡ true)
      → Owns (set_entry B r k e) key session
  set_entry-Owns r k e key session o h = ground (arith, get-insert r.streams k e key)

  same_key-Owns :
      (r : StreamRegistry B) (k key : StreamKey) (session : ℕ)
      → Owns r key session
      → key_eq.beq k key ≡ true
      → owned_by session (get r.streams k) ≡ true
  same_key-Owns r k key session o e =
      ap (λ j. owned_by session (get r.streams j)) ((key_beq_iff k key).0 e) ∙ o

  register_at-Owns :
      (at : Option (StreamEntry B)) (now : ℕ) (r : StreamRegistry B) (k : StreamKey) (s : ℕ)
      (key : StreamKey) (session : ℕ)
      → Owns r key session
      → (key_eq.beq k key ≡ true → owned_by session at ≡ true)
      → Owns (register_at B at now r k s).0 key session
  register_at-Owns none now r k s key session o h =
      set_entry-Owns r k (created B r.config now s) key session o (λ e. ground (arith, h e))
  register_at-Owns (some e) now r k s key session o h =
      ground (arith, get-insert r.streams k (claim B e s) key)

  unregister_at-Owns :
      (at : Option (StreamEntry B)) (now : ℕ) (r : StreamRegistry B) (k : StreamKey) (s : ℕ)
      (key : StreamKey) (session : ℕ)
      → Owns r key session
      → (key_eq.beq k key && (session == s)) ≡ false
      → (key_eq.beq k key ≡ true → owned_by session at ≡ true)
      → Owns (unregister_at B at now r k s) key session
  unregister_at-Owns none now r k s key session o d h = o
  unregister_at-Owns (some e) now r k s key session o d h =
      ground (arith, get-insert r.streams k (released B e now) key)

  subscribe_at-Owns :
      (at : Option (StreamEntry B)) (r : StreamRegistry B) (k key : StreamKey) (session : ℕ)
      → Owns r key session
      → (key_eq.beq k key ≡ true → owned_by session at ≡ true)
      → Owns (subscribe_at B at r k).0 key session
  subscribe_at-Owns none r k key session o h = o
  subscribe_at-Owns (some e) r k key session o h =
      ground (arith, set_entry-Owns r k (joined B e) key session o h)

  unsubscribe_at-Owns :
      (at : Option (StreamEntry B)) (r : StreamRegistry B) (k key : StreamKey) (session : ℕ)
      → Owns r key session
      → (key_eq.beq k key ≡ true → owned_by session at ≡ true)
      → Owns (unsubscribe_at B at r k) key session
  unsubscribe_at-Owns none r k key session o h = o
  unsubscribe_at-Owns (some e) r k key session o h = set_entry-Owns r k (left B e) key session o h

  broadcast_at-Owns :
      (at : Option (StreamEntry B)) (r : StreamRegistry B) (k : StreamKey) (f : BroadcastFrame)
      (key : StreamKey) (session : ℕ)
      → Owns r key session
      → (key_eq.beq k key ≡ true → owned_by session at ≡ true)
      → Owns (broadcast_at B at r k f) key session
  broadcast_at-Owns none r k f key session o h = o
  broadcast_at-Owns (some e) r k f key session o h =
      let (same_state, same_publisher) = caches_keep B e f in
      set_entry-Owns r k (cast B e f) key session o (λ q.
        ap (λ s. is_active s && is_publisher (update_caches B e f).publisher_id session) same_state
        ∙ ap (λ p. is_active e.state && is_publisher p session) same_publisher
        ∙ h q)

  active_stays :
      (now : ℕ) (config : RegistryConfig) (at : Option (StreamEntry B)) (session : ℕ)
      → owned_by session at ≡ true
      → expires B now config at ≡ false
  unfolding should_remove
  active_stays now config none session o = refl
  active_stays now config (some e) session o = ground arith

  cleanup-Owns :
      (now : ℕ) (r : StreamRegistry B) (key : StreamKey) (session : ℕ)
      → IsValid B r
      → Owns r key session
      → Owns (cleanup B now r) key session
  cleanup-Owns now r key session v o = ground (
    arith,
    get-cleanup B now r key v.keys,
    active_stays now r.config (get r.streams key) session o,
  )

  -- No other operation takes the stream from its publisher.
  apply-Owns :
      (r : StreamRegistry B) (op : Operation) (key : StreamKey) (session : ℕ)
      → IsValid B r
      → Owns r key session
      → gives_up key session op ≡ false
      → Owns (apply B r op) key session
  unfolding apply register_publisher unregister_publisher subscribe unsubscribe broadcast
  apply-Owns r (register_op now k s) key session v o h =
      register_at-Owns (get r.streams k) now r k s key session o (same_key-Owns r k key session o)
  apply-Owns r (unregister_op now k s) key session v o h =
      unregister_at-Owns (get r.streams k) now r k s key session o h
        (same_key-Owns r k key session o)
  apply-Owns r (subscribe_op k) key session v o h =
      subscribe_at-Owns (get r.streams k) r k key session o (same_key-Owns r k key session o)
  apply-Owns r (unsubscribe_op k) key session v o h =
      unsubscribe_at-Owns (get r.streams k) r k key session o (same_key-Owns r k key session o)
  apply-Owns r (broadcast_op k f) key session v o h =
      broadcast_at-Owns (get r.streams k) r k f key session o (same_key-Owns r k key session o)
  apply-Owns r (cleanup_op now) key session v o h = cleanup-Owns now r key session v o

  -- In a valid registry, over any operations among which the publisher's own `unregister_publisher`
  -- of the stream is not, a session that publishes an active stream remains its publisher, and the
  -- stream remains active.
  pub run-Owns :
      (r : StreamRegistry B) (ops : List Operation) (key : StreamKey) (session : ℕ)
      → IsValid B r
      → Owns r key session
      → none_gives_up key session ops ≡ true
      → Owns (run B r ops) key session
  unfolding run
  run-Owns r [] key session v o h = o
  run-Owns r (op ∷ ops) key session v o h =
      run-Owns (apply B r op) ops key session (apply-IsValid B r op v)
        (apply-Owns r op key session v o (ground arith)) (ground arith)

  pub register_at-owned :
      (at : Option (StreamEntry B)) (now : ℕ) (r : StreamRegistry B) (key : StreamKey) (session : ℕ)
      → owned_by session (get (register_at B at now r key session).0.streams key)
        ≡ (if active_at B at then owned_by session (get r.streams key) else true)
  register_at-owned none now r key session =
      ground (arith, get-insert_self r.streams key (created B r.config now session))
  register_at-owned (some e) now r key session =
      ground (arith, get-insert_self r.streams key (claim B e session))

  register_at-other :
      (at : Option (StreamEntry B)) (now : ℕ) (r : StreamRegistry B) (key : StreamKey) (session : ℕ)
      (other : StreamKey)
      → key_eq.beq key other ≡ false
      → get (register_at B at now r key session).0.streams other ≡ get r.streams other
  register_at-other none now r key session other d =
      get-insert r.streams key (created B r.config now session) other ∙ rw d refl
  register_at-other (some e) now r key session other d =
      ground (arith, get-insert r.streams key (claim B e session) other)

  pub register_at-result :
      (at : Option (StreamEntry B)) (now : ℕ) (r : StreamRegistry B) (key : StreamKey) (session : ℕ)
      → (register_at B at now r key session).1
        ≡ (if active_at B at then err (stream_already_publishing key) else ok tt)
  register_at-result none now r key session = refl
  register_at-result (some e) now r key session = ground arith

  pub register_publisher_result :
      (now : ℕ) (r : StreamRegistry B) (key : StreamKey) (session : ℕ) (other : StreamKey)
      → key_eq.beq key other ≡ false
      → let (next, result) = register_publisher B now r key session in
        (result
          ≡ (if has_active_stream B r key then err (stream_already_publishing key) else ok tt))
        × (owned_by session (get next.streams key)
            ≡ (if has_active_stream B r key then owned_by session (get r.streams key) else true))
        × (get next.streams other ≡ get r.streams other)
  unfolding register_publisher has_active_stream
  register_publisher_result now r key session other d =
      let at = get r.streams key in
      (
        register_at-result at now r key session,
        register_at-owned at now r key session,
        register_at-other at now r key session other d,
      )
