-- ===== src/Registry/Subscribers.antt =====
-- Who may join a stream, and how the number of its subscribers goes (registry/store.rs).
use rtmp_rs.Prelude.{
  ℕ, ◌+◌, ◌-◌, ◌<◌, ◌%◌, ◌^◌, ◌≡◌, refl, ap, Bool, true, false, Option, none, some, arith, Result,
  ok, err, panic, ltb, lt→ltb,
}
use rtmp_rs.Prelude.Map.{get, get-insert_self}
use rtmp_rs.Registry.Frame.{StreamKey, key_eq}
use rtmp_rs.Registry.Entry.{Broadcast, RegistryConfig, StreamEntry, new_entry}
use rtmp_rs.Registry.Store.{
  StreamRegistry, is_idle, is_publisher, register_publisher, unregister_publisher, subscribe,
  unsubscribe, cleanup, stream_exists, exists_at, should_remove, created, released, joined, left,
  unregister_at, subscribe_at,
}
use rtmp_rs.Registry.Keys.{get-cleanup}
use rtmp_rs.Registry.Publishing.{IsValid, IsConsistent, apply-IsValid, apply, unregister_op}

abbrev pub is_ok : {E A : Type 0} → Result E A → Bool
is_ok (ok _) = true
is_ok (err _) = false
is_ok panic = false

module _ (B : Broadcast) where
  -- The number of subscribers that the registry counts for a stream.
  abbrev count_at : Option (StreamEntry B) → Option ℕ
  count_at none = none
  count_at (some e) = some e.subscriber_count

  unfoldable pub count : StreamRegistry B → StreamKey → Option ℕ
  count r key = count_at (get r.streams key)

  subscribe_at_exists :
      (at : Option (StreamEntry B)) (r : StreamRegistry B) (key : StreamKey)
      → IsConsistent B at
      → is_ok (subscribe_at B at r key).1 ≡ exists_at B at
  subscribe_at_exists none r key c = refl
  subscribe_at_exists (some e) r key c = ground arith

  -- In a valid registry `subscribe` succeeds exactly on the streams that `stream_exists` reports.
  pub subscribe_exists :
      (r : StreamRegistry B) (key : StreamKey)
      → IsValid B r
      → is_ok (subscribe B r key).1 ≡ stream_exists B r key
  unfolding subscribe stream_exists
  subscribe_exists r key v = subscribe_at_exists (get r.streams key) r key (v.consistent key)

  -- The entry of a stream behind each operation on the stream.
  get-subscribe :
      (r : StreamRegistry B) (key : StreamKey) (e : StreamEntry B)
      → get r.streams key ≡ some e
      → is_idle e.state ≡ false
      → get (subscribe B r key).0.streams key ≡ some (joined B e)
  unfolding subscribe
  get-subscribe r key e g i = rw (g, i) (get-insert_self r.streams key (joined B e))

  get-unsubscribe :
      (r : StreamRegistry B) (key : StreamKey) (e : StreamEntry B)
      → get r.streams key ≡ some e
      → get (unsubscribe B r key).streams key ≡ some (left B e)
  unfolding unsubscribe
  get-unsubscribe r key e g = rw g (get-insert_self r.streams key (left B e))

  get-unregister_publisher :
      (now : ℕ) (r : StreamRegistry B) (key : StreamKey) (session : ℕ) (e : StreamEntry B)
      → get r.streams key ≡ some e
      → is_publisher e.publisher_id session ≡ true
      → get (unregister_publisher B now r key session).streams key ≡ some (released B e now)
  unfolding unregister_publisher
  get-unregister_publisher now r key session e g p =
      rw (g, p) (get-insert_self r.streams key (released B e now))

  get-register_publisher_new :
      (now : ℕ) (r : StreamRegistry B) (key : StreamKey) (session : ℕ)
      → get r.streams key ≡ none
      → get (register_publisher B now r key session).0.streams key
        ≡ some (created B r.config now session)
  unfolding register_publisher
  get-register_publisher_new now r key session g =
      rw g (get-insert_self r.streams key (created B r.config now session))

  -- When its publisher leaves, a stream goes on to exist exactly where it has subscribers.
  pub unregister_publisher_exists :
      (now : ℕ) (r : StreamRegistry B) (key : StreamKey) (session : ℕ) (e : StreamEntry B)
      → get r.streams key ≡ some e
      → is_publisher e.publisher_id session ≡ true
      → stream_exists B (unregister_publisher B now r key session) key ≡ ltb 0 e.subscriber_count
  unfolding stream_exists
  unregister_publisher_exists now r key session e g p =
      rw (get-unregister_publisher now r key session e g p) (ground arith)

  back : (n : ℕ) → n < 2 ^ 32 → ((n + 1) % 2 ^ 32 + (2 ^ 32 - 1)) % 2 ^ 32 ≡ n
  back n h = omega arith

  -- A subscriber that joins and leaves again leaves the count as it was.
  pub unsubscribe-subscribe :
      (r : StreamRegistry B) (key : StreamKey) (e : StreamEntry B)
      → get r.streams key ≡ some e
      → is_idle e.state ≡ false
      → e.subscriber_count < 2 ^ 32
      → count (unsubscribe B (subscribe B r key).0 key) key ≡ some e.subscriber_count
  unfolding count
  unsubscribe-subscribe r key e g i bound =
      rw (get-unsubscribe (subscribe B r key).0 key (joined B e) (get-subscribe r key e g i))
        (ap some (back e.subscriber_count bound))

  -- The registry after a publisher has left, the grace period has run out, and another has come.
  abbrev pub replaced : ℕ → ℕ → ℕ → StreamRegistry B → StreamKey → ℕ → ℕ → StreamRegistry B
  replaced left_at cleaned_at back_at r key session successor =
      (register_publisher B back_at
        (cleanup B cleaned_at (unregister_publisher B left_at r key session)) key successor).0

  unregister_at-config :
      (at : Option (StreamEntry B)) (now : ℕ) (r : StreamRegistry B) (key : StreamKey) (session : ℕ)
      → (unregister_at B at now r key session).config ≡ r.config
  unregister_at-config none now r key session = refl
  unregister_at-config (some e) now r key session = ground arith

  unregister_publisher-config :
      (now : ℕ) (r : StreamRegistry B) (key : StreamKey) (session : ℕ)
      → (unregister_publisher B now r key session).config ≡ r.config
  unfolding unregister_publisher
  unregister_publisher-config now r key session =
      unregister_at-config (get r.streams key) now r key session

  unregister_publisher-IsValid :
      (now : ℕ) (r : StreamRegistry B) (key : StreamKey) (session : ℕ)
      → IsValid B r
      → IsValid B (unregister_publisher B now r key session)
  unfolding apply
  unregister_publisher-IsValid now r key session v =
      apply-IsValid B r (unregister_op now key session) v

  released_expires :
      (now later : ℕ) (config : RegistryConfig) (e : StreamEntry B)
      → 0 < e.subscriber_count
      → config.publisher_grace_period < later - now
      → should_remove B later config (released B e now) ≡ true
  unfolding should_remove
  released_expires now later config e subscribed late =
      rw (lt→ltb _ _ subscribed, lt→ltb _ _ late) refl

  -- `cleanup` removes a stream that has subscribers, once its publisher is away for longer than the
  -- grace period.
  abandoned_removed :
      (left_at cleaned_at : ℕ) (r : StreamRegistry B) (key : StreamKey) (session : ℕ)
      (e : StreamEntry B)
      → IsValid B r
      → get r.streams key ≡ some e
      → is_publisher e.publisher_id session ≡ true
      → 0 < e.subscriber_count
      → r.config.publisher_grace_period < cleaned_at - left_at
      → get (cleanup B cleaned_at (unregister_publisher B left_at r key session)).streams key ≡ none
  abandoned_removed left_at cleaned_at r key session e v g p subscribed late =
      let r₁ = unregister_publisher B left_at r key session in
      rw
        (
          get-cleanup B cleaned_at r₁ key
              (unregister_publisher-IsValid left_at r key session v).keys,
          get-unregister_publisher left_at r key session e g p,
          unregister_publisher-config left_at r key session,
          released_expires left_at cleaned_at r.config e subscribed late,
        )
        refl

  new_count :
      (config : RegistryConfig) (now session : ℕ)
      → count_at (some (left B (created B config now session))) ≡ some (2 ^ 32 - 1)
  unfolding new_entry
  new_count config now session = refl

  -- A subscriber outlives its stream: `cleanup` removes a stream with subscribers when the grace
  -- period is over, a new publisher starts with a count of 0, and the old subscriber's
  -- `unsubscribe` then wraps the count of the new stream to 2^32 - 1.
  pub unsubscribe_wraps :
      (left_at cleaned_at back_at : ℕ) (r : StreamRegistry B) (key : StreamKey)
      (session successor : ℕ) (e : StreamEntry B)
      → IsValid B r
      → get r.streams key ≡ some e
      → is_publisher e.publisher_id session ≡ true
      → 0 < e.subscriber_count
      → r.config.publisher_grace_period < cleaned_at - left_at
      → count (unsubscribe B (replaced left_at cleaned_at back_at r key session successor) key) key
        ≡ some (2 ^ 32 - 1)
  unfolding count
  unsubscribe_wraps left_at cleaned_at back_at r key session successor e v g p subscribed late =
      let cleaned = cleanup B cleaned_at (unregister_publisher B left_at r key session) in
      let gone = abandoned_removed left_at cleaned_at r key session e v g p subscribed late in
      let fresh = get-register_publisher_new back_at cleaned key successor gone in
      rw (get-unsubscribe (replaced left_at cleaned_at back_at r key session successor) key _ fresh)
        (new_count cleaned.config back_at successor)
