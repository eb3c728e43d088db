-- ===== src/Registry/Expiry.antt =====
-- When a stream whose publisher has left is removed (registry/store.rs).
use rtmp_rs.Prelude.{ℕ, ◌+◌, ◌≡◌, refl, ap, ◌∙◌, true, false, none, some, if◌then◌else◌, ltb, arith}
use rtmp_rs.Prelude.Map.{get, get-insert_self}
use rtmp_rs.Registry.Frame.{StreamKey, key_eq}
use rtmp_rs.Registry.Entry.{Broadcast, StreamEntry}
use rtmp_rs.Registry.Store.{
  StreamRegistry, register_publisher, unregister_publisher, cleanup, should_remove, set_entry,
  claim, released, is_publisher,
}
use rtmp_rs.Registry.Keys.{IsDistinct, distinct-insert, get-cleanup, expires}

module _ (B : Broadcast) where
  -- What `cleanup` leaves of an entry that was just put in the map.
  get-cleanup-set_entry :
      (now : ℕ) (r : StreamRegistry B) (key : StreamKey) (e : StreamEntry B)
      → IsDistinct r.streams
      → get (cleanup B now (set_entry B r key e)).streams key
        ≡ (if should_remove B now r.config e then none else some e)
  get-cleanup-set_entry now r key e d =
      get-cleanup B now (set_entry B r key e) key (distinct-insert r.streams key e d)
      ∙ ap (λ o. if expires B now r.config o then none else o) (get-insert_self r.streams key e)

  -- A released entry expires behind the time of its state.
  should_remove-released :
      (now at : ℕ) (r : StreamRegistry B) (e : StreamEntry B)
      → should_remove B now r.config (released B e at)
        ≡ ltb
            (at
              + (if ltb 0 e.subscriber_count
                  then r.config.publisher_grace_period
                  else r.config.idle_stream_timeout))
            now
  unfolding should_remove
  should_remove-released now at r e = ground arith

  unregister_publisher-set_entry :
      (at : ℕ) (r : StreamRegistry B) (key : StreamKey) (session : ℕ) (e : StreamEntry B)
      → get r.streams key ≡ some e
      → is_publisher e.publisher_id session ≡ true
      → unregister_publisher B at r key session ≡ set_entry B r key (released B e at)
  unfolding unregister_publisher
  unregister_publisher-set_entry at r key session e g p = rw (g, p) refl

  register_publisher-released :
      (later at : ℕ) (r : StreamRegistry B) (key : StreamKey) (other : ℕ) (e : StreamEntry B)
      → (register_publisher B later (set_entry B r key (released B e at)) key other).0
        ≡ set_entry B (set_entry B r key (released B e at)) key (claim B (released B e at) other)
  unfolding register_publisher
  register_publisher-released later at r key other e =
      rw (get-insert_self r.streams key (released B e at)) (ground arith)

  should_remove-claim :
      (now : ℕ) (r : StreamRegistry B) (e : StreamEntry B) (other : ℕ)
      → should_remove B now r.config (claim B e other) ≡ false
  unfolding should_remove
  should_remove-claim now r e other = refl

  -- What the next `cleanup`, at any time, does with a stream whose publisher has left, where the map
  -- holds every key once: with subscribers the stream stays for the grace period, without for the
  -- idle timeout, and is removed exactly where the `cleanup` comes more than this time after the
  -- publisher has left. Where another publisher takes the stream before it, however late, it is not
  -- removed and is the other's.
  pub cleanup-unregister_publisher :
      (at now later : ℕ) (r : StreamRegistry B) (key : StreamKey) (session other : ℕ)
      (e : StreamEntry B)
      → IsDistinct r.streams
      → get r.streams key ≡ some e
      → is_publisher e.publisher_id session ≡ true
      → let r' = unregister_publisher B at r key session in
        (get (cleanup B now r').streams key ≡ (
          if ltb
            (at
              + (if ltb 0 e.subscriber_count
                  then r.config.publisher_grace_period
                  else r.config.idle_stream_timeout))
            now
          then none
          else some (released B e at)))
        × (get (cleanup B now (register_publisher B later r' key other).0).streams key
            ≡ some (claim B (released B e at) other))
  cleanup-unregister_publisher at now later r key session other e d g p =
      let r₁ = set_entry B r key (released B e at) in
      let left = unregister_publisher-set_entry at r key session e g p in
      (
        ap (λ x. get (cleanup B now x).streams key) left
            ∙ get-cleanup-set_entry now r key (released B e at) d
            ∙ ap (λ b. if b then none else some (released B e at))
                (should_remove-released now at r e),
        ap (λ x. get (cleanup B now (register_publisher B later x key other).0).streams key) left
            ∙ ap (λ x. get (cleanup B now x).streams key)
                (register_publisher-released later at r key other e)
            ∙ get-cleanup-set_entry now r₁ key (claim B (released B e at) other)
                (distinct-insert r.streams key (released B e at) d)
            ∙ ap (λ b. if b then none else some (claim B (released B e at) other))
                (should_remove-claim now r₁ (released B e at) other),
      )
