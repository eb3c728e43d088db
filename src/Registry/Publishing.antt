-- ===== src/Registry/Publishing.antt =====
-- Who publishes a stream, over any sequence of the registry's operations (registry/store.rs).
use rtmp_rs.Prelude.{
  ℕ, ◌≡◌, refl, sym, ap, ◌∙◌, subst, Bool, true, false, ◌&&◌, not, Option, none, some, List, [],
  ◌∷◌, if◌then◌else◌, arith,
}
use rtmp_rs.Prelude.Map.{HashMap, get, insert, get-insert}
use rtmp_rs.Media.Gop.{is_some}
use rtmp_rs.Registry.Frame.{StreamKey, key_eq, BroadcastFrame}
use rtmp_rs.Registry.Entry.{Broadcast, RegistryConfig, StreamEntry, update_caches}
use rtmp_rs.Registry.Store.{
  StreamRegistry, with_config, is_active, is_idle, is_publisher, register_publisher,
  unregister_publisher, subscribe, unsubscribe, broadcast, cleanup, set_entry, claim, released,
  joined, left, cast, register_at, unregister_at, subscribe_at, unsubscribe_at, broadcast_at,
}
use rtmp_rs.Registry.Keys.{
  distinct, IsDistinct, distinct-insert, get-cleanup, cleanup-IsDistinct, expires,
}

-- The operations that change the registry, at a time.
pub data Operation : Type 0 where
  register_op unregister_op : ℕ → StreamKey → ℕ → Operation
  subscribe_op unsubscribe_op : StreamKey → Operation
  broadcast_op : StreamKey → BroadcastFrame → Operation
  cleanup_op : ℕ → Operation

module _ (B : Broadcast) where
  unfoldable pub apply : StreamRegistry B → Operation → StreamRegistry B
  apply r (register_op now key session) = (register_publisher B now r key session).0
  apply r (unregister_op now key session) = unregister_publisher B now r key session
  apply r (subscribe_op key) = (subscribe B r key).0
  apply r (unsubscribe_op key) = unsubscribe B r key
  apply r (broadcast_op key f) = broadcast B r key f
  apply r (cleanup_op now) = cleanup B now r

  unfoldable pub run : StreamRegistry B → List Operation → StreamRegistry B
  run r [] = r
  run r (op ∷ ops) = run (apply r op) ops

  -- A stream is active exactly when it has a publisher.
  abbrev pub IsConsistent : Option (StreamEntry B) → Type 0
  IsConsistent none = Unit
  IsConsistent (some e) = is_active e.state ≡ is_some e.publisher_id

  pub record IsValid (r : StreamRegistry B) : Type 0 where
    pub keys : IsDistinct r.streams
    pub consistent : (key : StreamKey) → IsConsistent (get r.streams key)

  pub with_config-IsValid : (config : RegistryConfig) → IsValid (with_config B config)
  unfolding with_config distinct get
  with_config-IsValid config = record { keys = refl; consistent = λ key. tt }

  -- An entry that is put in keeps what holds of all.
  insert-IsConsistent :
      (m : HashMap StreamKey (StreamEntry B)) (key : StreamKey) (e : StreamEntry B)
      → ((k : StreamKey) → IsConsistent (get m k))
      → is_active e.state ≡ is_some e.publisher_id
      → (k : StreamKey) → IsConsistent (get (insert m key e) k)
  insert-IsConsistent m key e c h k = ground (arith, get-insert m key e k, c k)

  pub caches_keep :
      (e : StreamEntry B) (f : BroadcastFrame)
      → ((update_caches B e f).state ≡ e.state)
        × ((update_caches B e f).publisher_id ≡ e.publisher_id)
  unfolding update_caches
  caches_keep e f = ground arith

  set_entry-IsValid :
      (r : StreamRegistry B) (key : StreamKey) (e : StreamEntry B)
      → IsValid r
      → is_active e.state ≡ is_some e.publisher_id
      → IsValid (set_entry B r key e)
  set_entry-IsValid r key e v h = record {
    keys = distinct-insert r.streams key e v.keys;
    consistent = insert-IsConsistent r.streams key e v.consistent h;
  }

  if-IsValid :
      (b : Bool) (r s : StreamRegistry B) → IsValid r → IsValid s → IsValid (if b then r else s)
  if-IsValid true r s v w = v
  if-IsValid false r s v w = w

  if_result-IsValid :
      {A : Type 0} (b : Bool) (r s : StreamRegistry B) (x y : A)
      → IsValid r
      → IsValid s
      → let next : StreamRegistry B × A = if b then (r, x) else (s, y) in IsValid next.0
  if_result-IsValid true r s x y v w = v
  if_result-IsValid false r s x y v w = w

  register_at-IsValid :
      (o : Option (StreamEntry B)) (now : ℕ) (r : StreamRegistry B) (key : StreamKey) (session : ℕ)
      → IsValid r
      → IsValid (register_at B o now r key session).0
  register_at-IsValid none now r key session v = set_entry-IsValid r key _ v refl
  register_at-IsValid (some e) now r key session v =
      if_result-IsValid (is_active e.state && is_some e.publisher_id) r _ _ _ v
        (set_entry-IsValid r key (claim B e session) v refl)

  unregister_at-IsValid :
      (o : Option (StreamEntry B)) (now : ℕ) (r : StreamRegistry B) (key : StreamKey) (session : ℕ)
      → IsValid r
      → IsValid (unregister_at B o now r key session)
  unregister_at-IsValid none now r key session v = v
  unregister_at-IsValid (some e) now r key session v =
      if-IsValid (is_publisher e.publisher_id session) _ r
        (set_entry-IsValid r key (released B e now) v (ground arith)) v

  subscribe_at-IsValid :
      (o : Option (StreamEntry B)) (r : StreamRegistry B) (key : StreamKey)
      → IsConsistent o
      → IsValid r
      → IsValid (subscribe_at B o r key).0
  subscribe_at-IsValid none r key h v = v
  subscribe_at-IsValid (some e) r key h v =
      if_result-IsValid (is_idle e.state && not (is_some e.publisher_id)) r _ _ _ v
        (set_entry-IsValid r key (joined B e) v h)

  unsubscribe_at-IsValid :
      (o : Option (StreamEntry B)) (r : StreamRegistry B) (key : StreamKey)
      → IsConsistent o
      → IsValid r
      → IsValid (unsubscribe_at B o r key)
  unsubscribe_at-IsValid none r key h v = v
  unsubscribe_at-IsValid (some e) r key h v = set_entry-IsValid r key (left B e) v h

  broadcast_at-IsValid :
      (o : Option (StreamEntry B)) (r : StreamRegistry B) (key : StreamKey) (f : BroadcastFrame)
      → IsConsistent o
      → IsValid r
      → IsValid (broadcast_at B o r key f)
  broadcast_at-IsValid none r key f h v = v
  broadcast_at-IsValid (some e) r key f h v =
      let (same_state, same_publisher) = caches_keep e f in
      set_entry-IsValid r key (cast B e f) v
        (ap is_active same_state ∙ h ∙ sym (ap is_some same_publisher))

  removed-IsConsistent :
      (b : Bool) (o : Option (StreamEntry B))
      → IsConsistent o
      → IsConsistent (if b then none else o)
  removed-IsConsistent true o h = tt
  removed-IsConsistent false o h = h

  cleanup-IsValid : (now : ℕ) (r : StreamRegistry B) → IsValid r → IsValid (cleanup B now r)
  cleanup-IsValid now r v = record {
    keys = cleanup-IsDistinct B now r v.keys;
    consistent = λ k. subst IsConsistent (sym (get-cleanup B now r k v.keys)) (
        removed-IsConsistent (expires B now r.config (get r.streams k)) (get r.streams k)
          (v.consistent k));
  }

  -- Every operation keeps a registry valid.
  pub apply-IsValid : (r : StreamRegistry B) (op : Operation) → IsValid r → IsValid (apply r op)
  unfolding apply register_publisher unregister_publisher subscribe unsubscribe broadcast
  apply-IsValid r (register_op now key session) v =
      register_at-IsValid (get r.streams key) now r key session v
  apply-IsValid r (unregister_op now key session) v =
      unregister_at-IsValid (get r.streams key) now r key session v
  apply-IsValid r (subscribe_op key) v =
      subscribe_at-IsValid (get r.streams key) r key (v.consistent key) v
  apply-IsValid r (unsubscribe_op key) v =
      unsubscribe_at-IsValid (get r.streams key) r key (v.consistent key) v
  apply-IsValid r (broadcast_op key f) v =
      broadcast_at-IsValid (get r.streams key) r key f (v.consistent key) v
  apply-IsValid r (cleanup_op now) v = cleanup-IsValid now r v

  -- Every sequence of operations keeps a valid registry valid: keys are distinct, and a stream is
  -- active exactly when it has a publisher.
  pub run-IsValid : (r : StreamRegistry B) (ops : List Operation) → IsValid r → IsValid (run r ops)
  unfolding run
  run-IsValid r [] v = v
  run-IsValid r (op ∷ ops) v = run-IsValid (apply r op) ops (apply-IsValid r op v)
