-- ===== src/Registry/Store.antt =====
-- The registry's operations (`StreamRegistry`, registry/store.rs). Each holds the lock of the map
-- to its end, and so the lock of the entry: an operation is one step on the whole registry, and the
-- `try_read` of `cleanup` never fails.
use rtmp_rs.Prelude.{
  ℕ, ◌+◌, ◌-◌, ◌%◌, ◌^◌, Bool, true, false, ◌&&◌, not, Option, none, some, List, [], ◌∷◌, ◌++◌,
  if◌then◌else◌, ltb, ◌==◌, Result, ok, err, length,
}
use rtmp_rs.Prelude.Map.{HashMap, get, insert, remove, nat_eq}
use rtmp_rs.Media.Gop
use rtmp_rs.Media.Gop.{is_some, to_list}
use rtmp_rs.Registry.Frame.{
  StreamKey, key_eq, BroadcastFrame, RegistryError, stream_not_found, stream_already_publishing,
  stream_not_active,
}
use rtmp_rs.Registry.Entry.{
  Broadcast, RegistryConfig, StreamState, active, grace_period, idle, StreamEntry, new_entry,
  get_catchup_frames, update_caches,
}

pub record StreamStats : Type 0 where
  pub subscriber_count : ℕ
  pub has_publisher : Bool
  pub state : StreamState
  pub gop_frame_count : ℕ
  pub gop_size_bytes : ℕ

abbrev pub is_active : StreamState → Bool
is_active active = true
is_active _ = false

abbrev pub is_idle : StreamState → Bool
is_idle idle = true
is_idle _ = false

abbrev pub is_publisher : Option ℕ → ℕ → Bool
is_publisher none session = false
is_publisher (some s) session = s == session

module _ (B : Broadcast) where
  pub record StreamRegistry : Type 0 where
    pub streams : HashMap StreamKey (StreamEntry B)
    pub config : RegistryConfig

  unfoldable pub with_config : RegistryConfig → StreamRegistry
  with_config config = record { streams = []; config = config }

  abbrev pub set_entry : StreamRegistry → StreamKey → StreamEntry B → StreamRegistry
  set_entry r key e = record r { streams = insert r.streams key e }

  -- The publisher takes the stream.
  abbrev pub claim : StreamEntry B → ℕ → StreamEntry B
  claim e session = record e {
    publisher_id = some session;
    publisher_disconnected_at = none;
    state = active;
  }

  -- The entry of a new stream.
  abbrev pub created : RegistryConfig → ℕ → ℕ → StreamEntry B
  created config now session = record (new_entry B config now) {
    publisher_id = some session;
    state = active;
  }

  abbrev pub register_at :
      Option (StreamEntry B)
      → ℕ
      → StreamRegistry
      → StreamKey
      → ℕ
      → StreamRegistry × Result RegistryError Unit
  register_at (some e) now r key session =
      if is_active e.state && is_some e.publisher_id
      then (r, err (stream_already_publishing key))
      else (set_entry r key (claim e session), ok tt)
  register_at none now r key session = (set_entry r key (created r.config now session), ok tt)

  unfoldable pub register_publisher :
      ℕ → StreamRegistry → StreamKey → ℕ → StreamRegistry × Result RegistryError Unit
  register_publisher now r key session = register_at (get r.streams key) now r key session

  abbrev pub released : StreamEntry B → ℕ → StreamEntry B
  released e now = record e {
    publisher_id = none;
    publisher_disconnected_at = some now;
    state = if ltb 0 e.subscriber_count then grace_period else idle;
  }

  abbrev pub unregister_at :
      Option (StreamEntry B) → ℕ → StreamRegistry → StreamKey → ℕ → StreamRegistry
  unregister_at none now r key session = r
  unregister_at (some e) now r key session =
      if is_publisher e.publisher_id session then set_entry r key (released e now) else r

  unfoldable pub unregister_publisher : ℕ → StreamRegistry → StreamKey → ℕ → StreamRegistry
  unregister_publisher now r key session = unregister_at (get r.streams key) now r key session

  -- `fetch_add` wraps.
  abbrev pub joined : StreamEntry B → StreamEntry B
  joined e = record e {
    tx = (B.subscribe e.tx).0;
    subscriber_count = (e.subscriber_count + 1) % 2 ^ 32;
  }

  abbrev pub subscribe_at :
      Option (StreamEntry B)
      → StreamRegistry
      → StreamKey
      → StreamRegistry × Result RegistryError (B.Receiver × List BroadcastFrame)
  subscribe_at none r key = (r, err (stream_not_found key))
  subscribe_at (some e) r key =
      if is_idle e.state && not (is_some e.publisher_id)
      then (r, err (stream_not_active key))
      else (set_entry r key (joined e), ok ((B.subscribe e.tx).1, get_catchup_frames B e))

  unfoldable pub subscribe :
      StreamRegistry
      → StreamKey
      → StreamRegistry × Result RegistryError (B.Receiver × List BroadcastFrame)
  subscribe r key = subscribe_at (get r.streams key) r key

  -- `fetch_sub` wraps.
  abbrev pub left : StreamEntry B → StreamEntry B
  left e = record e { subscriber_count = (e.subscriber_count + (2 ^ 32 - 1)) % 2 ^ 32 }

  abbrev pub unsubscribe_at : Option (StreamEntry B) → StreamRegistry → StreamKey → StreamRegistry
  unsubscribe_at none r key = r
  unsubscribe_at (some e) r key = set_entry r key (left e)

  unfoldable pub unsubscribe : StreamRegistry → StreamKey → StreamRegistry
  unsubscribe r key = unsubscribe_at (get r.streams key) r key

  abbrev pub cast : StreamEntry B → BroadcastFrame → StreamEntry B
  cast e f = let c = update_caches B e f in record c { tx = B.send c.tx f }

  abbrev pub broadcast_at :
      Option (StreamEntry B) → StreamRegistry → StreamKey → BroadcastFrame → StreamRegistry
  broadcast_at none r key f = r
  broadcast_at (some e) r key f = set_entry r key (cast e f)

  unfoldable pub broadcast : StreamRegistry → StreamKey → BroadcastFrame → StreamRegistry
  broadcast r key f = broadcast_at (get r.streams key) r key f

  abbrev headers_at : Option (StreamEntry B) → List BroadcastFrame
  headers_at none = []
  headers_at (some e) = to_list e.video_header ++ to_list e.audio_header

  unfoldable pub get_sequence_headers : StreamRegistry → StreamKey → List BroadcastFrame
  get_sequence_headers r key = headers_at (get r.streams key)

  abbrev pub active_at : Option (StreamEntry B) → Bool
  active_at none = false
  active_at (some e) = is_active e.state && is_some e.publisher_id

  unfoldable pub has_active_stream : StreamRegistry → StreamKey → Bool
  has_active_stream r key = active_at (get r.streams key)

  abbrev pub exists_at : Option (StreamEntry B) → Bool
  exists_at none = false
  exists_at (some e) = not (is_idle e.state)

  unfoldable pub stream_exists : StreamRegistry → StreamKey → Bool
  stream_exists r key = exists_at (get r.streams key)

  abbrev stats_at : Option (StreamEntry B) → Option StreamStats
  stats_at none = none
  stats_at (some e) = some (record {
    subscriber_count = e.subscriber_count;
    has_publisher = is_some e.publisher_id;
    state = e.state;
    gop_frame_count = Gop.frame_count e.gop_buffer;
    gop_size_bytes = e.gop_buffer.current_size;
  })

  unfoldable pub get_stream_stats : StreamRegistry → StreamKey → Option StreamStats
  get_stream_stats r key = stats_at (get r.streams key)

  unfoldable pub stream_count : StreamRegistry → ℕ
  stream_count r = length r.streams

  abbrev since : ℕ → Option ℕ → ℕ → ℕ
  since now none other = now - other
  since now (some at) other = now - at

  abbrev expired_grace : ℕ → RegistryConfig → Option ℕ → Bool
  expired_grace now config none = false
  expired_grace now config (some at) = ltb config.publisher_grace_period (now - at)

  -- Whether `cleanup` removes an entry.
  abbrev expired_in : StreamState → ℕ → RegistryConfig → StreamEntry B → Bool
  expired_in grace_period now config e = expired_grace now config e.publisher_disconnected_at
  expired_in idle now config e =
      ltb config.idle_stream_timeout (since now e.publisher_disconnected_at e.created_at)
  expired_in active now config e = false

  unfoldable pub should_remove : ℕ → RegistryConfig → StreamEntry B → Bool
  should_remove now config e = expired_in e.state now config e

  unfoldable pub keys_to_remove :
      ℕ → RegistryConfig → HashMap StreamKey (StreamEntry B) → List StreamKey
  keys_to_remove now config [] = []
  keys_to_remove now config ((key, e) ∷ m) =
      if should_remove now config e
      then key ∷ keys_to_remove now config m
      else keys_to_remove now config m

  unfoldable pub remove_all :
      List StreamKey → HashMap StreamKey (StreamEntry B) → HashMap StreamKey (StreamEntry B)
  remove_all [] m = m
  remove_all (key ∷ keys) m = remove_all keys (remove m key)

  unfoldable pub cleanup : ℕ → StreamRegistry → StreamRegistry
  cleanup now r = record r {
    streams = remove_all (keys_to_remove now r.config r.streams) r.streams;
  }
