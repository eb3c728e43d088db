-- ===== src/Session/Streams.antt =====
-- The message streams of a session (`SessionState`, session/state.rs).
use rtmp_rs.Prelude.{ℕ, ◌+◌, ◌≤◌, ◌<◌, ◌≡◌, refl, false, Option, none, some, ◌==◌, arith}
use rtmp_rs.Prelude.Map.{get, insert, nat_eq, get-insert, get-insert_self, get-remove}
use rtmp_rs.Session.Stream
use rtmp_rs.Session.Stream.{StreamState}
use rtmp_rs.Session.State
use rtmp_rs.Session.State.{SessionState, allocate_stream_id, updated, update_stream, remove_stream}

-- No stream has an id that is still to be given out.
abbrev pub IsFresh : SessionState → Type 0
IsFresh s = (id : ℕ) → s.next_stream_id ≤ id → get s.streams id ≡ none

pub new-IsFresh : (now id : ℕ) → IsFresh (State.new now id)
unfolding State.new get
new-IsFresh now id i l = refl

pub update_stream-IsFresh :
    (s : SessionState) (id : ℕ) (change : StreamState → StreamState)
    → IsFresh s
    → IsFresh (update_stream s id change)
unfolding update_stream
update_stream-IsFresh s id change fresh = on (get s.streams id) refl
  where
    on : (o : Option StreamState) → get s.streams id ≡ o → IsFresh (updated s id change o)
    on none e = fresh
    on (some stream) e = λ i l. ground (arith, get-insert s.streams id (change stream) i, fresh i l)

pub remove_stream-IsFresh : (s : SessionState) (id : ℕ) → IsFresh s → IsFresh (remove_stream s id).0
unfolding remove_stream
remove_stream-IsFresh s id fresh i l = ground (arith, get-remove s.streams id i, fresh i l)

-- What `createStream` does to the streams of a session.
pub record IsAllocated (s s' : SessionState) (id : ℕ) : Type 0 where
  pub was_free : get s.streams id ≡ none
  pub is_new : get s'.streams id ≡ some (Stream.new id)
  pub others : (i : ℕ) → (id == i) ≡ false → get s'.streams i ≡ get s.streams i
  pub fresh : IsFresh s'

-- In a session whose streams all have ids that were given out, and where an id is left,
-- `allocate_stream_id` gives an id that no stream has, makes a new stream of it, changes no
-- other, and leaves such a session.
pub allocate_stream_id-IsAllocated :
    (s : SessionState)
    → IsFresh s
    → s.next_stream_id < 4294967295
    → (s' : SessionState) × (allocate_stream_id s ≡ some (s', s.next_stream_id))
      × IsAllocated s s' s.next_stream_id
unfolding allocate_stream_id
allocate_stream_id-IsAllocated s f l =
    let id = s.next_stream_id in
    let s' = record s { next_stream_id = id + 1; streams = insert s.streams id (Stream.new id) } in
    (
      s',
      ground arith,
      record {
        was_free = f id (omega arith);
        is_new = get-insert_self s.streams id (Stream.new id);
        others = λ i d. ground (arith, get-insert s.streams id (Stream.new id) i);
        fresh = λ i k. ground (arith, get-insert s.streams id (Stream.new id) i, f i (omega arith));
      },
    )
