-- ===== src/Session/State.antt =====
-- The state of a session (`SessionState`, session/state.rs). `none` is the panic of an operation on
-- integers that overflows. A point in time is a number; the address of the peer is not kept.
use rtmp_rs.Prelude.{
  ◌%◌, ℕ, ◌+◌, ◌-◌, Bool, true, false, Option, none, some, [], if◌then◌else◌, ltb, leb,
}
use rtmp_rs.Prelude.Map.{HashMap, get, insert, remove, nat_eq}
use rtmp_rs.Bytes.{u32}
use rtmp_rs.Message.Connect.{ConnectParams}
use rtmp_rs.Quirks.{EncoderType, unknown}
use rtmp_rs.Session.Stream
use rtmp_rs.Session.Stream.{StreamState}

pub data SessionPhase : Type 0 where
  connected handshaking waiting_connect active closing closed : SessionPhase

pub record SessionState : Type 0 where
  pub id : ℕ
  pub phase : SessionPhase
  pub connected_at : ℕ
  pub handshake_completed_at : Option ℕ
  pub connect_params : Option ConnectParams
  pub encoder_type : EncoderType
  pub streams : HashMap ℕ StreamState
  pub next_stream_id : ℕ  -- u32
  pub in_chunk_size : ℕ  -- u32
  pub out_chunk_size : ℕ  -- u32
  pub window_ack_size : ℕ  -- u32
  pub bytes_received : ℕ  -- u64
  pub bytes_sent : ℕ  -- u64
  pub last_ack_sequence : ℕ  -- u32

unfoldable pub new : ℕ → ℕ → SessionState
new now id = record {
  id = id;
  phase = connected;
  connected_at = now;
  handshake_completed_at = none;
  connect_params = none;
  encoder_type = unknown;
  streams = [];
  next_stream_id = 1;
  in_chunk_size = 128;
  out_chunk_size = 128;
  window_ack_size = 2500000;
  bytes_received = 0;
  bytes_sent = 0;
  last_ack_sequence = 0;
}

abbrev started : SessionPhase → SessionPhase
started connected = handshaking
started p = p

unfoldable pub start_handshake : SessionState → SessionState
start_handshake s = record s { phase = started s.phase }

abbrev completed : ℕ → SessionState → SessionPhase → SessionState
completed now s handshaking = record s {
  phase = waiting_connect;
  handshake_completed_at = some now;
}
completed now s _ = s

unfoldable pub complete_handshake : ℕ → SessionState → SessionState
complete_handshake now s = completed now s s.phase

unfoldable pub on_connect : SessionState → ConnectParams → EncoderType → SessionState
on_connect s params encoder = record s {
  connect_params = some params;
  encoder_type = encoder;
  phase = active;
}

unfoldable pub allocate_stream_id : SessionState → Option (SessionState × ℕ)
unfolding Stream.new
allocate_stream_id s =
    if ltb 4294967295 (s.next_stream_id + 1)
    then none
    else some (
      record s {
        next_stream_id = s.next_stream_id + 1;
        streams = insert s.streams s.next_stream_id (Stream.new s.next_stream_id);
      },
      s.next_stream_id,
    )

unfoldable pub get_stream : SessionState → ℕ → Option StreamState
get_stream s id = get s.streams id

abbrev pub updated :
    SessionState → ℕ → (StreamState → StreamState) → Option StreamState → SessionState
updated s id change none = s
updated s id change (some stream) = record s { streams = insert s.streams id (change stream) }

-- A change of a stream through `get_stream_mut`.
unfoldable pub update_stream : SessionState → ℕ → (StreamState → StreamState) → SessionState
update_stream s id change = updated s id change (get s.streams id)

unfoldable pub remove_stream : SessionState → ℕ → SessionState × Option StreamState
remove_stream s id = (record s { streams = remove s.streams id }, get s.streams id)

-- In a build with overflow checks, where an overflow panics (`none`), and in one without, where
-- the numbers wrap.
abbrev pub add_bytes_received_with : Bool → SessionState → ℕ → Option (SessionState × Bool)
add_bytes_received_with true s n =
    let received = s.bytes_received + n in
    if ltb 18446744073709551615 received
    then none
    else if ltb (u32 received) s.last_ack_sequence
    then none
    else some (
      record s { bytes_received = received },
      leb s.window_ack_size (u32 received - s.last_ack_sequence),
    )
add_bytes_received_with false s n =
    let received = (s.bytes_received + n) % 18446744073709551616 in
    some (
      record s { bytes_received = received },
      leb s.window_ack_size (u32 (u32 received + 4294967296 - s.last_ack_sequence)),
    )

-- In the connections of this development, which are built with overflow checks.
unfoldable pub add_bytes_received : SessionState → ℕ → Option (SessionState × Bool)
add_bytes_received s n = add_bytes_received_with true s n

unfoldable pub mark_ack_sent : SessionState → SessionState
mark_ack_sent s = record s { last_ack_sequence = u32 s.bytes_received }

abbrev is_active_phase : SessionPhase → Bool
is_active_phase active = true
is_active_phase _ = false

unfoldable pub is_active : SessionState → Bool
is_active s = is_active_phase s.phase

unfoldable pub close : SessionState → SessionState
close s = record s { phase = closing }
