-- ===== src/Handshake/Machine.antt =====
-- The handshake's state machine (`Handshake`, protocol/handshake.rs). The clock is an argument: the
-- milliseconds since the epoch, as a u32, at the one or two readings that a call makes.
use rtmp_rs.Prelude.{
  ℕ, zero, suc, ◌+◌, ◌*◌, ◌/◌, ◌%◌, ◌^◌, Bool, true, false, ◌&&◌, not, Option, none, some, [], ◌∷◌,
  ◌++◌, if◌then◌else◌, ltb, ◌==◌, length, take, drop, Result, ok, err,
}
use rtmp_rs.Bytes.{Bytes, u8, put_u32}
use rtmp_rs.Constants.{rtmp_version, handshake_size}

pub data HandshakeRole : Type 0 where
  client server : HandshakeRole

pub data HandshakeState : Type 0 where
  initial waiting_for_peer_packet need_to_send_response waiting_for_peer_response done :
      HandshakeState

pub record Handshake : Type 0 where
  pub role : HandshakeRole
  pub state : HandshakeState
  pub our_packet : Option Bytes
  pub peer_packet : Option Bytes

-- The cause of a failed handshake that this code returns.
pub data HandshakeError : Type 0 where
  invalid_version : ℕ → HandshakeError

unfoldable pub new : HandshakeRole → Handshake
new role = record { role = role; state = initial; our_packet = none; peer_packet = none }

abbrev pub is_done_state : HandshakeState → Bool
is_done_state done = true
is_done_state _ = false

abbrev pub is_done : Handshake → Bool
is_done h = is_done_state h.state

unfoldable pub bytes_needed_in : HandshakeState → ℕ
bytes_needed_in initial = 0
bytes_needed_in waiting_for_peer_packet = 1 + handshake_size
bytes_needed_in need_to_send_response = 0
bytes_needed_in waiting_for_peer_response = handshake_size
bytes_needed_in done = 0

unfoldable pub bytes_needed : Handshake → ℕ
unfolding bytes_needed_in
bytes_needed h = bytes_needed_in h.state

-- `n` bytes, the lowest first.
abbrev pub le_bytes : ℕ → ℕ → Bytes
le_bytes zero v = []
le_bytes (suc n) v = u8 v ∷ le_bytes n (v / 256)

-- Blocks of eight bytes from the generator `seed * 6364136223846793005 + 1` on u64.
unfoldable pub random_blocks : ℕ → ℕ → Bytes
random_blocks zero seed = []
random_blocks (suc n) seed =
    let next = (seed * 6364136223846793005 + 1) % 2 ^ 64 in le_bytes 8 next ++ random_blocks n next

-- The time, four zero bytes and 191 blocks: 1536 bytes.
unfoldable pub generate_packet : ℕ → Bytes
generate_packet now = put_u32 now ++ (0 ∷ 0 ∷ 0 ∷ 0 ∷ random_blocks 191 now)

-- The peer's packet with the time in bytes 4 to 7.
unfoldable pub generate_echo : ℕ → Bytes → Bytes
generate_echo now peer = take 4 peer ++ (put_u32 now ++ drop 8 peer)

-- What a call leaves and returns: `data` is what it left of the input.
pub record Processed : Type 0 where
  pub handshake : Handshake
  pub input : Bytes
  pub result : Result HandshakeError (Option Bytes)

abbrev initial_packet : HandshakeRole → ℕ → Handshake → Handshake × Option Bytes
initial_packet client now h =
    let c1 = generate_packet now in
    (record h { our_packet = some c1; state = waiting_for_peer_packet }, some (rtmp_version ∷ c1))
initial_packet server now h = (record h { state = waiting_for_peer_packet }, none)

abbrev initial_in : HandshakeState → ℕ → Handshake → Handshake × Option Bytes
initial_in initial now h = initial_packet h.role now h
initial_in _ now h = (h, none)

unfoldable pub generate_initial : ℕ → Handshake → Handshake × Option Bytes
generate_initial now h = initial_in h.state now h

-- The client's version and packet at the server. `now` and `later` are the times of the server's
-- packet and of its echo.
unfoldable pub server_packet : ℕ → ℕ → Handshake → Bytes → Processed
server_packet now later h [] = record { handshake = h; input = []; result = ok none }
server_packet now later h (version ∷ body) =
    if ltb (length (version ∷ body)) (1 + handshake_size)
    then record { handshake = h; input = version ∷ body; result = ok none }
    else if not (version == rtmp_version) && ltb version 3
    then record { handshake = h; input = body; result = err (invalid_version version) }
    else let c1 = take handshake_size body in
      let s1 = generate_packet now in
      record {
        handshake = record h {
          peer_packet = some c1;
          our_packet = some s1;
          state = waiting_for_peer_response;
        };
        input = drop handshake_size body;
        result = ok (some (rtmp_version ∷ (s1 ++ generate_echo later c1)));
      }

-- The server's version, packet and echo at the client.
unfoldable pub client_packet : ℕ → Handshake → Bytes → Processed
client_packet now h [] = record { handshake = h; input = []; result = ok none }
client_packet now h (version ∷ body) =
    if ltb (length (version ∷ body)) (1 + handshake_size * 2)
    then record { handshake = h; input = version ∷ body; result = ok none }
    else if not (version == rtmp_version) && ltb version 3
    then record { handshake = h; input = body; result = err (invalid_version version) }
    else let s1 = take handshake_size body in
      record {
        handshake = record h { peer_packet = some s1; state = done };
        input = drop handshake_size (drop handshake_size body);
        result = ok (some (generate_echo now s1));
      }

-- The client's echo at the server; a client is never in this state.
unfoldable pub server_response : Handshake → Bytes → Processed
server_response h body =
    if ltb (length body) handshake_size
    then record { handshake = h; input = body; result = ok none }
    else record {
      handshake = record h { state = done };
      input = drop handshake_size body;
      result = ok none;
    }

abbrev process_packet : HandshakeRole → ℕ → ℕ → Handshake → Bytes → Processed
process_packet server now later h body = server_packet now later h body
process_packet client now later h body = client_packet now h body

abbrev process_response : HandshakeRole → Handshake → Bytes → Processed
process_response server h body = server_response h body
process_response client h body = record {
  handshake = record h { state = done };
  input = body;
  result = ok none;
}

abbrev process_in : HandshakeState → ℕ → ℕ → Handshake → Bytes → Processed
process_in waiting_for_peer_packet now later h body = process_packet h.role now later h body
process_in waiting_for_peer_response now later h body = process_response h.role h body
process_in _ now later h body = record { handshake = h; input = body; result = ok none }

unfoldable pub process : ℕ → ℕ → Handshake → Bytes → Processed
process now later h body = process_in h.state now later h body
