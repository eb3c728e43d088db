-- ===== src/Handshake/Waits.antt =====
-- Which states a handshake reaches, and what `process` does before a packet is whole or with a
-- version it does not speak (protocol/handshake.rs).
use rtmp_rs.Prelude.{
  ℕ, ◌+◌, ◌*◌, ◌≤◌, ◌<◌, ◌≡◌, ◌↔◌, refl, Bool, true, false, Option, none, [], ◌∷◌, ltb, lt→ltb,
  le→ltb, length, ok, err, arith, not, if◌then◌else◌, ◌&&◌, ◌==◌,
}
use rtmp_rs.Bytes.{Bytes}
use rtmp_rs.Constants.{rtmp_version, handshake_size}
use rtmp_rs.Handshake.Machine.{
  HandshakeRole, HandshakeState, Handshake, invalid_version, client, server, initial,
  waiting_for_peer_packet, need_to_send_response, waiting_for_peer_response, done, Processed,
  generate_initial, server_packet, client_packet, server_response, process, new, bytes_needed,
  bytes_needed_in,
}

-- The handshakes that the two operations lead to, from a new one, on any input at any time.
pub data Reachable : Handshake → Type 0 where
  fresh : (role : HandshakeRole) → Reachable (new role)
  started : (now : ℕ) (h : Handshake) → Reachable h → Reachable (generate_initial now h).0
  processed :
      (now later : ℕ) (h : Handshake) (input : Bytes)
      → Reachable h
      → Reachable (process now later h input).handshake

-- The states a role passes through: only the server waits for a response, and none rests where a
-- response is to be sent.
abbrev pub passes : HandshakeRole → HandshakeState → Bool
passes client waiting_for_peer_response = false
passes role need_to_send_response = false
passes _ _ = true

abbrev pub IsOnPath : Handshake → Type 0
IsOnPath h = passes h.role h.state ≡ true

generate_initial-IsOnPath :
    (now : ℕ) (h : Handshake) → IsOnPath h → IsOnPath (generate_initial now h).0
unfolding generate_initial
generate_initial-IsOnPath now h p = ground arith

server_packet-IsOnPath :
    (now later : ℕ) (h : Handshake) (input : Bytes)
    → h.role ≡ server
    → IsOnPath h
    → IsOnPath (server_packet now later h input).handshake
unfolding server_packet
server_packet-IsOnPath now later h input e p = ground arith

client_packet-IsOnPath :
    (now : ℕ) (h : Handshake) (input : Bytes)
    → IsOnPath h
    → IsOnPath (client_packet now h input).handshake
unfolding client_packet
client_packet-IsOnPath now h input p = ground arith

server_response-IsOnPath :
    (h : Handshake) (input : Bytes) → IsOnPath h → IsOnPath (server_response h input).handshake
unfolding server_response
server_response-IsOnPath h input p = ground arith

process-IsOnPath :
    (now later : ℕ) (h : Handshake) (input : Bytes)
    → IsOnPath h
    → IsOnPath (process now later h input).handshake
unfolding process
process-IsOnPath now later h input p = ground (
  arith,
  server_packet-IsOnPath now later h input,
  client_packet-IsOnPath now h input p,
  server_response-IsOnPath h input p,
)

-- Every handshake that is reached is in a state its role passes through.
pub Reachable-IsOnPath : (h : Handshake) → Reachable h → IsOnPath h
unfolding new
Reachable-IsOnPath _ (fresh client) = refl
Reachable-IsOnPath _ (fresh server) = refl
Reachable-IsOnPath _ (started now h r) = generate_initial-IsOnPath now h (Reachable-IsOnPath h r)
Reachable-IsOnPath _ (processed now later h input r) =
    process-IsOnPath now later h input (Reachable-IsOnPath h r)

wait_at :
    (now later : ℕ) (role : HandshakeRole) (state : HandshakeState) (our peer : Option Bytes)
    (input : Bytes)
    → let h : Handshake = record {
      role = role;
      state = state;
      our_packet = our;
      peer_packet = peer;
    } in
      passes role state ≡ true
      → length input < bytes_needed_in state
      → process now later h input ≡ record { handshake = h; input = input; result = ok none }
unfolding process bytes_needed_in server_packet client_packet server_response
wait_at now later role initial our peer input s few = refl
wait_at now later role need_to_send_response our peer input s few = ground arith
wait_at now later role done our peer input s few = refl
wait_at now later client waiting_for_peer_packet our peer [] s few = refl
wait_at now later server waiting_for_peer_packet our peer [] s few = refl
wait_at now later client waiting_for_peer_packet our peer (version ∷ body) s few =
    rw (lt→ltb (length (version ∷ body)) (1 + handshake_size * 2) (omega arith)) refl
wait_at now later server waiting_for_peer_packet our peer (version ∷ body) s few =
    rw (lt→ltb (length (version ∷ body)) (1 + handshake_size) few) refl
wait_at now later client waiting_for_peer_response our peer input s few = ground arith
wait_at now later server waiting_for_peer_response our peer input s few =
    rw (lt→ltb (length input) handshake_size few) refl

-- Too few bytes for the next packet: nothing is taken and nothing changes.
pub process_waits :
    (now later : ℕ) (h : Handshake) (input : Bytes)
    → Reachable h
    → length input < bytes_needed h
    → process now later h input ≡ record { handshake = h; input = input; result = ok none }
unfolding bytes_needed
process_waits now later h input r few =
    wait_at now later h.role h.state h.our_packet h.peer_packet input (Reachable-IsOnPath h r) few

-- The length of the packet that a role answers.
abbrev pub packet_size : HandshakeRole → ℕ
packet_size client = 1 + handshake_size * 2
packet_size server = 1 + handshake_size

-- The version test in front of an answer.
refuses :
    (version : ℕ) (h : Handshake) (input : Bytes) (p : Processed) (answer : Option Bytes)
    → p.result ≡ ok answer
    → ((if not (version == rtmp_version) && ltb version 3
          then record { handshake = h; input = input; result = err (invalid_version version) }
          else p).result
        ≡ err (invalid_version version))
      ↔ (version < 3)
refuses version h input p answer e = ground arith

-- Either role, waiting for a packet that is whole, refuses it exactly when its version is below 3:
-- every version from 3 to 255 is accepted, not only those up to 31 that the server's comment names.
pub process_rejects_iff :
    (now later : ℕ) (role : HandshakeRole) (our peer : Option Bytes) (version : ℕ) (body : Bytes)
    → let h : Handshake = record {
      role = role;
      state = waiting_for_peer_packet;
      our_packet = our;
      peer_packet = peer;
    } in
      packet_size role ≤ length (version ∷ body)
      → ((process now later h (version ∷ body)).result ≡ err (invalid_version version))
        ↔ (version < 3)
unfolding process server_packet client_packet
process_rejects_iff now later client our peer version body enough =
    rw (le→ltb (length (version ∷ body)) (1 + handshake_size * 2) enough)
      (refuses version _ body _ _ refl)
process_rejects_iff now later server our peer version body enough =
    rw (le→ltb (length (version ∷ body)) (1 + handshake_size) enough)
      (refuses version _ body _ _ refl)

-- A client that waits for the server's packets asks `bytes_needed` for 1537 bytes, and does nothing
-- on any input below 3073.
pub client_needs_more :
    (now later : ℕ) (our peer : Option Bytes) (input : Bytes)
    → let h : Handshake = record {
      role = client;
      state = waiting_for_peer_packet;
      our_packet = our;
      peer_packet = peer;
    } in
      length input < 1 + handshake_size * 2
      → (bytes_needed h ≡ 1 + handshake_size)
        × (process now later h input ≡ record { handshake = h; input = input; result = ok none })
unfolding bytes_needed process client_packet bytes_needed_in
client_needs_more now later our peer [] few = (refl, refl)
client_needs_more now later our peer (version ∷ body) few =
    rw (lt→ltb (length (version ∷ body)) (1 + handshake_size * 2) few) (refl, refl)
