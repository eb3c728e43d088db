-- ===== src/Handshake/Packets.antt =====
-- The two ends of a handshake (protocol/handshake.rs).
use rtmp_rs.Prelude.{
  ℕ, zero, suc, ◌+◌, ◌*◌, ◌%◌, ◌^◌, ◌≤◌, ◌≡◌, refl, sym, false, none, some, ◌∷◌, ◌++◌, not, ◌&&◌,
  ◌==◌, ltb, le→ltb, length, take, drop, length-append, length-take, length-drop, ok, arith,
  take-append_exact, drop-append_exact,
}
use rtmp_rs.Bytes.{Bytes, put_u32}
use rtmp_rs.Constants.{rtmp_version, handshake_size}
use rtmp_rs.Handshake.Machine.{
  Handshake, waiting_for_peer_response, done, random_blocks, generate_packet, generate_echo,
  server_packet, client_packet, server_response,
}

length-random_blocks : (n seed : ℕ) → length (random_blocks n seed) ≡ 8 * n
unfolding random_blocks
length-random_blocks zero seed = refl
length-random_blocks (suc n) seed =
    omega (arith, length-random_blocks n ((seed * 6364136223846793005 + 1) % 2 ^ 64))

-- A packet is 1536 bytes, whatever the time, and so is the echo of one.
pub length-generate_packet : (now : ℕ) → length (generate_packet now) ≡ handshake_size
unfolding generate_packet
length-generate_packet now = omega (arith, length-random_blocks 191 now)

pub length-generate_echo :
    (now : ℕ) (peer : Bytes)
    → length peer ≡ handshake_size
    → length (generate_echo now peer) ≡ handshake_size
unfolding generate_echo
length-generate_echo now peer h = omega (
  arith,
  length-append (take 4 peer) (put_u32 now ++ drop 8 peer),
  length-take 4 peer,
  length-drop 8 peer,
)

pub acceptable :
    (version : ℕ) → 3 ≤ version → (not (version == rtmp_version) && ltb version 3) ≡ false
acceptable version h = ground arith

-- What the server makes of a client's whole first packet with an acceptable version, whatever follows.
pub server_packet_whole :
    (now later version : ℕ) (h : Handshake) (c1 rest : Bytes)
    → length c1 ≡ handshake_size
    → 3 ≤ version
    → server_packet now later h (version ∷ (c1 ++ rest)) ≡ record {
      handshake = record h {
        peer_packet = some c1;
        our_packet = some (generate_packet now);
        state = waiting_for_peer_response;
      };
      input = rest;
      result = ok (some (rtmp_version ∷ (generate_packet now ++ generate_echo later c1)));
    }
unfolding server_packet
server_packet_whole now later version h c1 rest hl hv = rw (
  le→ltb (length (version ∷ (c1 ++ rest))) (1 + handshake_size)
      (omega (arith, length-append c1 rest)),
  acceptable version hv,
  take-append_exact handshake_size c1 rest (sym hl),
  drop-append_exact handshake_size c1 rest (sym hl),
)

pub client_packet_whole :
    (now version : ℕ) (h : Handshake) (s1 s2 rest : Bytes)
    → length s1 ≡ handshake_size
    → length s2 ≡ handshake_size
    → 3 ≤ version
    → client_packet now h (version ∷ (s1 ++ (s2 ++ rest))) ≡ record {
      handshake = record h { peer_packet = some s1; state = done };
      input = rest;
      result = ok (some (generate_echo now s1));
    }
unfolding client_packet
client_packet_whole now version h s1 s2 rest h1 h2 hv = rw (
  le→ltb (length (version ∷ (s1 ++ (s2 ++ rest)))) (1 + handshake_size * 2)
      (omega (arith, length-append s1 (s2 ++ rest), length-append s2 rest)),
  acceptable version hv,
  take-append_exact handshake_size s1 (s2 ++ rest) (sym h1),
  drop-append_exact handshake_size s1 (s2 ++ rest) (sym h1),
  drop-append_exact handshake_size s2 rest (sym h2),
)

pub server_response_whole :
    (h : Handshake) (c2 rest : Bytes)
    → length c2 ≡ handshake_size
    → server_response h (c2 ++ rest)
      ≡ record { handshake = record h { state = done }; input = rest; result = ok none }
unfolding server_response
server_response_whole h c2 rest hl = rw (
  le→ltb (length (c2 ++ rest)) handshake_size (omega (arith, length-append c2 rest)),
  drop-append_exact handshake_size c2 rest (sym hl),
)
