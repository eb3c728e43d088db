-- ===== src/Handshake/Exchange.antt =====
-- A handshake between two ends of this code, and what an end does on too few bytes or a bad version
-- (protocol/handshake.rs).
use rtmp_rs.Prelude.{ℕ, ◌≡◌, refl, true, none, some, ◌∷◌, ◌++◌, ok, arith, append_assoc}
use rtmp_rs.Bytes.{Bytes}
use rtmp_rs.Constants.{rtmp_version}
use rtmp_rs.Handshake.Machine.{
  Handshake, client, server, waiting_for_peer_response, generate_packet, generate_echo,
  generate_initial, process, new, is_done,
}
use rtmp_rs.Handshake.Packets.{
  length-generate_packet, length-generate_echo, server_packet_whole, client_packet_whole,
  server_response_whole,
}

-- The run of a client and a server at the times `t₀` to `t₃`, with bytes behind each packet: what
-- each step returns and leaves, and that both ends are done.
abbrev pub Completes : ℕ → ℕ → ℕ → ℕ → Bytes → Bytes → Bytes → Type 0
Completes t₀ t₁ t₂ t₃ after_c1 after_s2 after_c2 =
    let (c, c0c1) = generate_initial t₀ (new client) in
    let (s, nothing) = generate_initial t₀ (new server) in
    let c1 = generate_packet t₀ in
    let s1 = generate_packet t₁ in
    let s012 = rtmp_version ∷ (s1 ++ generate_echo t₂ c1) in
    let c2 = generate_echo t₃ s1 in
    let at_server = process t₁ t₂ s ((rtmp_version ∷ c1) ++ after_c1) in
    let at_client = process t₃ t₃ c (s012 ++ after_s2) in
    let at_end = process t₃ t₃ at_server.handshake (c2 ++ after_c2) in
    (c0c1 ≡ some (rtmp_version ∷ c1))
    × (nothing ≡ none)
    × (at_server.result ≡ ok (some s012))
    × (at_server.input ≡ after_c1)
    × (at_client.result ≡ ok (some c2))
    × (at_client.input ≡ after_s2)
    × (is_done at_client.handshake ≡ true)
    × (at_end.result ≡ ok none)
    × (at_end.input ≡ after_c2)
    × (is_done at_end.handshake ≡ true)

-- A client and a server of this code complete the handshake, at any times of their clocks and with
-- any bytes behind each packet: the server takes the client's version and packet and answers with
-- its version, its packet and an echo of the client's, the client takes those, answers with an echo
-- of the server's packet and is done, the server takes that and is done. What follows a packet stays
-- in the buffer.
pub handshake-Completes :
    (t₀ t₁ t₂ t₃ : ℕ) (after_c1 after_s2 after_c2 : Bytes)
    → Completes t₀ t₁ t₂ t₃ after_c1 after_s2 after_c2
unfolding generate_initial new process
handshake-Completes t₀ t₁ t₂ t₃ after_c1 after_s2 after_c2 =
    let c1 = generate_packet t₀ in
    let s1 = generate_packet t₁ in
    let s2 = generate_echo t₂ c1 in
    let c2 = generate_echo t₃ s1 in
    let (s, _) = generate_initial t₀ (new server) in
    let (c, _) = generate_initial t₀ (new client) in
    let first =
      server_packet_whole t₁ t₂ rtmp_version s c1 after_c1 (length-generate_packet t₀)
        (omega arith) in
    let second =
      client_packet_whole t₃ rtmp_version c s1 s2 after_s2 (length-generate_packet t₁)
        (length-generate_echo t₂ c1 (length-generate_packet t₀)) (omega arith) in
    let answered : Handshake = record {
      role = server;
      state = waiting_for_peer_response;
      our_packet = some s1;
      peer_packet = some c1;
    } in
    let third =
      server_response_whole answered c2 after_c2
        (length-generate_echo t₃ s1 (length-generate_packet t₁)) in
    rw (first, append_assoc s1 s2 after_s2, second, third)
      (refl, refl, refl, refl, refl, refl, refl, refl, refl, refl)
