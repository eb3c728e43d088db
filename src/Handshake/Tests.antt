-- ===== src/Handshake/Tests.antt =====
-- The theorems on the handshake at concrete times and inputs.
use rtmp_rs.Prelude.{◌+◌, ◌≡◌, ◌↔◌, ◌<◌, refl, none, [], ◌∷◌, ok, err, arith}
use rtmp_rs.Constants.{handshake_size}
use rtmp_rs.Handshake.Machine.{
  Handshake, client, server, waiting_for_peer_packet, invalid_version, process, new,
  generate_initial, generate_packet, bytes_needed,
}
use rtmp_rs.Handshake.Packets.{length-generate_packet}
use rtmp_rs.Handshake.Exchange.{Completes, handshake-Completes}
use rtmp_rs.Handshake.Waits.{
  Reachable, fresh, started, process_waits, process_rejects_iff, client_needs_more,
}

handshake-Completes_example : Completes 1 20 21 40 (9 ∷ []) [] (8 ∷ 7 ∷ [])
handshake-Completes_example = handshake-Completes 1 20 21 40 (9 ∷ []) [] (8 ∷ 7 ∷ [])

abbrev waiting_server : Handshake
waiting_server = (generate_initial 5 (new server)).0

waiting_server-Reachable : Reachable waiting_server
waiting_server-Reachable = started 5 (new server) (fresh server)

waiting_server_needs : bytes_needed waiting_server ≡ 1537
unfolding bytes_needed generate_initial new
waiting_server_needs = refl

process_waits_example :
    process 6 7 waiting_server (3 ∷ 1 ∷ 2 ∷ [])
    ≡ record { handshake = waiting_server; input = 3 ∷ 1 ∷ 2 ∷ []; result = ok none }
process_waits_example =
    process_waits 6 7 waiting_server (3 ∷ 1 ∷ 2 ∷ []) waiting_server-Reachable
      (omega (arith, waiting_server_needs))

process_rejects_iff_example :
    let h : Handshake = record {
      role = server;
      state = waiting_for_peer_packet;
      our_packet = none;
      peer_packet = none;
    } in
    ((process 6 7 h (2 ∷ generate_packet 1)).result ≡ err (invalid_version 2)) ↔ (2 < 3)
process_rejects_iff_example =
    process_rejects_iff 6 7 server none none 2 (generate_packet 1)
      (omega (arith, length-generate_packet 1))

client_needs_more_example :
    let h : Handshake = record {
      role = client;
      state = waiting_for_peer_packet;
      our_packet = none;
      peer_packet = none;
    } in
    (bytes_needed h ≡ 1 + handshake_size)
    × (process 6 7 h (3 ∷ generate_packet 1)
        ≡ record { handshake = h; input = 3 ∷ generate_packet 1; result = ok none })
client_needs_more_example =
    client_needs_more 6 7 none none (3 ∷ generate_packet 1)
      (omega (arith, length-generate_packet 1))
