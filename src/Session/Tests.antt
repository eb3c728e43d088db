-- ===== src/Session/Tests.antt =====
-- The theorems on sessions at a session of many bytes.
use rtmp_rs.Prelude.{◌+◌, ◌-◌, leb, false, ◌<◌, ◌≡◌, none, some, [], ◌∷◌, arith}
use rtmp_rs.Quirks.{unknown}
use rtmp_rs.Session.State
use rtmp_rs.Session.State.{
  SessionState, add_bytes_received, add_bytes_received_with, allocate_stream_id,
}
use rtmp_rs.Session.Acknowledgement.{
  sum, count_reads, IsCurrent, count_reads-IsCurrent, add_bytes_received_wraps,
}
use rtmp_rs.Session.Streams.{new-IsFresh, IsAllocated, allocate_stream_id-IsAllocated}

-- A session that has received all but 1000 of the bytes that a u32 counts.
abbrev full : SessionState
full = record {
  id = 1;
  phase = State.active;
  connected_at = 0;
  handshake_completed_at = none;
  connect_params = none;
  encoder_type = unknown;
  streams = [];
  next_stream_id = 1;
  in_chunk_size = 128;
  out_chunk_size = 128;
  window_ack_size = 2500000;
  bytes_received = 4294966296;
  bytes_sent = 0;
  last_ack_sequence = 4294000000;
}

full-IsCurrent : IsCurrent full
full-IsCurrent = record { behind = omega arith; within = omega arith }

count_reads-IsCurrent_example :
    (s' : SessionState) × (count_reads (400 ∷ (500 ∷ [])) full ≡ some s')
    × IsCurrent s'
    × (s'.bytes_received ≡ full.bytes_received + sum (400 ∷ (500 ∷ [])))
count_reads-IsCurrent_example =
    count_reads-IsCurrent (400 ∷ (500 ∷ [])) full full-IsCurrent (omega arith)

add_bytes_received_wraps_example :
    (add_bytes_received full 4096 ≡ none)
    × (add_bytes_received_with false full 4096
        ≡ some (
          record full { bytes_received = full.bytes_received + 4096 },
          leb full.window_ack_size (full.bytes_received + 4096 - full.last_ack_sequence),
        ))
add_bytes_received_wraps_example =
    add_bytes_received_wraps full 4096 full-IsCurrent (omega arith) (omega arith) (omega arith)

started_id : (State.new 0 7).next_stream_id < 4294967295
unfolding State.new
started_id = omega arith

allocate_stream_id-IsAllocated_example :
    (s' : SessionState) × (allocate_stream_id (State.new 0 7)
      ≡ some (s', (State.new 0 7).next_stream_id))
    × IsAllocated (State.new 0 7) s' (State.new 0 7).next_stream_id
allocate_stream_id-IsAllocated_example =
    allocate_stream_id-IsAllocated (State.new 0 7) (new-IsFresh 0 7) started_id
