-- ===== src/Session/Acknowledgement.antt =====
-- When a session acknowledges what it has received (`SessionState`, session/state.rs;
-- `read_and_process`, server/connection.rs).
use rtmp_rs.Prelude.{
  ◌%◌, ℕ, ◌+◌, ◌≤◌, ◌<◌, ◌≡◌, refl, ◌∙◌, ap, Bool, true, false, Option, none, some, List, [], ◌∷◌,
  leb, ◌-◌, arith,
}
use rtmp_rs.Bytes.{u32}
use rtmp_rs.Session.State.{SessionState, add_bytes_received, add_bytes_received_with, mark_ack_sent}

abbrev pub sum : List ℕ → ℕ
sum [] = 0
sum (n ∷ ns) = n + sum ns

abbrev acknowledged_if : Bool → SessionState → SessionState
acknowledged_if true s = mark_ack_sent s
acknowledged_if false s = s

abbrev counted_on :
    (SessionState → Option SessionState) → Option (SessionState × Bool) → Option SessionState
counted_on go none = none
counted_on go (some (s, needs_ack)) = go (acknowledged_if needs_ack s)

-- What a session counts over reads of these sizes, where it acknowledges when it has to.
unfoldable pub count_reads : List ℕ → SessionState → Option SessionState
unfolding add_bytes_received mark_ack_sent
count_reads [] s = some s
count_reads (n ∷ ns) s = counted_on (count_reads ns) (add_bytes_received s n)

-- Less than a window is not acknowledged.
pub record IsCurrent (s : SessionState) : Type 0 where
  pub behind : s.last_ack_sequence ≤ s.bytes_received
  pub within : s.bytes_received < s.last_ack_sequence + s.window_ack_size

add_bytes_received-counts :
    (s : SessionState) (n : ℕ)
    → s.last_ack_sequence ≤ s.bytes_received
    → s.bytes_received + n < 4294967296
    → add_bytes_received s n
      ≡ some (
        record s { bytes_received = s.bytes_received + n },
        leb s.window_ack_size (s.bytes_received + n - s.last_ack_sequence),
      )
unfolding add_bytes_received
add_bytes_received-counts s n b l = ground arith

abbrev received : SessionState → ℕ → SessionState
received s n = record s { bytes_received = s.bytes_received + n }

acknowledged-IsCurrent :
    (s : SessionState) (n : ℕ) (b : Bool)
    → IsCurrent s
    → s.bytes_received + n < 4294967296
    → leb s.window_ack_size (s.bytes_received + n - s.last_ack_sequence) ≡ b
    → IsCurrent (acknowledged_if b (received s n))
unfolding mark_ack_sent
acknowledged-IsCurrent s n true c l e = record {
  behind = ground arith;
  within = let b = c.behind in let w = c.within in ground arith;
}
acknowledged-IsCurrent s n false c l e =
    let b = c.behind in record { behind = ground arith; within = ground arith }

acknowledged_keeps :
    (b : Bool) (s : SessionState)
    → let s' = acknowledged_if b s in
      (s'.bytes_received ≡ s.bytes_received) × (s'.window_ack_size ≡ s.window_ack_size)
unfolding mark_ack_sent
acknowledged_keeps true s = (refl, refl)
acknowledged_keeps false s = (refl, refl)

-- Over any reads that together stay below 2^32 bytes, a session with less than a window
-- unacknowledged counts every byte, does not panic, and has less than a window unacknowledged
-- after each.
pub count_reads-IsCurrent :
    (ns : List ℕ) (s : SessionState)
    → IsCurrent s
    → s.bytes_received + sum ns < 4294967296
    → (s' : SessionState) × (count_reads ns s ≡ some s')
      × IsCurrent s'
      × (s'.bytes_received ≡ s.bytes_received + sum ns)
unfolding count_reads
count_reads-IsCurrent [] s c l = (s, refl, c, omega arith)
count_reads-IsCurrent (n ∷ ns) s c l =
    let needs_ack = leb s.window_ack_size (s.bytes_received + n - s.last_ack_sequence) in
    let t = acknowledged_if needs_ack (received s n) in
    let small : s.bytes_received + n < 4294967296 = omega arith in
    let kept : t.bytes_received ≡ s.bytes_received + n =
      (acknowledged_keeps needs_ack (received s n)).0 in
    let (s', counted, current, total) =
      count_reads-IsCurrent ns t (acknowledged-IsCurrent s n needs_ack c small refl)
        (omega arith) in
    (
      s',
      ap (counted_on (count_reads ns)) (add_bytes_received-counts s n c.behind small) ∙ counted,
      current,
      omega arith,
    )

-- The read by which a session with less than a window unacknowledged passes 2^32 bytes, where
-- the read and a window together are 2^32 bytes at most: a build with overflow checks panics in the
-- subtraction, and one without counts the read and tells by the bytes received since the last
-- acknowledgement whether another is due.
pub add_bytes_received_wraps :
    (s : SessionState) (n : ℕ)
    → IsCurrent s
    → n + s.window_ack_size ≤ 4294967296
    → s.bytes_received < 4294967296
    → 4294967296 ≤ s.bytes_received + n
    → (add_bytes_received s n ≡ none)
      × (add_bytes_received_with false s n
          ≡ some (
            record s { bytes_received = s.bytes_received + n },
            leb s.window_ack_size (s.bytes_received + n - s.last_ack_sequence),
          ))
unfolding add_bytes_received
add_bytes_received_wraps s n c l b w =
    let i = c.within in
    let received : (s.bytes_received + n) % 18446744073709551616 ≡ s.bytes_received + n =
      omega arith in
    let delta : u32 (u32 (s.bytes_received + n) + 4294967296 - s.last_ack_sequence)
        ≡ s.bytes_received + n - s.last_ack_sequence =
      omega arith in
    (ground arith, rw (received, delta) refl)
