-- ===== src/Server/Life.antt =====
-- The life of a connection: what arrives, what is played, what other connections do to the registry,
-- and its end (server/connection.rs, registry/store.rs).
use rtmp_rs.Prelude.{
  ℕ, zero, suc, Bool, true, false, length, ◌≡◌, refl, Option, none, some, ◌++◌, if◌then◌else◌, ltb,
  is_empty, Result, ok, err, panic, arith,
}
use rtmp_rs.Bytes.{Bytes}
use rtmp_rs.Error.{ProtocolError}
use rtmp_rs.Chunk.State.{RtmpChunk}
use rtmp_rs.Chunk.Decoder
use rtmp_rs.Chunk.Decoder.{Decoded}
use rtmp_rs.Registry.Frame.{key_eq, BroadcastFrame}
use rtmp_rs.Registry.Entry.{Broadcast}
use rtmp_rs.Registry.Publishing.{Operation, apply}
use rtmp_rs.Session.State.{SessionState, add_bytes_received}
use rtmp_rs.Server.Handler.{Handler}
use rtmp_rs.Server.Connection.{Connection, Outcome, done, and_then, send_acknowledgement}
use rtmp_rs.Server.Subscriber.{send_broadcast_frame, handle_lag}
use rtmp_rs.Server.Receive.{
  handle_chunk, took, stopped, round, message_round, process, process_messages, process_buffer,
  counted_on, acknowledged, receive, read_and_process,
}
use rtmp_rs.Server.Ownership.{unregisters, IsSound, operation-IsSound}
use rtmp_rs.Server.Soundness.{Same, same, by_Same, send_broadcast_frame-Same}
use rtmp_rs.Server.Publishing.{handle_chunk-IsSound}

add_bytes_received-id :
    (s s' : SessionState) (n : ℕ) (b : Bool) → add_bytes_received s n ≡ some (s', b) → s'.id ≡ s.id
unfolding add_bytes_received
add_bytes_received-id s s' n b e = ground arith

module _ (B : Broadcast) where
  module _ (h : Handler) (now : ℕ) where
    and_then-IsSound :
        (o : Outcome B) (go : Connection B → Outcome B)
        → IsSound B o.0
        → ((c : Connection B) → IsSound B c → IsSound B (go c).0)
        → IsSound B (and_then B o go).0
    and_then-IsSound (c, ok u) go s step = step c s
    and_then-IsSound (c, err e) go s step = s
    and_then-IsSound (c, panic) go s step = s

    took-IsSound : (c : Connection B) (r : Decoded) → IsSound B c → IsSound B (took B h now c r)
    took-IsSound c r s = by_Same B c (took B h now c r) (same B c) s

    stopped-IsSound :
        (c : Connection B) (r : Decoded) (o : Result ProtocolError (Option RtmpChunk))
        → IsSound B c
        → IsSound B (stopped B h now c r o).0
    stopped-IsSound c r (ok o) s = took-IsSound c r s
    stopped-IsSound c r (err e) s = took-IsSound c r s
    stopped-IsSound c r panic s = took-IsSound c r s

    if-IsSound :
        (t : Bool) (x y : Outcome B)
        → IsSound B x.0
        → IsSound B y.0
        → IsSound B (if t then x else y).0
    if-IsSound true x y p q = p
    if-IsSound false x y p q = q

    module _ (go : Connection B → Outcome B)
        (step : (c : Connection B) → IsSound B c → IsSound B (go c).0) where
      round-IsSound :
          (c : Connection B) (r : Decoded) (o : Result ProtocolError (Option RtmpChunk))
          → IsSound B c
          → IsSound B (round B h now go c r o).0
      round-IsSound c r (ok (some x)) s =
          and_then-IsSound (handle_chunk B h now x (took B h now c r)) go
            (handle_chunk-IsSound B h now x (took B h now c r) (took-IsSound c r s)) step
      round-IsSound c r (ok none) s =
          if-IsSound (ltb (length r.buf) (length c.read_buf)) (go (took B h now c r))
            (stopped B h now c r (ok none)) (step (took B h now c r) (took-IsSound c r s))
            (stopped-IsSound c r (ok none) s)
      round-IsSound c r (err e) s = stopped-IsSound c r (err e) s
      round-IsSound c r panic s = stopped-IsSound c r panic s

      message_round-IsSound :
          (c : Connection B) (r : Decoded) (o : Result ProtocolError (Option RtmpChunk))
          → IsSound B c
          → IsSound B (message_round B h now go c r o).0
      message_round-IsSound c r (ok (some x)) s =
          and_then-IsSound (handle_chunk B h now x (took B h now c r)) go
            (handle_chunk-IsSound B h now x (took B h now c r) (took-IsSound c r s)) step
      message_round-IsSound c r (ok none) s = stopped-IsSound c r (ok none) s
      message_round-IsSound c r (err e) s = stopped-IsSound c r (err e) s
      message_round-IsSound c r panic s = stopped-IsSound c r panic s

    process-IsSound : (f : ℕ) (c : Connection B) → IsSound B c → IsSound B (process B h now f c).0
    unfolding process
    process-IsSound zero c s =
        let r = Decoder.decode c.chunk_decoder c.read_buf in stopped-IsSound c r r.result s
    process-IsSound (suc f) c s =
        let r = Decoder.decode c.chunk_decoder c.read_buf in
        round-IsSound (process B h now f) (process-IsSound f) c r r.result s

    process_messages-IsSound :
        (f : ℕ) (c : Connection B) → IsSound B c → IsSound B (process_messages B h now f c).0
    unfolding process_messages
    process_messages-IsSound zero c s =
        let r = Decoder.decode c.chunk_decoder c.read_buf in stopped-IsSound c r r.result s
    process_messages-IsSound (suc f) c s =
        let r = Decoder.decode c.chunk_decoder c.read_buf in
        message_round-IsSound (process_messages B h now f) (process_messages-IsSound f) c r r.result
          s

    acknowledged-IsSound :
        (t : Bool) (c : Connection B) → IsSound B c → IsSound B (acknowledged B h now t c).0
    unfolding send_acknowledgement
    acknowledged-IsSound true c s = by_Same B c (send_acknowledgement B c) (refl, refl, refl) s
    acknowledged-IsSound false c s = s

    receive-IsSound :
        (bytes : Bytes) (c : Connection B) → IsSound B c → IsSound B (receive B h now bytes c).0
    unfolding receive
    receive-IsSound bytes c s = on (add_bytes_received c.state (length bytes)) refl
      where
        on :
            (o : Option (SessionState × Bool))
            → add_bytes_received c.state (length bytes) ≡ o
            → IsSound B (counted_on B h now c bytes o).0
        on none e = s
        on (some (state, needs_ack)) e =
            let c' = record c { read_buf = c.read_buf ++ bytes; state = state } in
            and_then-IsSound (process_messages B h now (suc (length c'.read_buf)) c')
              (acknowledged B h now needs_ack)
              (process_messages-IsSound (suc (length c'.read_buf)) c' (
                by_Same B c c'
                  (refl, add_bytes_received-id c.state state (length bytes) needs_ack e, refl) s))
              (acknowledged-IsSound needs_ack)

    -- A read of the socket and all that follows from it.
    pub read_and_process-IsSound :
        (bytes : Bytes) (c : Connection B)
        → IsSound B c
        → IsSound B (read_and_process B h now bytes c).0
    unfolding read_and_process process_buffer
    read_and_process-IsSound bytes c s =
        and_then-IsSound (process_buffer B h now c)
          (λ c'. if is_empty bytes then done B c' else receive B h now bytes c')
          (process-IsSound (suc (length c.read_buf)) c s)
          (λ c' s'.
            if-IsSound (is_empty bytes) (done B c') (receive B h now bytes c') s'
              (receive-IsSound bytes c' s'))

  -- What happens to a connection before its end: bytes from the socket, frames and lag on its
  -- subscription, and operations of others on the registry. The application decides anew each time.
  pub data Step : Connection B → Connection B → Type 0 where
    reads :
        (h : Handler) (now : ℕ) (bytes : Bytes) (c : Connection B)
        → Step c (read_and_process B h now bytes c).0
    plays :
        (f : BroadcastFrame) (c : Connection B)
        → Step c (send_broadcast_frame B f (record c { consecutive_lag_count = 0 }))
    lags : (skipped : ℕ) (c : Connection B) → Step c (handle_lag B skipped c).0
    others :
        (op : Operation) (c : Connection B)
        → unregisters c.state.id op ≡ false
        → Step c (record c { registry = apply B c.registry op })

  pub data Reach (c : Connection B) : Connection B → Type 0 where
    here : Reach c c
    next : {d e : Connection B} → Reach c d → Step d e → Reach c e

  handle_lag-Same : (n : ℕ) (c : Connection B) → Same B c (handle_lag B n c).0
  unfolding handle_lag
  handle_lag-Same n c = ground arith

  pub Step-IsSound : {c d : Connection B} → Step c d → IsSound B c → IsSound B d
  Step-IsSound (reads h now bytes c) s = read_and_process-IsSound h now bytes c s
  Step-IsSound (plays f c) s =
      let c' = record c { consecutive_lag_count = 0 } in
      by_Same B c' (send_broadcast_frame B f c') (send_broadcast_frame-Same B f c')
        (by_Same B c c' (same B c) s)
  Step-IsSound (lags n c) s = by_Same B c (handle_lag B n c).0 (handle_lag-Same n c) s
  Step-IsSound (others op c quiet) s =
      operation-IsSound B c (record c { registry = apply B c.registry op }) op refl refl refl quiet
        s

  -- Over all that can happen to it, a sound connection stays sound: the registry stays valid,
  -- and the stream that the connection publishes is active and its own.
  pub Reach-IsSound : {c d : Connection B} → Reach c d → IsSound B c → IsSound B d
  Reach-IsSound here s = s
  Reach-IsSound (next r st) s = Step-IsSound st (Reach-IsSound r s)
