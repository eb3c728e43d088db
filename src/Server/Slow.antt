-- ===== src/Server/Slow.antt =====
-- Slow and paused subscribers (server/connection.rs).
use rtmp_rs.Prelude.{
  ℕ, zero, suc, ◌-◌, drop, not, ◌||◌, ◌+◌, Bool, true, false, ◌≡◌, refl, ap, ◌∙◌, List, [], ◌∷◌,
  if◌then◌else◌, ltb, leb, length, ok, err, arith,
}
use rtmp_rs.Registry.Frame.{BroadcastFrame}
use rtmp_rs.Registry.Entry.{Broadcast}
use rtmp_rs.Message.Types.{rejected}
use rtmp_rs.Server.Connection.{Connection, Outcome, done, and_then}
use rtmp_rs.Server.Subscriber.{counted, skipping, send_broadcast_frame, send_frames, handle_lag}

module _ (B : Broadcast) where
  -- Lags of a connection with no frame between them, up to the first that closes it.
  unfoldable pub handle_lags : List ℕ → Connection B → Outcome B
  unfolding handle_lag
  handle_lags [] c = done B c
  handle_lags (n ∷ ns) c = and_then B (handle_lag B n c) (handle_lags ns)

  -- Whether one of the lags loses as many frames as the lower threshold.
  abbrev pub any_large : ℕ → List ℕ → Bool
  any_large low [] = false
  any_large low (n ∷ ns) = not (ltb n low) || any_large low ns

  -- The lags that come when no more of them are allowed, the count being that of `c`.
  abbrev pub past_limit : Connection B → List ℕ → List ℕ
  past_limit c ns =
      drop (c.lag_config.max_consecutive_lag_events - (c.consecutive_lag_count + 1)) ns

  -- A lag, on whether it is minor and whether it is past the limit.
  abbrev lag_on : Bool → Bool → Connection B → Outcome B
  lag_on true last c = done B (counted B c)
  lag_on false true c = (skipping B (counted B c), err rejected)
  lag_on false false c = done B (skipping B (counted B c))

  handle_lag_cases :
      (n : ℕ) (c : Connection B)
      → handle_lag B n c
        ≡ lag_on
            (ltb n c.lag_config.lag_threshold_low)
            (leb c.lag_config.max_consecutive_lag_events (c.consecutive_lag_count + 1))
            c
  unfolding handle_lag
  handle_lag_cases n c = ground arith

  -- The same with the number of lags that are still allowed.
  handle_lags_within :
      (ns : List ℕ) (k : ℕ) (c : Connection B)
      → c.lag_config.max_consecutive_lag_events - (c.consecutive_lag_count + 1) ≡ k
      → (handle_lags ns c).1
        ≡ (if any_large c.lag_config.lag_threshold_low (drop k ns) then err rejected else ok tt)
  unfolding handle_lags
  handle_lags_within [] zero c e = refl
  handle_lags_within [] (suc k) c e = refl
  handle_lags_within (n ∷ ns) zero c e =
      let last : leb c.lag_config.max_consecutive_lag_events (c.consecutive_lag_count + 1) ≡ true =
        ground arith in
      ap (λ o. (and_then B o (handle_lags ns)).1) (handle_lag_cases n c)
      ∙ ap
          (λ l. (and_then B (lag_on (ltb n c.lag_config.lag_threshold_low) l c) (handle_lags ns)).1)
          last
      ∙ on (ltb n c.lag_config.lag_threshold_low)
          (handle_lags_within ns 0 (counted B c) (omega arith))
    where
      on :
          (minor : Bool)
          → (handle_lags ns (counted B c)).1
            ≡ (if any_large c.lag_config.lag_threshold_low ns then err rejected else ok tt)
          → (and_then B (lag_on minor true c) (handle_lags ns)).1 ≡ (
              if not minor || any_large c.lag_config.lag_threshold_low ns
              then err rejected
              else ok tt)
      on true rest = rest
      on false rest = refl
  handle_lags_within (n ∷ ns) (suc k) c e =
      let more : leb c.lag_config.max_consecutive_lag_events (c.consecutive_lag_count + 1) ≡ false =
        ground arith in
      ap (λ o. (and_then B o (handle_lags ns)).1) (handle_lag_cases n c)
      ∙ ap
          (λ l. (and_then B (lag_on (ltb n c.lag_config.lag_threshold_low) l c) (handle_lags ns)).1)
          more
      ∙ on (ltb n c.lag_config.lag_threshold_low)
          (handle_lags_within ns k (counted B c) (omega arith))
          (handle_lags_within ns k (skipping B (counted B c)) (omega arith))
    where
      on :
          (minor : Bool)
          → (handle_lags ns (counted B c)).1
            ≡ (if any_large c.lag_config.lag_threshold_low (drop k ns) then err rejected else ok tt)
          → (handle_lags ns (skipping B (counted B c))).1
            ≡ (if any_large c.lag_config.lag_threshold_low (drop k ns) then err rejected else ok tt)
          → (and_then B (lag_on minor false c) (handle_lags ns)).1
            ≡ (if any_large c.lag_config.lag_threshold_low (drop k ns) then err rejected else ok tt)
      on true rest other = rest
      on false rest other = other

  pub handle_lags_result :
      (ns : List ℕ) (c : Connection B)
      → (handle_lags ns c).1 ≡ (
          if any_large c.lag_config.lag_threshold_low (past_limit c ns)
          then err rejected
          else ok tt)
  handle_lags_result ns c =
      handle_lags_within ns
        (c.lag_config.max_consecutive_lag_events - (c.consecutive_lag_count + 1)) c refl

  -- While a connection is paused, frames are counted and do nothing else.
  pub send_frames-paused :
      (fs : List BroadcastFrame) (c : Connection B)
      → c.is_paused ≡ true
      → send_frames B fs c
        ≡ record c { frames_dropped_while_paused = c.frames_dropped_while_paused + length fs }
  unfolding send_frames send_broadcast_frame
  send_frames-paused [] c p = ap (λ n. record c { frames_dropped_while_paused = n }) (omega arith)
  send_frames-paused (f ∷ fs) c p =
      let c' = record c { frames_dropped_while_paused = c.frames_dropped_while_paused + 1 } in
      ap (send_frames B fs) (rw p refl)
      ∙ send_frames-paused fs c' p
      ∙ ap (λ n. record c { frames_dropped_while_paused = n }) (omega arith)
