-- ===== src/Quirks/Timestamps.antt =====
-- What `TimestampNormalizer` makes of timestamps (protocol/quirks.rs).
use rtmp_rs.Prelude.{ℕ, ◌+◌, ◌<◌, ◌≡◌, some, arith}
use rtmp_rs.Quirks.{normalize}

-- Where timestamps go back by more than a second, from an offset of 0, the first comes out behind
-- the last; but the next one is again compared with what came out, and is moved once more: it comes
-- out `u + 1` later than the first, unless more than `last - 1000` lies between the two.
pub normalize_drifts :
    (last t u : ℕ)
    → t + 1000 < last
    → u + 1000 < t + last + 1
    → t + u + last + 2 < 4294967296
    → (normalize (record { last_timestamp = last; offset = 0 }) t
        ≡ some (record { last_timestamp = t + last + 1; offset = last + 1 }, t + last + 1))
      × (normalize (record { last_timestamp = t + last + 1; offset = last + 1 }) u
          ≡ some (
            record { last_timestamp = u + t + last + 2; offset = t + last + 2 },
            u + t + last + 2,
          ))
unfolding normalize
normalize_drifts last t u back close small = (ground arith, ground arith)
