-- ===== src/Enhanced/Negotiation.antt =====
-- What the server and a client agree on (protocol/enhanced.rs, server/connection.rs).
use Prim.Native.Nat.{bit_and}
use rtmp_rs.Prelude.{
  ℕ, ◌≡◌, refl, inl, inr, Bool-cases, true, Option, none, some, List, [], ◌∷◌, if◌then◌else◌, ◌==◌,
  ok, err, arith,
}
use rtmp_rs.Prelude.Map.{Eq, get, insert, get-insert}
use rtmp_rs.Registry.Keys.{distinct, distinct-insert}
use rtmp_rs.Message.Connect.{ConnectParams, has_enhanced_rtmp}
use rtmp_rs.Message.Types.{rejected}
use rtmp_rs.Enhanced.FourCc.{VideoFourCc, AudioFourCc, video_eq, audio_eq}
use rtmp_rs.Enhanced.Capabilities.{
  Codecs, EnhancedCapabilities, EnhancedServerCapabilities, common, intersect_codecs, insert_codecs,
  intersect, client_capabilities, server_capabilities, negotiate, auto, legacy_only, enhanced_only,
}

-- What both ends can do with a codec; none where that is nothing.
abbrev pub shared : Option ℕ → Option ℕ → Option ℕ
shared none b = none
shared (some x) none = none
shared (some x) (some y) = if bit_and x y == 0 then none else some (bit_and x y)

-- The same over what is there already.
abbrev shared_or : Option ℕ → Option ℕ → Option ℕ → Option ℕ
shared_or none b z = z
shared_or (some x) none z = z
shared_or (some x) (some y) z = if bit_and x y == 0 then z else some (bit_and x y)

shared_or-none : (a b : Option ℕ) → shared_or a b none ≡ shared a b
shared_or-none none b = refl
shared_or-none (some x) none = refl
shared_or-none (some x) (some y) = refl

module _ {C : Type 0} ⦃e : Eq C⦄ where
  get-common :
      (d : C) (bits : ℕ) (o : Option ℕ) (acc : Codecs C) (c : C)
      → get (common d bits o acc) c
        ≡ (if e.beq d c then shared_or (some bits) o (get acc c) else get acc c)
  get-common d bits none acc c = ground arith
  get-common d bits (some y) acc c = ground (arith, get-insert acc d (bit_and bits y) c)

  get-intersect_codecs :
      (a b acc : Codecs C) (c : C)
      → distinct a ≡ true
      → get (intersect_codecs a b acc) c ≡ shared_or (get a c) (get b c) (get acc c)
  unfolding intersect_codecs distinct get
  get-intersect_codecs [] b acc c h = refl
  get-intersect_codecs ((d, bits) ∷ m) b acc c h = ground (
    arith,
    e.beq_iff d c,
    get-common d bits (get b d) acc c,
    get-intersect_codecs m b (common d bits (get b d) acc) c,
  )

  -- The intersection holds a codec with what both ends can do with it, if that is anything.
  pub get-intersect :
      (a b : Codecs C) (c : C)
      → distinct a ≡ true
      → get (intersect_codecs a b []) c ≡ shared (get a c) (get b c)
  unfolding get
  get-intersect a b c h = rw (get-intersect_codecs a b [] c h) (shared_or-none (get a c) (get b c))

  insert_codecs-IsDistinct :
      (l : List (C × ℕ)) (acc : Codecs C)
      → distinct acc ≡ true
      → distinct (insert_codecs l acc) ≡ true
  unfolding insert_codecs
  insert_codecs-IsDistinct [] acc h = h
  insert_codecs-IsDistinct ((c, bits) ∷ l) acc h =
      insert_codecs-IsDistinct l (insert acc c bits) (distinct-insert acc c bits h)

  pub new_codecs-IsDistinct : (l : List (C × ℕ)) → distinct (insert_codecs l []) ≡ true
  unfolding distinct
  new_codecs-IsDistinct l = insert_codecs-IsDistinct l [] refl

-- What a negotiation has come to: the capabilities of the two ends combined.
pub record IsAgreed (s : EnhancedServerCapabilities) (p : ConnectParams)
    (caps : EnhancedCapabilities) : Type 0 where
  pub is_on : caps.enabled ≡ true
  pub flags : caps.caps_ex ≡ bit_and (server_capabilities s).caps_ex (client_capabilities p).caps_ex
  pub video :
      (c : VideoFourCc)
      → get caps.video_codecs c
        ≡ shared
            (get (server_capabilities s).video_codecs c)
            (get (client_capabilities p).video_codecs c)
  pub audio :
      (c : AudioFourCc)
      → get caps.audio_codecs c
        ≡ shared
            (get (server_capabilities s).audio_codecs c)
            (get (client_capabilities p).audio_codecs c)

client_enabled :
    (p : ConnectParams) → has_enhanced_rtmp p ≡ true → (client_capabilities p).enabled ≡ true
unfolding client_capabilities
client_enabled p h = rw h refl

agreed : EnhancedServerCapabilities → ConnectParams → EnhancedCapabilities
agreed s p = record {
  enabled = true;
  caps_ex = bit_and (server_capabilities s).caps_ex (client_capabilities p).caps_ex;
  video_codecs =
      intersect_codecs (server_capabilities s).video_codecs (client_capabilities p).video_codecs [];
  audio_codecs =
      intersect_codecs (server_capabilities s).audio_codecs (client_capabilities p).audio_codecs [];
  video_function =
      bit_and (server_capabilities s).video_function (client_capabilities p).video_function;
}

intersect-agreed :
    (s : EnhancedServerCapabilities) (p : ConnectParams)
    → has_enhanced_rtmp p ≡ true
    → intersect (server_capabilities s) (client_capabilities p) ≡ agreed s p
unfolding intersect server_capabilities agreed
intersect-agreed s p h = rw (client_enabled p h) refl

agreed-IsAgreed : (s : EnhancedServerCapabilities) (p : ConnectParams) → IsAgreed s p (agreed s p)
unfolding agreed server_capabilities
agreed-IsAgreed s p = record {
  is_on = refl;
  flags = refl;
  video = λ c.
      get-intersect (insert_codecs s.video_codecs []) (client_capabilities p).video_codecs c
        (new_codecs-IsDistinct s.video_codecs);
  audio = λ c.
      get-intersect (insert_codecs s.audio_codecs []) (client_capabilities p).audio_codecs c
        (new_codecs-IsDistinct s.audio_codecs);
}

-- A client that sends any of the fields of enhanced RTMP gets, in the modes `auto` and
-- `enhanced_only` alike, exactly the codecs that both ends can do something with, with what both can
-- do, and the flags of both, and the result is enabled even where that is nothing. In `auto`, a
-- client without them is served as a legacy client; in `enhanced_only` it is rejected.
pub negotiate_cases :
    (s : EnhancedServerCapabilities) (p : ConnectParams)
    → (caps : EnhancedCapabilities) × IsAgreed s p caps
      × (negotiate legacy_only s p ≡ ok none)
      × (negotiate auto s p ≡ (if has_enhanced_rtmp p then ok (some caps) else ok none))
      × (negotiate enhanced_only s p
          ≡ (if has_enhanced_rtmp p then ok (some caps) else err rejected))
unfolding negotiate agreed
negotiate_cases s p = (agreed s p, agreed-IsAgreed s p, refl, auto_case, only_case)
  where
    auto_case :
        negotiate auto s p ≡ (if has_enhanced_rtmp p then ok (some (agreed s p)) else ok none)
    auto_case = elim (Bool-cases (has_enhanced_rtmp p)) [
      | inl h ↦ rw h (rw (intersect-agreed s p h) refl)
      | inr h ↦ rw h refl
    ]

    only_case :
        negotiate enhanced_only s p
        ≡ (if has_enhanced_rtmp p then ok (some (agreed s p)) else err rejected)
    only_case = elim (Bool-cases (has_enhanced_rtmp p)) [
      | inl h ↦ rw h (rw (intersect-agreed s p h) refl)
      | inr h ↦ rw h refl
    ]
