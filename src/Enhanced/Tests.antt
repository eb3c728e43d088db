-- ===== src/Enhanced/Tests.antt =====
-- The negotiation of a client that offers AV1 in a list.
use rtmp_rs.Prelude.{◌≡◌, some, none, [], ◌∷◌, ok, err, if◌then◌else◌}
use rtmp_rs.Prelude.Text.{codes}
use rtmp_rs.Message.Types.{rejected}
use rtmp_rs.Message.Connect.{ConnectParams, default_params, has_enhanced_rtmp}
use rtmp_rs.Enhanced.Capabilities.{
  EnhancedCapabilities, default_server, negotiate, auto, legacy_only, enhanced_only,
}
use rtmp_rs.Enhanced.Negotiation.{IsAgreed, negotiate_cases}

abbrev offers_av1 : ConnectParams
offers_av1 = record default_params { fourcc_list = some (codes "av01" ∷ []) }

negotiate_cases_example :
    (caps : EnhancedCapabilities) × IsAgreed default_server offers_av1 caps
    × (negotiate legacy_only default_server offers_av1 ≡ ok none)
    × (negotiate auto default_server offers_av1
        ≡ (if has_enhanced_rtmp offers_av1 then ok (some caps) else ok none))
    × (negotiate enhanced_only default_server offers_av1
        ≡ (if has_enhanced_rtmp offers_av1 then ok (some caps) else err rejected))
negotiate_cases_example = negotiate_cases default_server offers_av1
