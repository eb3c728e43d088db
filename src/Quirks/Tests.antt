-- ===== src/Quirks/Tests.antt =====
-- Runs of the encoder detection.
use rtmp_rs.Prelude.{◌≡◌, refl}
use rtmp_rs.Prelude.Text.{codes}
use rtmp_rs.Quirks.{from_flash_ver, obs, ffmpeg}

obs_version : from_flash_ver (codes "FMLE/3.0 (compatible; OBS-Studio/29)") ≡ obs
unfolding from_flash_ver
obs_version = refl

lavf_version : from_flash_ver (codes "LNX 9,0,124,2 Lavf58") ≡ ffmpeg
unfolding from_flash_ver
lavf_version = refl
