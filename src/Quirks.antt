-- ===== src/Quirks.antt =====
-- Encoders and their habits (protocol/quirks.rs). No other letter becomes one of the searched texts
-- in lower case, so the ASCII letters are enough for `from_flash_ver`.
use rtmp_rs.Prelude.{
  ℕ, ◌+◌, ◌-◌, Bool, true, false, ◌&&◌, ◌||◌, Option, none, some, if◌then◌else◌, ltb,
}
use rtmp_rs.Prelude.Text.{codes, contains, to_lowercase}
use rtmp_rs.Bytes.{Bytes, u32}
use rtmp_rs.Registry.Frame.{bytes_beq}
mod Tests
pub mod Timestamps

pub record QuirksConfig : Type 0 where
  pub allow_early_commands : Bool
  pub allow_fc_before_connect : Bool
  pub lenient_amf : Bool
  pub allow_timestamp_regression : Bool
  pub allow_duplicate_metadata : Bool
  pub allow_empty_app : Bool
  pub allow_oversized_chunks : Bool

abbrev all_set : Bool → QuirksConfig
all_set b = record {
  allow_early_commands = b;
  allow_fc_before_connect = b;
  lenient_amf = b;
  allow_timestamp_regression = b;
  allow_duplicate_metadata = b;
  allow_empty_app = b;
  allow_oversized_chunks = b;
}

abbrev pub default_config : QuirksConfig
default_config = all_set true

abbrev pub strict : QuirksConfig
strict = all_set false

pub data EncoderType : Type 0 where
  unknown obs ffmpeg wirecast flash_media_encoder xsplit larix other : EncoderType

unfoldable pub from_flash_ver : Bytes → EncoderType
unfolding contains to_lowercase
from_flash_ver flash_ver =
    let lower = to_lowercase flash_ver in
    if contains lower (codes "obs")
    then obs
    else if contains lower (codes "fmle") || contains lower (codes "flash media")
    then flash_media_encoder
    else if contains lower (codes "wirecast")
    then wirecast
    else if contains lower (codes "xsplit")
    then xsplit
    else if contains lower (codes "larix")
    then larix
    else if contains lower (codes "lavf") || contains lower (codes "librtmp")
    then ffmpeg
    else other

pub data CommandSequenceState : Type 0 where
  initial connected stream_created publishing playing : CommandSequenceState

pub record CommandSequence : Type 0 where
  pub state : CommandSequenceState

abbrev pub new : CommandSequence
new = record { state = initial }

-- What `is_valid_command` and `on_command` tell commands apart by.
pub data CommandKind : Type 0 where
  connect release create publish play leave another : CommandKind

unfoldable pub kind_of : Bytes → CommandKind
kind_of name =
    if bytes_beq name (codes "connect")
    then connect
    else if bytes_beq name (codes "releaseStream") || bytes_beq name (codes "FCPublish")
    then release
    else if bytes_beq name (codes "createStream")
    then create
    else if bytes_beq name (codes "publish")
    then publish
    else if bytes_beq name (codes "play")
    then play
    else if bytes_beq name (codes "FCUnpublish")
        || (bytes_beq name (codes "deleteStream") || bytes_beq name (codes "closeStream"))
    then leave
    else another

unfoldable pub valid_in : CommandSequenceState → CommandKind → Bool
valid_in initial connect = true
valid_in _ connect = false
valid_in _ release = true
valid_in connected create = true
valid_in initial create = true
valid_in _ create = false
valid_in stream_created publish = true
valid_in _ publish = false
valid_in stream_created play = true
valid_in _ play = false
valid_in publishing leave = true
valid_in playing leave = true
valid_in _ leave = false
valid_in _ another = true

unfoldable pub is_valid_command : CommandSequence → Bytes → Bool
unfolding valid_in kind_of
is_valid_command s name = valid_in s.state (kind_of name)

unfoldable pub state_after : CommandSequenceState → CommandKind → CommandSequenceState
state_after s connect = connected
state_after s create = stream_created
state_after s publish = publishing
state_after s play = playing
state_after s leave = connected
state_after s release = s
state_after s another = s

unfoldable pub on_command : CommandSequence → Bytes → CommandSequence
unfolding state_after kind_of
on_command s name = record { state = state_after s.state (kind_of name) }

pub record TimestampNormalizer : Type 0 where
  pub last_timestamp : ℕ  -- u32
  pub offset : ℕ  -- u32

unfoldable pub new_normalizer : TimestampNormalizer
new_normalizer = record { last_timestamp = 0; offset = 0 }

abbrev shifted : TimestampNormalizer → ℕ → ℕ → TimestampNormalizer × ℕ
shifted n offset timestamp =
    let normalized = u32 (timestamp + offset) in
    (record { last_timestamp = normalized; offset = offset }, normalized)

-- `none` is the panic of an addition that overflows.
unfoldable pub normalize : TimestampNormalizer → ℕ → Option (TimestampNormalizer × ℕ)
normalize n timestamp =
    if ltb timestamp n.last_timestamp && ltb 1000 (n.last_timestamp - timestamp)
    then (if ltb 4294967295 (n.last_timestamp + 1)
        then none
        else some (shifted n (n.last_timestamp + 1) timestamp))
    else some (shifted n n.offset timestamp)

unfoldable pub reset : TimestampNormalizer → TimestampNormalizer
reset n = record { last_timestamp = 0; offset = 0 }
