-- ===== src/Chunk/Peek.antt =====
-- What the chunk decoder reads ahead, before it takes a byte off the buffer: the basic header and
-- whether the buffer holds the whole chunk (`parse_basic_header` and the first half of `decode`,
-- protocol/chunk.rs).
use rtmp_rs.Prelude.{
  ℕ, ◌+◌, ◌-◌, ◌*◌, ◌/◌, ◌%◌, min, Bool, false, Option, none, some, ◌∷◌, [], if◌then◌else◌, ltb,
  leb, ◌==◌, length, drop, is_empty, Result, ok, err, or_panic, ◌>>=◌,
}
use rtmp_rs.Bytes.{Bytes, u32, be24}
use rtmp_rs.Constants.{extended_timestamp_threshold}
use rtmp_rs.Error.{ProtocolError, invalid_chunk_header}
use rtmp_rs.Chunk.State.{ChunkStreamState}

abbrev csid_two_bytes : ℕ → Bytes → Option (ℕ × ℕ × ℕ)
csid_two_bytes fmt (b ∷ _) = some (fmt, 64 + b, 2)
csid_two_bytes fmt _ = none

abbrev csid_three_bytes : ℕ → Bytes → Option (ℕ × ℕ × ℕ)
csid_three_bytes fmt (b ∷ c ∷ _) = some (fmt, 64 + b + c * 256, 3)
csid_three_bytes fmt _ = none

-- (fmt, csid, header length), or nothing on a short buffer: `(first >> 6) & 3`, `first & 0x3F`.
unfoldable pub parse_basic_header : Bytes → Option (ℕ × ℕ × ℕ)
parse_basic_header [] = none
parse_basic_header (first ∷ more) =
    let fmt = first / 64 % 4 in
    let csid_low = first % 64 in
    if csid_low == 0
    then csid_two_bytes fmt more
    else if csid_low == 1
    then csid_three_bytes fmt more
    else some (fmt, csid_low, 1)

-- The size of the message header of a chunk of this format.
unfoldable pub msg_header_size : ℕ → Result ProtocolError ℕ
msg_header_size fmt =
    if fmt == 0
    then ok 11
    else if fmt == 1
    then ok 7
    else if fmt == 2
    then ok 3
    else if fmt == 3
    then ok 0
    else err invalid_chunk_header

-- The three bytes at the front, without taking them; `none` is an index out of range.
abbrev pub peek_u24 : Bytes → Option ℕ
peek_u24 (a ∷ b ∷ c ∷ _) = some (be24 a b c)
peek_u24 _ = none

unfoldable pub needs_extended : ChunkStreamState → Bytes → ℕ → ℕ → Result ProtocolError Bool
needs_extended s buf fmt header_len =
    if fmt == 3
    then ok s.has_extended_timestamp
    else if ltb (header_len + 2) (length buf)
    then (or_panic (peek_u24 (drop header_len buf)) >>= λ ts.
        ok (leb extended_timestamp_threshold ts))
    else ok false

-- The length of the message that the chunk belongs to, read ahead of the header.
unfoldable pub peek_expected_length : ChunkStreamState → Bytes → ℕ → ℕ → Result ProtocolError ℕ
peek_expected_length s buf fmt header_len =
    if leb fmt 1
    then or_panic (peek_u24 (drop (header_len + 3) buf))
    else ok (if is_empty s.partial_message then s.message_length else s.expected_length)

-- How much chunk data follows the header; `none` where the buffer does not hold the whole chunk.
-- `header_size` is the size of both headers and of the extended timestamp.
unfoldable pub data_length :
    ℕ → ChunkStreamState → Bytes → ℕ → ℕ → ℕ → Result ProtocolError (Option ℕ)
unfolding peek_expected_length
data_length chunk_size s buf fmt header_len header_size =
    if ltb (length buf) header_size
    then ok none
    else (peek_expected_length s buf fmt header_len >>= λ expected.
        let data_len = min (expected - u32 (length s.partial_message)) chunk_size in
        ok (if ltb (length buf) (header_size + data_len) then none else some data_len))

unfoldable pub whole_chunk : ℕ → ChunkStreamState → Bytes → ℕ → ℕ → Result ProtocolError (Option ℕ)
unfolding msg_header_size needs_extended data_length
whole_chunk chunk_size s buf fmt header_len = do
  msg_size ← msg_header_size fmt
  extended ← needs_extended s buf fmt header_len
  data_length chunk_size s buf fmt header_len (header_len + msg_size + (if extended then 4 else 0))
