-- ===== src/Chunk/Fragments.antt =====
-- How the network cuts the bytes does not change what is received (protocol/chunk.rs,
-- server/connection.rs).
use rtmp_rs.Prelude.{
  ℕ, ◌≤◌, ◌<◌, ◌≡◌, refl, sym, ap, ◌∙◌, Bool, Option, none, some, ◌++◌, arith, length,
  length-append, drop, take-append_le, drop-append_le, Result, ok, err, panic,
}
use rtmp_rs.Bytes.{Bytes}
use rtmp_rs.Error.{ProtocolError, invalid_chunk_header}
use rtmp_rs.Chunk.State.{ChunkStreamState, entry}
use rtmp_rs.Chunk.Peek.{parse_basic_header, whole_chunk}
use rtmp_rs.Chunk.Decoder.{
  ChunkDecoder, StreamResult, Header, store, decode, decode_header, decode_stream, consume,
  check_size, read_message_header, read_timestamp, update_state, when_whole, with_header,
  with_timestamp,
}
use rtmp_rs.Chunk.Progress.{parse_basic_header_within}
use rtmp_rs.Chunk.Robust.{IsSoundDecoder}
use rtmp_rs.Chunk.Safety.{
  IsSound, whole_chunk_moved, whole_chunk-room, whole_chunk_header, read_timestamp-room,
  read_timestamp-ok, read_message_header-ne-err,
}

-- The same result, with more bytes behind what is left.
abbrev with_more : Bytes → StreamResult → StreamResult
with_more more r = record r { buf = r.buf ++ more }

pub parse_basic_header-append :
    (buf more : Bytes) {h : ℕ × ℕ × ℕ}
    → parse_basic_header buf ≡ some h
    → parse_basic_header (buf ++ more) ≡ some h
unfolding parse_basic_header
parse_basic_header-append buf more e = ground arith

whole_chunk-append :
    (size : ℕ) (s : ChunkStreamState) (fmt n : ℕ) (body more : Bytes)
    → whole_chunk size s body fmt 0 ≡ ok (some n)
    → whole_chunk size s (body ++ more) fmt 0 ≡ ok (some n)
unfolding whole_chunk
whole_chunk-append size s fmt n body more e = ground (arith, length-append body more)

read_message_header-append :
    (s : ChunkStreamState) (fmt : ℕ) (body more b : Bytes) (h : Header)
    → read_message_header s fmt body ≡ ok (h, b)
    → read_message_header s fmt (body ++ more) ≡ ok (h, b ++ more)
unfolding read_message_header
read_message_header-append s fmt body more b h e = ground arith

read_timestamp-append :
    (s : ChunkStreamState) (fmt ts : ℕ) (x : Bool) (body more b : Bytes) (h : Header)
    → read_timestamp s fmt h body ≡ ok (ts, x, b)
    → read_timestamp s fmt h (body ++ more) ≡ ok (ts, x, b ++ more)
unfolding read_timestamp
read_timestamp-append s fmt ts x body more b h e = ground arith

check_size-append :
    (max csid n : ℕ) (s : ChunkStreamState) (body more : Bytes)
    → n ≤ length body
    → check_size max csid n s (body ++ more) ≡ with_more more (check_size max csid n s body)
unfolding check_size
check_size-append max csid n s body more h =
    ground
      (arith, length-append body more, take-append_le n body more h, drop-append_le n body more h)

consume-append :
    (size max : ℕ) (s : ChunkStreamState) (fmt csid n : ℕ) (body more : Bytes)
    → IsSound max s
    → whole_chunk size s body fmt 0 ≡ ok (some n)
    → consume max s fmt csid n (body ++ more) ≡ with_more more (consume max s fmt csid n body)
unfolding consume
consume-append size max s fmt csid n body more sound whole =
    header (read_message_header s fmt body) refl
  where
    stamp :
        (h : Header) (b : Bytes) (r : Result ProtocolError (ℕ × Bool × Bytes))
        → read_message_header s fmt body ≡ ok (h, b)
        → read_timestamp s fmt h b ≡ r
        → with_header max s fmt csid n (body ++ more) (ok (h, b ++ more))
          ≡ with_more more (with_timestamp max s fmt csid n h b r)
    stamp h b (ok (ts, x, b')) eh e = rw (read_timestamp-append s fmt ts x b more b' h e) (
        check_size-append max csid n (update_state s fmt h ts x) b' more (
          read_timestamp-room s fmt n ts h x b b'
            (whole_chunk-room size max s fmt n body b h sound whole eh) e))
    stamp h b (err x) eh e = absurd (
        (read_timestamp-ok s fmt n h b x
            (whole_chunk-room size max s fmt n body b h sound whole eh)).1
          e)
    stamp h b panic eh e = absurd (
        (read_timestamp-ok s fmt n h b invalid_chunk_header
            (whole_chunk-room size max s fmt n body b h sound whole eh)).0
          e)

    header :
        (r : Result ProtocolError (Header × Bytes))
        → read_message_header s fmt body ≡ r
        → with_header max s fmt csid n (body ++ more) (read_message_header s fmt (body ++ more))
          ≡ with_more more (with_header max s fmt csid n body r)
    header (ok (h, b)) e =
        rw (read_message_header-append s fmt body more b h e)
          (stamp h b (read_timestamp s fmt h b) e refl)
    header (err x) e = absurd (read_message_header-ne-err s fmt body x e)
    header panic e = absurd (whole_chunk_header size s fmt n body whole e)

-- A call that took a chunk takes the same chunk where more bytes follow.
pub decode-append :
    (d : ChunkDecoder) (buf more : Bytes)
    → IsSoundDecoder d
    → length (decode d buf).buf < length buf
    → decode d (buf ++ more) ≡ (let r = decode d buf in record r { buf = r.buf ++ more })
unfolding decode decode_stream
decode-append d buf more sound took = go (parse_basic_header buf) refl took
  where
    whole :
        (fmt csid n : ℕ) (w : Result ProtocolError (Option ℕ))
        → n ≤ length buf
        → whole_chunk d.chunk_size (entry d.streams csid) buf fmt n ≡ w
        → length (when_whole d.max_message_size (entry d.streams csid) buf fmt csid n w).buf
          < length buf
        → decode_stream d.chunk_size d.max_message_size
            (entry d.streams csid)
            (buf ++ more)
            fmt
            csid
            n
          ≡ with_more more (when_whole d.max_message_size (entry d.streams csid) buf fmt csid n w)
    whole fmt csid n (ok (some k)) hn e took =
        let s = entry d.streams csid in
        let front = sym (whole_chunk_moved d.chunk_size s buf fmt n hn) ∙ e in
        let behind : whole_chunk d.chunk_size s (buf ++ more) fmt n ≡ ok (some k) =
          whole_chunk_moved d.chunk_size s (buf ++ more) fmt n
            (omega (arith, length-append buf more))
          ∙ ap (λ b. whole_chunk d.chunk_size s b fmt 0) (drop-append_le n buf more hn)
          ∙ whole_chunk-append d.chunk_size s fmt k (drop n buf) more front in
        rw (behind, drop-append_le n buf more hn)
          (consume-append d.chunk_size d.max_message_size s fmt csid k (drop n buf) more
            (sound.streams csid) front)
    whole fmt csid n (ok none) hn e took = absurd (omega arith)
    whole fmt csid n (err x) hn e took = absurd (omega arith)
    whole fmt csid n panic hn e took = absurd (omega arith)

    go :
        (h : Option (ℕ × ℕ × ℕ))
        → parse_basic_header buf ≡ h
        → length (decode_header d buf h).buf < length buf
        → decode_header d (buf ++ more) (parse_basic_header (buf ++ more))
          ≡ (let r = decode_header d buf h in record r { buf = r.buf ++ more })
    go none e took = absurd (omega arith)
    go (some (fmt, csid, n)) e took =
        let within = (parse_basic_header_within buf fmt csid n e).1 in
        rw (parse_basic_header-append buf more e) (
          ap (store d csid) (
            whole fmt csid n (whole_chunk d.chunk_size (entry d.streams csid) buf fmt n) within refl
              took))
