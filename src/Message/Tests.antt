-- ===== src/Message/Tests.antt =====
-- The theorems on messages at a command and at a chunk that is cut short.
use rtmp_rs.Prelude.{◌≡◌, refl, some, [], ◌∷◌, ok, arith}
use rtmp_rs.Prelude.Text.{codes}
use rtmp_rs.Chunk.State.{RtmpChunk}
use rtmp_rs.Amf.Text.{utf8_after}
use rtmp_rs.Amf.Value.{null, string, no_elements, element}
use rtmp_rs.Amf.Encodable.{IsEncodable}
use rtmp_rs.Message.Types.{Command, command}
use rtmp_rs.Message.Sendable.{IsSendable, arrives}
use rtmp_rs.Message.Parse.{from_chunk}
use rtmp_rs.Message.RoundTrip.{chunk_of, from_chunk-encode}
use rtmp_rs.Message.Total.{Answers, from_chunk-Answers}

-- `publish` of a stream `a`, transaction 5.0.
abbrev publish_command : Command
publish_command = record {
  name = codes "publish";
  transaction_id = 4617315517961601024;
  command_object = null;
  arguments = element (string (codes "a")) (element (string (codes "live")) no_elements);
  stream_id = 1;
}

publish-IsSendable : IsSendable (command publish_command)
unfolding IsEncodable utf8_after
publish-IsSendable = (
  (omega arith, omega arith, refl),
  omega arith,
  omega arith,
  ((omega arith, omega arith, refl), ((omega arith, omega arith, refl), tt)),
)

from_chunk-encode_example :
    from_chunk (chunk_of 3 40 1 (command publish_command))
    ≡ some (ok (arrives 40 1 (command publish_command)))
from_chunk-encode_example = from_chunk-encode 3 40 1 (command publish_command) publish-IsSendable

-- A command whose name is cut off.
abbrev cut_chunk : RtmpChunk
cut_chunk = record {
  csid = 3;
  timestamp = 0;
  message_type = 20;
  stream_id = 0;
  payload = 2 ∷ 0 ∷ 9 ∷ 112 ∷ [];
}

from_chunk-Answers_example : Answers (from_chunk cut_chunk)
from_chunk-Answers_example = from_chunk-Answers cut_chunk
