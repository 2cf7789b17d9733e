-- ===== src/Realtime/FrameProtocol.antt =====
-- realtime/frame_protocol.py: the framing of one binary message. A byte string is a list of numbers;
-- `dumps` and `loads` stand for the JSON codec of the standard library with the UTF-8 one.
pub mod RoundTrip
mod Tests
use caps_dash.Prelude.{
  ℕ, ◌+◌, ◌*◌, ◌/◌, ◌%◌, Option, none, some, List, [], ◌∷◌, ◌++◌, take, drop, length, ltb, Result,
  ok, err, if◌then◌else◌,
}

abbrev pub header_length_bytes : ℕ
header_length_bytes = 4

abbrev pub max_header_bytes : ℕ
max_header_bytes = 65536

pub data FrameError : Type 0 where
  header_too_large : ℕ → FrameError
  too_short : FrameError
  declared_too_large : ℕ → FrameError
  past_the_end : FrameError
  -- what `json.loads` or the decoding of the text raises
  bad_header : FrameError

pub record FrameMessage (Header : Type 0) : Type 0 where
  pub header : Header
  pub jpeg : List ℕ

-- `n.to_bytes(4, "big")`
unfoldable pub to_bytes : ℕ → List ℕ
to_bytes n = n / 16777216 % 256 ∷ n / 65536 % 256 ∷ n / 256 % 256 ∷ n % 256 ∷ []

-- `int.from_bytes(bytes, "big")`
unfoldable pub from_bytes : ℕ → List ℕ → ℕ
from_bytes n [] = n
from_bytes n (b ∷ bs) = from_bytes (n * 256 + b) bs

module _ {Header : Type 0} (dumps : Header → List ℕ) (loads : List ℕ → Option Header) where
  unfoldable pub encode_frame_message : Header → List ℕ → Result FrameError (List ℕ)
  encode_frame_message header jpeg =
      let encoded = dumps header in
      if ltb max_header_bytes (length encoded)
      then err (header_too_large (length encoded))
      else ok (to_bytes (length encoded) ++ encoded ++ jpeg)

  -- the header between the length and `end`, and what follows
  unfoldable pub decode_parts : List ℕ → ℕ → Result FrameError (FrameMessage Header)
  decode_parts rest header_length = elim (loads (take header_length rest)) [
    | none ↦ err bad_header
    | some header ↦ ok (record { header = header; jpeg = drop header_length rest })
  ]

  unfoldable pub decode_frame_message : List ℕ → Result FrameError (FrameMessage Header)
  decode_frame_message message =
      let header_length = from_bytes 0 (take header_length_bytes message) in
      if ltb (length message) header_length_bytes
      then err too_short
      else if ltb max_header_bytes header_length
      then err (declared_too_large header_length)
      else if ltb (length message) (header_length_bytes + header_length)
      then err past_the_end
      else decode_parts (drop header_length_bytes message) header_length
