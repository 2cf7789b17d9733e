-- ===== src/Realtime/FrameProtocol/RoundTrip.antt =====
-- Decoding what realtime/frame_protocol.py encoded.
use caps_dash.Prelude.{
  ℕ, ◌+◌, ◌≤◌, ◌≡◌, refl, ap, ◌∙◌, sym, Option, some, List, [], ◌∷◌, ◌++◌, take, drop, length, ok,
  arith, length-append,
}
use caps_dash.Realtime.FrameProtocol.{
  to_bytes, from_bytes, encode_frame_message, decode_parts, decode_frame_message, max_header_bytes,
}

take-append : (xs ys : List ℕ) → take (length xs) (xs ++ ys) ≡ xs
take-append [] ys = refl
take-append (x ∷ xs) ys = ap (◌∷◌ x) (take-append xs ys)

drop-append : (xs ys : List ℕ) → drop (length xs) (xs ++ ys) ≡ ys
drop-append [] ys = refl
drop-append (x ∷ xs) ys = drop-append xs ys

from_bytes-to_bytes : (n : ℕ) → n ≤ max_header_bytes → from_bytes 0 (to_bytes n) ≡ n
unfolding from_bytes to_bytes
from_bytes-to_bytes n h = omega arith

take-to_bytes : (n : ℕ) (rest : List ℕ) → take 4 (to_bytes n ++ rest) ≡ to_bytes n
unfolding to_bytes
take-to_bytes n rest = refl

drop-to_bytes : (n : ℕ) (rest : List ℕ) → drop 4 (to_bytes n ++ rest) ≡ rest
unfolding to_bytes
drop-to_bytes n rest = refl

length-to_bytes : (n : ℕ) (rest : List ℕ) → length (to_bytes n ++ rest) ≡ 4 + length rest
unfolding to_bytes
length-to_bytes n rest = omega arith

module _ {Header : Type 0} (dumps : Header → List ℕ) (loads : List ℕ → Option Header) where
  decode_parts-append :
      (encoded jpeg : List ℕ) (header : Header)
      → loads encoded ≡ some header
      → decode_parts dumps loads (encoded ++ jpeg) (length encoded)
        ≡ ok (record { header = header; jpeg = jpeg })
  unfolding decode_parts
  decode_parts-append encoded jpeg header h =
      ground (arith, take-append encoded jpeg, drop-append encoded jpeg)

  decode-framed :
      (n : ℕ) (rest : List ℕ)
      → n ≤ max_header_bytes
      → n ≤ length rest
      → decode_frame_message dumps loads (to_bytes n ++ rest) ≡ decode_parts dumps loads rest n
  unfolding decode_frame_message
  decode-framed n rest small enough =
      let size : from_bytes 0 (take 4 (to_bytes n ++ rest)) ≡ n =
        ap (from_bytes 0) (take-to_bytes n rest) ∙ from_bytes-to_bytes n small in
      rw (size, drop-to_bytes n rest) (ground (arith, length-to_bytes n rest))

  -- The codec reads back what it wrote. Then a header that is not too large and any picture come back
  -- as they were from the message that encodes them.
  pub decode_frame_message-encode_frame_message :
      (header : Header) (jpeg message : List ℕ)
      → loads (dumps header) ≡ some header
      → encode_frame_message dumps loads header jpeg ≡ ok message
      → decode_frame_message dumps loads message ≡ ok (record { header = header; jpeg = jpeg })
  unfolding to_bytes
  decode_frame_message-encode_frame_message header jpeg message codec h =
      let small : length (dumps header) ≤ max_header_bytes =
        unfold encode_frame_message in ground arith in
      let written : to_bytes (length (dumps header)) ++ dumps header ++ jpeg ≡ message =
        unfold encode_frame_message in ground arith in
      ap (decode_frame_message dumps loads) (sym written)
      ∙ decode-framed (length (dumps header)) (dumps header ++ jpeg) small
          (omega (arith, length-append (dumps header) jpeg))
      ∙ decode_parts-append (dumps header) jpeg header codec
