-- ===== src/Realtime/FrameProtocol/Tests.antt =====
-- A message whose header is its own encoding.
use caps_dash.Prelude.{ℕ, ◌≡◌, refl, Option, some, List, [], ◌∷◌, ok}
use caps_dash.Realtime.FrameProtocol.{encode_frame_message, decode_frame_message, to_bytes}
use caps_dash.Realtime.FrameProtocol.RoundTrip.{decode_frame_message-encode_frame_message}

abbrev plain : List ℕ → List ℕ
plain bytes = bytes

abbrev read : List ℕ → Option (List ℕ)
read bytes = some bytes

decode_frame_message-encode_frame_message_example :
    decode_frame_message plain read (0 ∷ 0 ∷ 0 ∷ 2 ∷ 123 ∷ 125 ∷ 255 ∷ 216 ∷ [])
    ≡ ok (record { header = 123 ∷ 125 ∷ []; jpeg = 255 ∷ 216 ∷ [] })
unfolding encode_frame_message to_bytes
decode_frame_message-encode_frame_message_example =
    decode_frame_message-encode_frame_message plain read (123 ∷ 125 ∷ []) (255 ∷ 216 ∷ [])
      (0 ∷ 0 ∷ 0 ∷ 2 ∷ 123 ∷ 125 ∷ 255 ∷ 216 ∷ []) refl refl
