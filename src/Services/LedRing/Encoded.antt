-- ===== src/Services/LedRing/Encoded.antt =====
-- The encoding of some states is not the empty text that a new ring remembers.
use text.Mathlib.TextLemmas.{length-append}
use Prim.Native.String.{String, count, ◌++◌ as append}
use caps_dash.Prelude.{
  [], eq_iff, ap, inr, refl, inl, arith, none, Bool-cases, some, false, ◌∷◌, ◌==◌, List, ◌≡◌,
  String, Option, String_key,
}
use caps_dash.Prelude.Dict
use caps_dash.Prelude.Dict.{keys, Dict}
use caps_dash.Vision.States.{unknown, free, occupied, SlotState}
use caps_dash.Services.LedRing.{
  text_leb, no_states, state_char, sorted_codes, SlotState, encode_states, insert_code, joined,
}

append-nonempty : (c s : String) → (count c ≡ 1) → (append c s == "") ≡ false
append-nonempty c s one = elim (Bool-cases (append c s == "")) [
  | inl same ↦
      let lengths : count (append c s) ≡ 0 = ap count ((eq_iff (append c s) "").0 same) in
      absurd (ground (arith, length-append c s))
  | inr other ↦ other
]

count-state_char : (state : Option SlotState) → count (state_char state) ≡ 1
count-state_char (some occupied) = refl
count-state_char (some free) = refl
count-state_char (some unknown) = refl
count-state_char none = refl

joined-nonempty :
    (states : Dict String SlotState) (code : String) (codes : List String)
    → (joined states (code ∷ codes) == "") ≡ false
unfolding joined
joined-nonempty states code codes =
    append-nonempty (state_char (Dict.get code states)) (joined states codes)
      (count-state_char (Dict.get code states))

insert_code-cons :
    (a : String) (codes : List String)
    → (b : String) × (bs : List String) × (insert_code a codes ≡ b ∷ bs)
unfolding insert_code
insert_code-cons a [] = (a, [], refl)
insert_code-cons a (b ∷ bs) = elim (Bool-cases (text_leb a b)) [
  | inl before ↦ (a, b ∷ bs, rw before refl)
  | inr after ↦ (b, insert_code a bs, rw after refl)
]

pub encode_states-nonempty :
    (states : Dict String SlotState)
    → no_states states ≡ false
    → (encode_states states == "") ≡ false
unfolding encode_states sorted_codes
encode_states-nonempty [] h = absurd (ground arith)
encode_states-nonempty ((code, state) ∷ states) h =
    let first = insert_code-cons code (sorted_codes (keys states)) in
    rw first.2 (joined-nonempty ((code, state) ∷ states) first.0 first.1)
