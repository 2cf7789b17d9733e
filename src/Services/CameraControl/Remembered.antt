-- ===== src/Services/CameraControl/Remembered.antt =====
-- What a camera row remembers of its sensor's settings passes the check again when it is sent back.
use caps_dash.Prelude.{
  sym, Result-cases, inr, inl, String, Bool, true, ◌≡◌, refl, Option, none, some, List, [], ◌∷◌,
  All, arith, eq_iff, Result, ok, err, ◌==◌, String_key, Bool-cases, >>=-ok,
}
use caps_dash.Prelude.Dict
use caps_dash.Prelude.Dict.{Dict}
use caps_dash.Services.Cameras.{CameraSourceType}
use mathlib.Core.Path.{subst}
use caps_dash.Services.CameraControl.{
  http_error, is_ok, status, is_controllable, update_checked, written, ℤ, ControlError, Answer,
  Sensor, int_leb, setting_ranges, in_range, check_all, validate, merge, apply_to, send,
  reapply_remembered, device_base, update, run,
}

-- A setting that the firmware knows, within its range.
abbrev pub IsAccepted : String × ℤ → Type 0
IsAccepted e =
    (low : ℤ) × (high : ℤ) × (Dict.get e.0 setting_ranges ≡ some (low, high))
    × (int_leb low e.1 ≡ true)
    × (int_leb e.1 high ≡ true)

in_range-ok :
    (found : Option (ℤ × ℤ)) (value : ℤ)
    → in_range found value ≡ ok tt
    → (low : ℤ) × (high : ℤ) × (found ≡ some (low, high))
      × (int_leb low value ≡ true)
      × (int_leb value high ≡ true)
unfolding in_range
in_range-ok none value h = absurd (ground arith)
in_range-ok (some (low, high)) value h = (low, high, refl, ground arith, ground arith)

pub check_all-ok : (changes : Dict String ℤ) → check_all changes ≡ ok tt → All IsAccepted changes
unfolding check_all
check_all-ok [] h = tt
check_all-ok ((name, value) ∷ changes) h =
    let first =
      >>=-ok (in_range (Dict.get name setting_ranges) value) (λ checked. check_all changes) h in
    (in_range-ok (Dict.get name setting_ranges) value first.1, check_all-ok changes first.2)

in_range_accepted :
    (e : String × ℤ) → IsAccepted e → in_range (Dict.get e.0 setting_ranges) e.1 ≡ ok tt
unfolding in_range
in_range_accepted e (low, high, found, h, k) = rw (found, h, k) refl

check_all_accepted : (changes : Dict String ℤ) → All IsAccepted changes → check_all changes ≡ ok tt
unfolding check_all
check_all_accepted [] h = refl
check_all_accepted (e ∷ changes) h = rw (in_range_accepted e h.0) (check_all_accepted changes h.1)

IsAccepted-put :
    (name : String) (value : ℤ) (remembered : Dict String ℤ)
    → IsAccepted (name, value)
    → All IsAccepted remembered
    → All IsAccepted (Dict.put name value remembered)
unfolding Dict.put
IsAccepted-put name value [] h k = (h, tt)
IsAccepted-put name value ((j, w) ∷ d) h k = elim (Bool-cases (j == name)) [
  | inl same ↦ rw same (subst (λ n. IsAccepted (n, value)) (sym ((eq_iff j name).0 same)) h, k.1)
  | inr other ↦ rw other (k.0, IsAccepted-put name value d h k.1)
]

IsAccepted-merge :
    (remembered changes : Dict String ℤ)
    → All IsAccepted remembered
    → All IsAccepted changes
    → All IsAccepted (merge remembered changes)
unfolding merge
IsAccepted-merge remembered [] h k = h
IsAccepted-merge remembered ((name, value) ∷ changes) h k =
    IsAccepted-merge (Dict.put name value remembered) changes
      (IsAccepted-put name value remembered k.0 h) k.1

validate_accepted :
    (e : String × ℤ) (changes : Dict String ℤ)
    → All IsAccepted (e ∷ changes)
    → validate (e ∷ changes) ≡ ok (e ∷ changes)
unfolding validate
validate_accepted e changes h = rw (check_all_accepted (e ∷ changes) h) refl

validate-ok : (changes valid : Dict String ℤ) → validate changes ≡ ok valid → All IsAccepted changes
unfolding validate
validate-ok [] valid h = tt
validate-ok (e ∷ changes) valid h =
    check_all-ok (e ∷ changes) (>>=-ok (check_all (e ∷ changes)) (λ checked. ok (e ∷ changes)) h).1

validate-same : (changes valid : Dict String ℤ) → validate changes ≡ ok valid → valid ≡ changes
unfolding validate
validate-same [] valid h = absurd (ground arith)
validate-same (e ∷ changes) valid h =
    let checked = >>=-ok (check_all (e ∷ changes)) (λ checked. ok (e ∷ changes)) h in ground arith

apply_to-IsAccepted :
    (base : String) (changes : Dict String ℤ) (answers : List Answer) (applied : Dict String Bool)
    → All IsAccepted changes
    → All (λ r. IsAccepted (r.var, r.val)) (apply_to base changes answers applied).0
unfolding apply_to
apply_to-IsAccepted base [] answers applied k = tt
apply_to-IsAccepted base (e ∷ changes) [] applied k = (k.0, tt)
apply_to-IsAccepted base (e ∷ changes) (http_error ∷ answers) applied k = (k.0, tt)
apply_to-IsAccepted base ((name, value) ∷ changes) (status code ∷ answers) applied k =
    (k.0, apply_to-IsAccepted base changes answers (Dict.put name (is_ok code) applied) k.1)

module _ (urlsplit : String → String × String) (urlunsplit : String → String → String) where
  IsAccepted-written :
      (changes : Dict String ℤ) (camera : Sensor) (applied : Result ControlError (Dict String Bool))
      → All IsAccepted changes
      → All IsAccepted camera.sensor_settings
      → All IsAccepted (written urlsplit urlunsplit changes camera applied).sensor_settings
  unfolding written
  IsAccepted-written changes camera (err failure) h k = k
  IsAccepted-written changes camera (ok applied) h k =
      IsAccepted-merge camera.sensor_settings changes k h

  IsAccepted-update :
      (camera : Sensor) (changes : Dict String ℤ) (answers : List Answer)
      → All IsAccepted camera.sensor_settings
      → All IsAccepted (update urlsplit urlunsplit camera changes answers).0.sensor_settings
  unfolding update update_checked
  IsAccepted-update camera changes answers k = elim (Result-cases (validate changes)) [
    | inl (failure, refused) ↦ rw refused k
    | inr (valid, checked) ↦ rw checked (
        IsAccepted-written valid camera
          (send urlsplit urlunsplit
            (device_base urlsplit urlunsplit camera.source_type camera.source_url) (ok valid)
            answers).1
          (subst (All IsAccepted) (sym (validate-same changes valid checked))
            (validate-ok changes valid checked))
          k)
  ]

  IsAccepted-run :
      (camera : Sensor) (updates : List (Dict String ℤ × List Answer))
      → All IsAccepted camera.sensor_settings
      → All IsAccepted (run urlsplit urlunsplit camera updates).sensor_settings
  unfolding run
  IsAccepted-run camera [] k = k
  IsAccepted-run camera ((changes, answers) ∷ updates) k =
      IsAccepted-run (update urlsplit urlunsplit camera changes answers).0 updates
        (IsAccepted-update camera changes answers k)

  is_controllable-device_base :
      (source_type : CameraSourceType) (source_url base : String)
      → device_base urlsplit urlunsplit source_type source_url ≡ ok base
      → is_controllable source_type ≡ true
  unfolding device_base
  is_controllable-device_base source_type source_url base found = ground arith

  reapply_accepted :
      (source_type : CameraSourceType) (source_url base : String) (remembered : Dict String ℤ)
      (answers : List Answer)
      → device_base urlsplit urlunsplit source_type source_url ≡ ok base
      → All IsAccepted remembered
      → reapply_remembered urlsplit urlunsplit source_type source_url remembered answers
        ≡ apply_to base remembered answers []
  unfolding reapply_remembered apply_to send
  reapply_accepted source_type source_url base [] answers found k = refl
  reapply_accepted source_type source_url base (e ∷ remembered) answers found k =
      rw
        (
          is_controllable-device_base source_type source_url base found,
          found,
          validate_accepted e remembered k,
        )
        refl

  -- A camera that remembers no settings, after any updates, refused ones and ones that the device did
  -- not take included, and restarted at an address of a device: `reapply_remembered` is never
  -- refused by the check, it sends what is remembered, and each request carries a setting that the
  -- firmware knows, within its range.
  pub reapply_remembered-run :
      (camera : Sensor) (updates : List (Dict String ℤ × List Answer))
      (source_type : CameraSourceType) (source_url base : String) (answers : List Answer)
      → camera.sensor_settings ≡ []
      → device_base urlsplit urlunsplit source_type source_url ≡ ok base
      → let remembered = (run urlsplit urlunsplit camera updates).sensor_settings in
        let sent =
          reapply_remembered urlsplit urlunsplit source_type source_url remembered answers in
        (sent ≡ apply_to base remembered answers []) × All (λ r. IsAccepted (r.var, r.val)) sent.0
  reapply_remembered-run camera updates source_type source_url base answers none_yet found =
      let remembered = (run urlsplit urlunsplit camera updates).sensor_settings in
      let accepted : All IsAccepted remembered =
        IsAccepted-run camera updates (subst (All IsAccepted) (sym none_yet) tt) in
      let same = reapply_accepted source_type source_url base remembered answers found accepted in
      (
        same,
        subst (λ sent. All (λ r. IsAccepted (r.var, r.val)) sent.0) (sym same)
            (apply_to-IsAccepted base remembered answers [] accepted),
      )
