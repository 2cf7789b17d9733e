-- ===== src/Services/Cameras/Checked.antt =====
-- What every stored camera satisfies (services/camera_service.py, services/camera_validation.py), and
-- its vote filter (vision/domain/vote_filter.py).
use caps_dash.Prelude.{
  String_key, eq_iff, true, ◌⊎◌, >>=-ok, ℕ, ◌≤◌, ◌≡◌, sym, ◌||◌, Option, none, some, String, List,
  [], ◌∷◌, ℕ_key, ◌==◌, arith, All, All-append, All-mono, ok, if◌then◌else◌, Bool-cases, inl, inr,
}
use mathlib.Core.Path.{subst}
use caps_dash.Vision.VoteFilter.{init, SlotVoteFilter}
use caps_dash.Vision.States.{unknown}
use caps_dash.Services.Cameras.Effects.{delete-cases, tune-cases, create-cases, update-cases}
use caps_dash.Services.Cameras.{
  source_fits, CameraSourceType, Camera, UpdateCameraRequest, SplitUrl, World, given, is_given,
  get_or_raise, set_camera, remove_camera, validate_vote_thresholds, validate_source_url,
  validate_partial_update, updated, create_camera, update_camera, delete_camera, update_runtime,
  clamped, Operation, create, update, delete, tune, step, run,
}

module _ (P : Camera → Type 0) where
  All-set_camera : (c : Camera) (cs : List Camera) → P c → All P cs → All P (set_camera c cs)
  unfolding set_camera
  All-set_camera c [] p h = tt
  All-set_camera c (d ∷ ds) p (here, h) = elim (Bool-cases (d.id == c.id)) [
    | inl same ↦ rw same (p, h)
    | inr other ↦ rw other (here, All-set_camera c ds p h)
  ]

  All-remove_camera : (id : ℕ) (cs : List Camera) → All P cs → All P (remove_camera id cs)
  unfolding remove_camera
  All-remove_camera id [] h = tt
  All-remove_camera id (c ∷ cs) (here, h) = elim (Bool-cases (c.id == id)) [
    | inl same ↦ rw same h
    | inr other ↦ rw other (here, All-remove_camera id cs h)
  ]

  All-get_or_raise :
      (id : ℕ) (cs : List Camera) (c : Camera) → get_or_raise cs id ≡ some c → All P cs → P c
  unfolding get_or_raise
  All-get_or_raise id [] c found h = absurd (ground arith)
  All-get_or_raise id (d ∷ ds) c found (here, h) = elim (Bool-cases (d.id == id)) [
    | inl same ↦ let equal : d ≡ c = ground arith in subst P equal here
    | inr other ↦ All-get_or_raise id ds c (ground arith) h
  ]

-- the bounds of the request schemas
abbrev pub Bounded : Operation → Type 0
Bounded (create c) = (1 ≤ c.vote_window) × (1 ≤ c.vote_threshold)
Bounded (update id p) = (1 ≤ given p.vote_window 1) × (1 ≤ given p.vote_threshold 1)
Bounded (delete id) = Unit
Bounded (tune id confidence) = Unit

module _ (urlsplit : String → SplitUrl) where
  pub record IsChecked (c : Camera) : Type 0 where
    pub low : 1 ≤ c.vote_threshold
    pub high : c.vote_threshold ≤ c.vote_window
    pub source : validate_source_url urlsplit c.source_type c.source_url ≡ ok tt

  validate_vote_thresholds-ok :
      (window threshold : ℕ) {u : Unit {0}}
      → validate_vote_thresholds window threshold ≡ ok u
      → threshold ≤ window
  unfolding validate_vote_thresholds
  validate_vote_thresholds-ok window threshold h = ground arith

  source-given :
      (new_type : Option CameraSourceType) (new_url : Option String) (old_type : CameraSourceType)
      (old_url : String) {u : Unit {0}}
      → (if is_given new_type || is_given new_url
          then validate_source_url urlsplit (given new_type old_type) (given new_url old_url)
          else ok tt)
        ≡ ok u
      → validate_source_url urlsplit old_type old_url ≡ ok tt
      → validate_source_url urlsplit (given new_type old_type) (given new_url old_url) ≡ ok tt
  source-given none none old_type old_url h old = old
  source-given none (some url) old_type old_url h old = h
  source-given (some t) new_url old_type old_url h old = h

  IsChecked-updated :
      (c : Camera) (p : UpdateCameraRequest) {u : Unit {0}}
      → Bounded (update c.id p)
      → validate_partial_update urlsplit c p ≡ ok u
      → IsChecked c
      → IsChecked (updated c p)
  unfolding updated validate_partial_update
  IsChecked-updated c p bounds h old =
      let (source, first, second) =
        >>=-ok
          (if is_given p.source_type || is_given p.source_url
            then validate_source_url urlsplit (given p.source_type c.source_type)
                (given p.source_url c.source_url)
            else ok tt)
          (λ _.
            validate_vote_thresholds (given p.vote_window c.vote_window)
              (given p.vote_threshold c.vote_threshold))
          h in
      let high : given p.vote_threshold c.vote_threshold ≤ given p.vote_window c.vote_window =
        validate_vote_thresholds-ok (given p.vote_window c.vote_window)
          (given p.vote_threshold c.vote_threshold) second in
      record {
        low = ground arith;
        high = high;
        source =
            source-given p.source_type p.source_url c.source_type c.source_url first old.source;
      }

  -- the rows after each operation
  abbrev Rows : World → Type 0
  Rows w = All IsChecked w.cameras

  Rows-create :
      (w : World) (c : Camera) → Bounded (create c) → Rows w → Rows (create_camera urlsplit w c).0
  Rows-create w c bounds h = elim (create-cases urlsplit w c) [
    | inl refused ↦ subst Rows (sym refused) h
    | inr (sourced, ordered, made) ↦ subst Rows (sym made) (
        All-append IsChecked w.cameras (c ∷ []) h (
          record {
            low = bounds.1;
            high = validate_vote_thresholds-ok c.vote_window c.vote_threshold ordered;
            source = sourced;
          },
          tt,
        ))
  ]

  Rows-update :
      (w : World) (id : ℕ) (p : UpdateCameraRequest)
      → Bounded (update id p)
      → Rows w
      → Rows (update_camera urlsplit w id p).0
  Rows-update w id p bounds h = elim (update-cases urlsplit w id p) [
    | inl refused ↦ subst Rows (sym refused) h
    | inr (c, found, valid, made) ↦ subst Rows (sym made) (
        All-set_camera IsChecked (updated c p) w.cameras
          (IsChecked-updated c p bounds valid (All-get_or_raise IsChecked id w.cameras c found h))
          h)
  ]

  Rows-delete : (w : World) (id : ℕ) → Rows w → Rows (delete_camera w id).0
  Rows-delete w id h = elim (delete-cases w id) [
    | inl refused ↦ subst Rows (sym refused) h
    | inr made ↦ subst Rows (sym made) (All-remove_camera IsChecked id w.cameras h)
  ]

  Rows-tune : (w : World) (id confidence : ℕ) → Rows w → Rows (update_runtime w id confidence).0
  Rows-tune w id confidence h = elim (tune-cases w id confidence) [
    | inl refused ↦ subst Rows (sym refused) h
    | inr (c, found, made) ↦
        let old = All-get_or_raise IsChecked id w.cameras c found h in
        subst Rows (sym made) (
          All-set_camera IsChecked (record c { confidence = clamped confidence }) w.cameras
            (record { low = old.low; high = old.high; source = old.source }) h)
  ]

  Checked-run :
      (w : World) (os : List Operation)
      → All Bounded os
      → All IsChecked w.cameras
      → All IsChecked (run urlsplit w os).cameras
  unfolding run step
  Checked-run w [] bounds h = h
  Checked-run w (create c ∷ os) (b, bounds) h =
      Checked-run (create_camera urlsplit w c).0 os bounds (Rows-create w c b h)
  Checked-run w (update id p ∷ os) (b, bounds) h =
      Checked-run (update_camera urlsplit w id p).0 os bounds (Rows-update w id p b h)
  Checked-run w (delete id ∷ os) (b, bounds) h =
      Checked-run (delete_camera w id).0 os bounds (Rows-delete w id h)
  Checked-run w (tune id confidence ∷ os) (b, bounds) h =
      Checked-run (update_runtime w id confidence).0 os bounds (Rows-tune w id confidence h)

  init-ok :
      (window threshold : ℕ)
      → 1 ≤ threshold
      → threshold ≤ window
      → (f : SlotVoteFilter) × (init window threshold ≡ ok f)
  unfolding init
  init-ok window threshold low high =
      (record { window = window; threshold = threshold; votes = []; state = unknown }, ground arith)

  validate_source_url-ok :
      (source_type : CameraSourceType) (source_url : String)
      → validate_source_url urlsplit source_type source_url ≡ ok tt
      → (source_url ≡ "") ⊎ (source_fits source_type (urlsplit source_url) ≡ true)
  unfolding validate_source_url
  validate_source_url-ok source_type source_url h = elim (Bool-cases (source_url == "")) [
    | inl empty ↦ inl ((eq_iff source_url "").0 empty)
    | inr full ↦ inr (ground arith)
  ]

  -- Whatever cameras are created, changed and deleted, starting from none and within the bounds of
  -- the request schemas, each that is stored has either no address yet or one with a scheme and a host
  -- that fit its kind of source, and its vote filter can be constructed.
  pub run-valid :
      (w : World) (os : List Operation)
      → w.cameras ≡ []
      → All Bounded os
      → All
          (λ c.
            ((c.source_url ≡ "") ⊎ (source_fits c.source_type (urlsplit c.source_url) ≡ true))
            × ((f : SlotVoteFilter) × (init c.vote_window c.vote_threshold ≡ ok f)))
          (run urlsplit w os).cameras
  run-valid w os empty bounds =
      All-mono IsChecked _ (run urlsplit w os).cameras
        (λ c ok_c. (
          validate_source_url-ok c.source_type c.source_url ok_c.source,
          init-ok c.vote_window c.vote_threshold ok_c.low ok_c.high,
        ))
        (Checked-run w os bounds (subst (All IsChecked) (sym empty) tt))
