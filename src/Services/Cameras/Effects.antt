-- ===== src/Services/Cameras/Effects.antt =====
-- What an operation of services/camera_service.py writes, if it writes at all.
use caps_dash.Prelude.{
  ℕ_key, Result-cases, ℕ, ◌+◌, ◌≡◌, some, String, [], ◌∷◌, ◌++◌, arith, ok, if◌then◌else◌, ◌⊎◌, inl,
  inr, Option-cases,
}
use caps_dash.Prelude.Dict
use caps_dash.Workers.Supervisor.{request, request_reconcile}
use caps_dash.Services.Cameras.{
  Camera, UpdateCameraRequest, SplitUrl, World, get_or_raise, set_camera, remove_camera,
  validate_vote_thresholds, validate_source_url, validate_partial_update, updated, update_found,
  create_camera, update_camera, delete_camera, update_runtime, clamped, toggles,
}

module _ (urlsplit : String → SplitUrl) where
  pub create-cases :
      (w : World) (c : Camera)
      → ((create_camera urlsplit w c).0 ≡ w)
        ⊎ ((validate_source_url urlsplit c.source_type c.source_url ≡ ok tt)
            × (validate_vote_thresholds c.vote_window c.vote_threshold ≡ ok tt)
            × ((create_camera urlsplit w c).0 ≡ record w {
              cameras = w.cameras ++ c ∷ [];
              audits = w.audits + 1;
              signals = request_reconcile w.signals;
            }))
  unfolding create_camera
  create-cases w c = ground arith

  pub update-cases :
      (w : World) (id : ℕ) (p : UpdateCameraRequest)
      → ((update_camera urlsplit w id p).0 ≡ w)
        ⊎ ((c : Camera) × (get_or_raise w.cameras id ≡ some c)
            × (validate_partial_update urlsplit c p ≡ ok tt)
            × ((update_camera urlsplit w id p).0 ≡ record w {
              cameras = set_camera (updated c p) w.cameras;
              audits = w.audits + 1;
              signals =
                  (if toggles p.is_enabled c.is_enabled
                    then request_reconcile (request c.id w.signals)
                    else request c.id w.signals);
            }))
  unfolding update_camera update_found
  update-cases w id p = elim (Option-cases (get_or_raise w.cameras id)) [
    | inl missing ↦ inl (ground arith)
    | inr (c, found) ↦ elim (Result-cases (validate_partial_update urlsplit c p)) [
      | inl (e, failed) ↦ inl (ground arith)
      | inr (u, valid) ↦ inr (c, found, valid, ground arith)
    ]
  ]

pub delete-cases :
    (w : World) (id : ℕ)
    → ((delete_camera w id).0 ≡ w)
      ⊎ ((delete_camera w id).0 ≡ record w {
        cameras = remove_camera id w.cameras;
        audits = w.audits + 1;
        signals = request_reconcile w.signals;
        stills = Dict.remove id w.stills;
      })
unfolding delete_camera
delete-cases w id = ground arith

pub tune-cases :
    (w : World) (id confidence : ℕ)
    → ((update_runtime w id confidence).0 ≡ w)
      ⊎ ((c : Camera) × (get_or_raise w.cameras id ≡ some c)
          × ((update_runtime w id confidence).0 ≡ record w {
            cameras = set_camera (record c { confidence = clamped confidence }) w.cameras;
            audits = w.audits + 1;
            signals = request c.id w.signals;
          }))
unfolding update_runtime
tune-cases w id confidence = elim (Option-cases (get_or_raise w.cameras id)) [
  | inl missing ↦ inl (ground arith)
  | inr (c, found) ↦ inr (c, found, ground arith)
]
