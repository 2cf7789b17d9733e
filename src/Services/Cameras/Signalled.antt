-- ===== src/Services/Cameras/Signalled.antt =====
-- Which operations of services/camera_service.py wake the workers (workers/reload_signals.py).
use caps_dash.Prelude.{
  ℕ, ℕ_key, ◌≡◌, refl, ap, ◌∙◌, Bool, true, false, Option, none, some, String, List, [], ◌∷◌, arith,
  if◌then◌else◌, ◌⊎◌, inl, inr, Bool-cases, nat_eq_iff,
}
use caps_dash.Workers.Supervisor.{request, request_reconcile}
use caps_dash.Services.Cameras.{
  Camera, SplitUrl, World, Operation, create, update, delete, tune, step, given, toggles,
  get_or_raise, set_camera, updated, clamped,
}
use caps_dash.Services.Cameras.Effects.{create-cases, update-cases, delete-cases, tune-cases}

-- `select(Camera.id) where is_enabled`: the cameras that the supervisor wants
abbrev pub enabled : List Camera → List ℕ
enabled [] = []
enabled (c ∷ cs) = let rest = enabled cs in if c.is_enabled then c.id ∷ rest else rest

enabled-set_camera :
    (id : ℕ) (cs : List Camera) (c c' : Camera)
    → get_or_raise cs id ≡ some c
    → c'.id ≡ c.id
    → c'.is_enabled ≡ c.is_enabled
    → enabled (set_camera c' cs) ≡ enabled cs
unfolding get_or_raise set_camera
enabled-set_camera id [] c c' found same e = refl
enabled-set_camera id (d ∷ cs) c c' found same e = ground (
  arith,
  enabled-set_camera id cs c c',
  nat_eq_iff d.id id,
  nat_eq_iff d.id c'.id,
  id-get id cs c,
)
  where
    id-get : (id : ℕ) (cs : List Camera) (c : Camera) → get_or_raise cs id ≡ some c → c.id ≡ id
    id-get id [] c h = absurd (ground arith)
    id-get id (d ∷ cs) c h = ground (arith, id-get id cs c, nat_eq_iff d.id id)

given-same : (o : Option Bool) (was : Bool) → toggles o was ≡ false → given o was ≡ was
given-same none was h = refl
given-same (some true) true h = refl
given-same (some false) false h = refl
given-same (some true) false h = absurd (ground arith)
given-same (some false) true h = absurd (ground arith)

-- the set is as before, or a reconciliation is asked for
abbrev pub Noticed : World → World → Type 0
Noticed w w' = (enabled w'.cameras ≡ enabled w.cameras) ⊎ (w'.signals.reconcile ≡ true)

-- No operation changes which cameras are enabled without asking the supervisor to reconcile: whatever
-- is created, changed or deleted, the list is as before or the request is pending after it.
pub step-Noticed :
    (urlsplit : String → SplitUrl) (w : World) (o : Operation) → Noticed w (step urlsplit w o)
unfolding step request request_reconcile
step-Noticed urlsplit w (create c) = elim (create-cases urlsplit w c) [
  | inl refused ↦ inl (ap (λ (v : World). enabled v.cameras) refused)
  | inr (sourced, ordered, made) ↦ inr (ap (λ (v : World). v.signals.reconcile) made)
]
step-Noticed urlsplit w (update id p) = elim (update-cases urlsplit w id p) [
  | inl refused ↦ inl (ap (λ (v : World). enabled v.cameras) refused)
  | inr (c, found, valid, made) ↦ elim (Bool-cases (toggles p.is_enabled c.is_enabled)) [
    | inl toggled ↦ inr (
        ap (λ (v : World). v.signals.reconcile) made
        ∙ ap
            (λ b.
              (if b
                then request_reconcile (request c.id w.signals)
                else request c.id w.signals).reconcile)
            toggled)
    | inr kept ↦ inl (
        ap (λ (v : World). enabled v.cameras) made
        ∙ enabled-set_camera id w.cameras c (updated c p) found (unfold updated in refl)
            (unfold updated in given-same p.is_enabled c.is_enabled kept))
  ]
]
step-Noticed urlsplit w (delete id) = elim (delete-cases w id) [
  | inl refused ↦ inl (ap (λ (v : World). enabled v.cameras) refused)
  | inr made ↦ inr (ap (λ (v : World). v.signals.reconcile) made)
]
step-Noticed urlsplit w (tune id confidence) = elim (tune-cases w id confidence) [
  | inl refused ↦ inl (ap (λ (v : World). enabled v.cameras) refused)
  | inr (c, found, made) ↦ inl (
      ap (λ (v : World). enabled v.cameras) made
      ∙ enabled-set_camera id w.cameras c (record c { confidence = clamped confidence }) found refl
          refl)
]
