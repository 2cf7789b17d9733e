-- ===== src/Workers/Supervisor/Reconciling.antt =====
-- What a reconciliation of workers/camera_supervisor.py leaves running.
use caps_dash.Prelude.{
  ◌∙◌, inr, inl, Bool-cases, ℕ, ◌+◌, ℕ_key, ◌==◌, false, not, ◌||◌, ◌&&◌, Option, none, List, [],
  ◌∷◌, if◌then◌else◌, arith, ◌≡◌, refl, ap, leb,
}
use caps_dash.Prelude.Dict
use caps_dash.Prelude.Dict.{Dict, keys, get-put, get-remove}
use caps_dash.Workers.Supervisor.{
  context_rebuilt, loop_died, context_built, reconciled, rebuild, crashed, built, idle, Event, step,
  run, size, enabled_cameras, is_some, reconcile, CameraSupervisor, member, minus, insert, sorted,
  stagger_offsets, offsets_from, from_keys, spawn, spawn_all, cancel, cancel_all,
}

-- a key is there when it has a value
member-keys : (id : ℕ) (d : Dict ℕ ℕ) → member id (keys d) ≡ is_some (Dict.get id d)
unfolding Dict.get
member-keys id [] = refl
member-keys id ((k, v) ∷ d) = ground (arith, member-keys id d)

member-minus :
    (id : ℕ) (ids others : List ℕ)
    → member id (minus ids others) ≡ (member id ids && not (member id others))
member-minus id [] others = refl
member-minus id (i ∷ ids) others =
    ground (arith, member-minus id ids others, ap (λ j. member j others))

member-insert : (id a : ℕ) (l : List ℕ) → member id (insert a l) ≡ (a == id || member id l)
unfolding insert
member-insert id a [] = refl
member-insert id a (b ∷ l) = ground (arith, member-insert id a l)

member-sorted : (id : ℕ) (l : List ℕ) → member id (sorted l) ≡ member id l
unfolding sorted
member-sorted id [] = refl
member-sorted id (a ∷ l) = ground (arith, member-insert id a (sorted l), member-sorted id l)

keys-offsets_from :
    (index : ℕ) (l : List ℕ) (n : ℕ) (intervals : Dict ℕ ℕ)
    → keys (offsets_from index l n intervals) ≡ l
unfolding offsets_from
keys-offsets_from index [] n intervals = refl
keys-offsets_from index (a ∷ l) n intervals =
    ap (◌∷◌ a) (keys-offsets_from (index + 1) l n intervals)

keys-from_keys : (l : List ℕ) → keys (from_keys l) ≡ l
unfolding from_keys
keys-from_keys [] = refl
keys-from_keys (a ∷ l) = ap (◌∷◌ a) (keys-from_keys l)

member-stagger_offsets :
    (id : ℕ) (l : List ℕ) (n : ℕ) (intervals : Dict ℕ ℕ)
    → member id (keys (stagger_offsets l n intervals)) ≡ member id l
unfolding stagger_offsets
member-stagger_offsets id l n intervals = elim (Bool-cases (leb n 1)) [
  | inl few ↦ rw few (rw (keys-from_keys (sorted l)) (member-sorted id l))
  | inr many ↦ rw many (rw (keys-offsets_from 0 (sorted l) n intervals) (member-sorted id l))
]

-- the loops and the contexts of a camera that is not among those spawned
get-spawn_all :
    (id : ℕ) (offsets : Dict ℕ ℕ) (s : CameraSupervisor)
    → member id (keys offsets) ≡ false
    → Dict.get id (spawn_all offsets s).tasks ≡ Dict.get id s.tasks
unfolding spawn_all spawn
get-spawn_all id [] s h = refl
get-spawn_all id ((k, v) ∷ offsets) s h =
    ground (arith, get-spawn_all id offsets (spawn k v s), get-put k id v s.tasks)

is_some-spawn_all :
    (id : ℕ) (offsets : Dict ℕ ℕ) (s : CameraSupervisor)
    → is_some (Dict.get id (spawn_all offsets s).tasks)
      ≡ (member id (keys offsets) || is_some (Dict.get id s.tasks))
unfolding spawn_all spawn
is_some-spawn_all id [] s = refl
is_some-spawn_all id ((k, v) ∷ offsets) s =
    ground (arith, is_some-spawn_all id offsets (spawn k v s), get-put k id v s.tasks)

contexts-spawn_all :
    (offsets : Dict ℕ ℕ) (s : CameraSupervisor) → (spawn_all offsets s).contexts ≡ s.contexts
unfolding spawn_all spawn
contexts-spawn_all [] s = refl
contexts-spawn_all ((k, v) ∷ offsets) s = contexts-spawn_all offsets (spawn k v s)

get-cancel_all :
    (id : ℕ) (ids : List ℕ) (s : CameraSupervisor)
    → (Dict.get id (cancel_all ids s).tasks ≡ (if member id ids then none else Dict.get id s.tasks))
      × (Dict.get id (cancel_all ids s).contexts
          ≡ (if member id ids then none else Dict.get id s.contexts))
unfolding cancel_all cancel
get-cancel_all id [] s = (refl, refl)
get-cancel_all id (i ∷ ids) s =
    ground (
      arith,
      get-cancel_all id ids (cancel i s),
      get-remove i id s.tasks,
      get-remove i id s.contexts,
    )

-- A context belongs to a loop that runs.
abbrev pub Owned : CameraSupervisor → Type 0
Owned s = (id : ℕ) → Dict.get id s.tasks ≡ none → Dict.get id s.contexts ≡ none

-- Whether a camera runs after a reconciliation, what becomes of a loop that ran, and of its context.
pub record Matched (query : Option (Dict ℕ ℕ)) (s : CameraSupervisor) (id : ℕ) : Type 0 where
  pub runs :
      is_some (Dict.get id (reconcile query s).tasks)
      ≡ is_some (Dict.get id (enabled_cameras query))
  pub kept :
      (if is_some (Dict.get id s.tasks) then Dict.get id (reconcile query s).tasks else none)
      ≡ (if is_some (Dict.get id (enabled_cameras query)) then Dict.get id s.tasks else none)
  pub context :
      Dict.get id (reconcile query s).contexts
      ≡ (if is_some (Dict.get id (enabled_cameras query)) then Dict.get id s.contexts else none)

pub reconcile-Matched :
    (query : Option (Dict ℕ ℕ)) (s : CameraSupervisor) (id : ℕ) → Owned s → Matched query s id
unfolding reconcile
reconcile-Matched query s id owned =
    let enabled = enabled_cameras query in
    let ids = minus (keys enabled) (keys s.tasks) in
    let offsets = stagger_offsets ids (size enabled) enabled in
    let gone = minus (keys s.tasks) (keys enabled) in
    let cancelled = get-cancel_all id gone (spawn_all offsets s) in
    let wanted = member-keys id enabled in
    let running = member-keys id s.tasks in
    let stopping = member-minus id (keys s.tasks) (keys enabled) in
    let starting =
      member-stagger_offsets id ids (size enabled) enabled
      ∙ member-minus id (keys enabled) (keys s.tasks) in
    record {
      runs = ground (arith, cancelled.0, starting, is_some-spawn_all id offsets s);
      kept = ground (arith, cancelled.0, starting, get-spawn_all id offsets s);
      context =
          ground
            (arith, cancelled.1, owned id, ap (λ c. Dict.get id c) (contexts-spawn_all offsets s));
    }

Owned-step : (s : CameraSupervisor) (e : Event) → Owned s → Owned (step s e)
unfolding step built crashed rebuild
Owned-step s (reconciled query) owned id h =
    ground (
      arith,
      (reconcile-Matched query s id owned).runs,
      (reconcile-Matched query s id owned).context,
    )
Owned-step s (context_built i c) owned id h = ground (arith, owned id, get-put i id c s.contexts)
Owned-step s (loop_died i) owned id h = ground (arith, owned id, get-remove i id s.contexts)
Owned-step s (context_rebuilt i c) owned id h = ground (arith, owned id, get-put i id c s.contexts)

Owned-run : (s : CameraSupervisor) (es : List Event) → Owned s → Owned (run s es)
unfolding run
Owned-run s [] owned = owned
Owned-run s (e ∷ es) owned = Owned-run (step s e) es (Owned-step s e owned)

-- Whatever has happened since the start, a reconciliation leaves running exactly the cameras that
-- the query answered: a loop that ran and is still wanted runs on untouched, with its context, and no
-- other camera keeps a context. A query that fails counts as no camera, and stops every loop.
pub run-Matched :
    (es : List Event) (query : Option (Dict ℕ ℕ)) (id : ℕ) → Matched query (run idle es) id
unfolding Dict.get
run-Matched es query id = reconcile-Matched query (run idle es) id (Owned-run idle es (λ i h. refl))
