-- ===== src/Services/PlateSearch/Tally.antt =====
-- How often each plate was read in a bay (services/plate_search_service.py).

use caps_dash.Prelude.Dict
use caps_dash.Prelude.{
  if◌then◌else◌, refl, ap, filter, ◌<◌, ℕ, ◌+◌, ◌≡◌, String, String_key, List, [], ◌∷◌, ◌==◌, arith,
  All, count, Bool-cases, inl, inr, eq_iff,
}
use caps_dash.Prelude.Dict.{Dict, keys, get-put}
use mathlib.Core.Path.{subst}
use mathlib.Core.List.{Memᴰ}
use caps_dash.Prelude.{max}
use caps_dash.Services.PlateSearch.{PlateRead, Rank, greatest, plate_key, Reading, or_none, counts}

-- how often a plate was read
abbrev pub tally : String → List Reading → ℕ
tally plate = count (λ row. row.read.plate == plate)

get-counts :
    (plate : String) (rows : List Reading) (votes : Dict String ℕ)
    → or_none (Dict.get plate (counts rows votes))
      ≡ or_none (Dict.get plate votes) + tally plate rows
unfolding counts
get-counts plate [] votes = omega arith
get-counts plate (row ∷ rows) votes =
    let p = row.read.plate in
    let votes' = Dict.put p (or_none (Dict.get p votes) + 1) votes in
    ground (
      arith,
      get-counts plate rows votes',
      get-put p plate (or_none (Dict.get p votes) + 1) votes,
      eq_iff p plate,
    )

All-keys-put :
    (P : String → Type 0) (k : String) (v : ℕ) (d : Dict String ℕ)
    → All P (keys (Dict.put k v d))
    → P k × All P (keys d)
unfolding Dict.put
All-keys-put P k v [] h = h
All-keys-put P k v ((j, w) ∷ d) h = elim (Bool-cases (j == k)) [
  | inl same ↦
      let h' : All P (j ∷ keys d) = rw same at h in
      let equal : j ≡ k = ground (arith, eq_iff j k) in (subst P equal h'.0, h')
  | inr other ↦
      let h' : All P (j ∷ keys (Dict.put k v d)) = rw other at h in
      let (here, rest) = All-keys-put P k v d h'.1 in (here, (h'.0, rest))
]

-- every plate that was read stands for election
pub All-counts :
    (P : String → Type 0) (rows : List Reading) (votes : Dict String ℕ)
    → All P (keys (counts rows votes))
    → All (λ row. P row.read.plate) rows × All P (keys votes)
unfolding counts
All-counts P [] votes h = (tt, h)
All-counts P (row ∷ rows) votes h =
    let p = row.read.plate in
    let n = or_none (Dict.get p votes) + 1 in
    let (others, put) = All-counts P rows (Dict.put p n votes) h in
    let (here, before) = All-keys-put P p n votes put in ((here, others), before)

keys-put-All :
    (P : String → Type 0) (k : String) (v : ℕ) (d : Dict String ℕ)
    → P k
    → All P (keys d)
    → All P (keys (Dict.put k v d))
unfolding Dict.put
keys-put-All P k v [] here h = (here, tt)
keys-put-All P k v ((j, w) ∷ d) here h = elim (Bool-cases (j == k)) [
  | inl same ↦ rw same h
  | inr other ↦ rw other (h.0, keys-put-All P k v d here h.1)
]

-- and only those
pub counts-All :
    (P : String → Type 0) (rows : List Reading) (votes : Dict String ℕ)
    → All (λ row. P row.read.plate) rows
    → All P (keys votes)
    → All P (keys (counts rows votes))
unfolding counts
counts-All P [] votes all h = h
counts-All P (row ∷ rows) votes (here, all) h =
    let p = row.read.plate in
    let n = or_none (Dict.get p votes) + 1 in
    counts-All P rows (Dict.put p n votes) all (keys-put-All P p n votes here h)

pub tally-Mem :
    (row : Reading) (rows : List Reading) → Memᴰ row rows → 0 < tally row.read.plate rows
tally-Mem row [] m = elim m [ ]
tally-Mem row (r ∷ rows) (Memᴰ.head here) =
    ground (arith, ap (λ x. x.read.plate) here, eq_iff r.read.plate row.read.plate)
tally-Mem row (r ∷ rows) (Memᴰ.tail later) = ground (arith, tally-Mem row rows later)

pub filter-cons :
    (plate : String) (rows : List Reading)
    → 0 < tally plate rows
    → (r : Reading) × (rest : List Reading) × (filter (λ row. row.read.plate == plate) rows
        ≡ r ∷ rest)
filter-cons plate [] h = absurd (omega arith)
filter-cons plate (r ∷ rows) h = elim (Bool-cases (r.read.plate == plate)) [
  | inl same ↦ (r, filter (λ row. row.read.plate == plate) rows, rw same refl)
  | inr other ↦ let (s, rest, e) = filter-cons plate rows (ground arith) in (s, rest, rw other e)
]

pub keys-counts-cons :
    (r : Reading) (rows : List Reading)
    → (p : String) × (rest : List String) × (keys (counts (r ∷ rows) []) ≡ p ∷ rest)
unfolding Dict.get
keys-counts-cons r rows =
    from_dict (counts (r ∷ rows) []) (
      ground
        (arith, get-counts r.read.plate (r ∷ rows) [], tally-Mem r (r ∷ rows) (Memᴰ.head refl)))
  where
    from_dict :
        (d : Dict String ℕ)
        → 0 < or_none (Dict.get r.read.plate d)
        → (p : String) × (rest : List String) × (keys d ≡ p ∷ rest)
    from_dict [] h = absurd (omega arith)
    from_dict ((p, n) ∷ d) h = (p, keys d, refl)

-- the greatest of a number over the readings of a plate
abbrev pub most : (PlateRead → ℕ) → String → List Reading → ℕ
most f plate [] = 0
most f plate (row ∷ rows) =
    max (if row.read.plate == plate then f row.read else 0) (most f plate rows)

greatest-eq-max :
    (f : PlateRead → ℕ) (plate : String) (rows : List Reading) (so_far : ℕ)
    → greatest f plate rows so_far ≡ max so_far (most f plate rows)
unfolding greatest
greatest-eq-max f plate [] so_far = omega arith
greatest-eq-max f plate (row ∷ rows) so_far =
    ground (arith, greatest-eq-max f plate rows (f row.read), greatest-eq-max f plate rows so_far)

-- How a plate stands among some readings: how many are of it, the confidence of the surest of them,
-- and the instant of the newest.
abbrev pub standing : List Reading → String → Rank
standing rows plate =
    (tally plate rows, most (λ r. r.confidence) plate rows, most (λ r. r.read_at) plate rows)

pub plate_key-standing :
    (rows : List Reading) (plate : String) → plate_key rows plate ≡ standing rows plate
unfolding plate_key Dict.get
plate_key-standing rows plate = ground (
  arith,
  get-counts plate rows [],
  greatest-eq-max (λ r. r.confidence) plate rows 0,
  greatest-eq-max (λ r. r.read_at) plate rows 0,
)
