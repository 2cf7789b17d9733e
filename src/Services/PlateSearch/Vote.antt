-- ===== src/Services/PlateSearch/Vote.antt =====
-- The vote on the plate of a bay (services/plate_search_service.py).

use mathlib.Core.Option
use caps_dash.Prelude.{
  All-Mem, Mem-filter, All-of_Mem, String, leb, ◌∙◌, Bool, sym, some, false, refl, ap, filter, ◌<◌,
  ◌≡◌, String_key, List, [], ◌∷◌, ◌==◌, All, eq_iff,
}
use caps_dash.Prelude.Dict.{keys}
use mathlib.Core.Path.{subst}
use mathlib.Core.List.{Memᴰ}
use caps_dash.Services.PlateSearch.Maximum.{Mem-or_rows, maximum-Greatest, maximum-Mem, Greatest}
use caps_dash.Prelude.{fun_ext}
use caps_dash.Services.PlateSearch.Tally.{
  standing, plate_key-standing, All-counts, filter-cons, tally-Mem, counts-All, tally,
  keys-counts-cons,
}
use caps_dash.Services.PlateSearch.{
  Rank, min_plate_confidence, since_then, reading_key, to_match, maximum, greatest, maximum_of,
  current, best_plate, plate_key, key_less, vote, or_rows, best_reading, Reading, counts,
}

-- A reading whose plate has won among some readings, and which is the best of that plate.
pub record Wins (row : Reading) (rows : List Reading) : Type 0 where
  pub votes : Memᴰ row rows
  pub elected :
      All
        (λ other. key_less (standing rows row.read.plate) (standing rows other.read.plate) ≡ false)
        rows
  pub clearest :
      Greatest reading_key row (filter (λ other. other.read.plate == row.read.plate) rows)

maximum_of-cons :
    {A : Type 0} (key : A → Rank) (l : List A) (a : A) (rest : List A)
    → l ≡ a ∷ rest
    → (maximum_of key l ≡ some (maximum key a rest))
      × Memᴰ (maximum key a rest) l
      × Greatest key (maximum key a rest) l
maximum_of-cons key l a rest e =
    subst
      (λ l'.
        (maximum_of key l' ≡ some (maximum key a rest))
        × Memᴰ (maximum key a rest) l'
        × Greatest key (maximum key a rest) l')
      (sym e) (refl, maximum-Mem key a rest, maximum-Greatest key a rest)

elect :
    (r : Reading) (rs : List Reading)
    → (row : Reading) × (best_reading (r ∷ rs) (best_plate (r ∷ rs)) ≡ some row) × Wins row (r ∷ rs)
unfolding best_reading best_plate
elect r rs =
    let rows = r ∷ rs in
    let (p, others, plates) = keys-counts-cons r rs in
    let w = maximum (plate_key rows) p others in
    let (won, stood, greatest) =
      maximum_of-cons (plate_key rows) (keys (counts rows [])) p others plates in
    let read : 0 < tally w rows =
      All-Mem (λ q. 0 < tally q rows) w (keys (counts rows [])) stood
        (counts-All (λ q. 0 < tally q rows) rows []
          (All-of_Mem (λ row. 0 < tally row.read.plate rows) rows (λ row. tally-Mem row rows))
          tt) in
    let (s, rest, same) = filter-cons w rows read in
    let row = maximum reading_key s rest in
    let (chosen, inside, clearest) =
      maximum_of-cons reading_key (filter (λ other. other.read.plate == w) rows) s rest same in
    let (voted, match) = Mem-filter (λ other. other.read.plate == w) row rows inside in
    let plate : w ≡ row.read.plate = sym ((eq_iff row.read.plate w).0 match) in
    (
      row,
      ap (best_reading rows) won ∙ chosen,
      record {
        votes = voted;
        elected =
            subst
              (λ (key : String → Rank).
                All (λ other. key_less (key row.read.plate) (key other.read.plate) ≡ false) rows)
              (fun_ext (plate_key-standing rows))
              (subst
                (λ q.
                  All
                    (λ other. key_less (plate_key rows q) (plate_key rows other.read.plate) ≡ false)
                    rows)
                plate
                (All-counts (λ q. key_less (plate_key rows w) (plate_key rows q) ≡ false) rows []
                  greatest).0);
        clearest =
            subst (λ q. Greatest reading_key row (filter (λ other. other.read.plate == q) rows))
              plate clearest;
      },
    )

or_rows-cons :
    {A : Type 0} (xs ys : List A) (y : A) (ys' : List A)
    → ys ≡ y ∷ ys'
    → (z : A) × (zs : List A) × (or_rows xs ys ≡ z ∷ zs)
or_rows-cons [] ys y ys' e = (y, ys', e)
or_rows-cons (x ∷ xs) ys y ys' e = (x, xs, refl)

-- A vote always gives an answer. It is a reading of the bay, and one of those that vote; no plate
-- read there comes before its plate, by the number of the readings that vote, then by the surest of
-- them, then by the newest; and of the plate's readings that vote none is surer, nor as sure and newer.
pub vote-Wins :
    (first : Reading) (rest : List Reading)
    → (row : Reading) × (vote first rest ≡ some (to_match row))
      × Memᴰ row (first ∷ rest)
      × Wins row (current first rest)
unfolding vote current
vote-Wins first rest =
    let rows = first ∷ rest in
    let recent = since_then first.slot.state_since in
    let sure : Reading → Bool = λ row. leb min_plate_confidence row.read.confidence in
    let episode = or_rows (filter recent rows) rows in
    let (e, es, episodes) = or_rows-cons (filter recent rows) rows first rest refl in
    let (v, vs, voters) = or_rows-cons (filter sure episode) episode e es episodes in
    let (row, best, wins) = elect v vs in
    let wins' : Wins row (or_rows (filter sure episode) episode) =
      subst (Wins row) (sym voters) wins in
    (
      row,
      ap (λ l. Option.map to_match (best_reading l (best_plate l))) voters
          ∙ ap (Option.map to_match) best,
      Mem-or_rows row recent rows (Mem-or_rows row sure episode wins'.votes),
      wins',
    )
