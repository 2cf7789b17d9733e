-- ===== src/Vision/VoteFilter/Refines.antt =====
-- SlotVoteFilter of vision/domain/vote_filter.py against its specification.
use mathlib.Core.List.{reverse, reverse-append}
use caps_dash.Prelude.{
  take-cons-take, drop-length-append, count-reverse, length-reverse, reverse-cons, take-append-drop,
  min, leb, ◌≤◌, ◌+◌, length-take, ok, ℕ, zero, suc, ◌-◌, ◌≡◌, sym, ap, ◌∙◌, Bool, List, [], ◌∷◌,
  ◌++◌, arith, length, take, drop, length-drop,
}
use caps_dash.Vision.VoteFilter.{is_warmed_up, init, decide, SlotVoteFilter, append_bounded, update}
use caps_dash.Vision.VoteFilter.Spec.{verdict}

module _ {ℓ} {A : Type ℓ} where
  -- what a bounded deque keeps, seen from the new end
  keep_newest :
      (n : ℕ) (xs : List A) → drop (length (reverse xs) - n) (reverse xs) ≡ reverse (take n xs)
  keep_newest n xs =
      let split : reverse xs ≡ reverse (drop n xs) ++ reverse (take n xs) =
        ap reverse (sym (take-append-drop n xs)) ∙ reverse-append (take n xs) (drop n xs) in
      ap (drop (length (reverse xs) - n)) split
      ∙ drop-length-append _ (reverse (drop n xs)) (reverse (take n xs))
          (omega (arith, length-reverse xs, length-reverse (drop n xs), length-drop n xs))

append_bounded-reverse :
    (n : ℕ) (h : List Bool) (v : Bool)
    → append_bounded n (reverse (take n h)) v ≡ reverse (take n (v ∷ h))
unfolding append_bounded
append_bounded-reverse n h v =
    rw (← reverse-cons v (take n h))
      (keep_newest n (v ∷ take n h) ∙ ap reverse (take-cons-take n v h))

-- The filter after a run of observations, oldest first.
unfoldable pub run : SlotVoteFilter → List Bool → SlotVoteFilter
run f [] = f
run f (v ∷ vs) = run (update f v) vs

-- The filter has seen `h`, newest first.
pub record Tracks (window threshold : ℕ) (h : List Bool) (f : SlotVoteFilter) : Type 0 where
  pub window_eq : f.window ≡ window
  pub threshold_eq : f.threshold ≡ threshold
  pub votes_eq : f.votes ≡ reverse (take window h)
  pub state_eq : f.state ≡ verdict window threshold h

decide-verdict :
    (window threshold : ℕ) (f : SlotVoteFilter) (v : Bool) (h : List Bool)
    → f.window ≡ window
    → f.threshold ≡ threshold
    → f.state ≡ verdict window threshold h
    → decide f (reverse (take window (v ∷ h))) ≡ verdict window threshold (v ∷ h)
unfolding decide verdict
decide-verdict window threshold f v h ew et es =
    let seen = take window (v ∷ h) in
    ground (arith, length-reverse seen, count-reverse (λ x. x) seen, length-take window (v ∷ h))

Tracks-update :
    (window threshold : ℕ) (h : List Bool) (f : SlotVoteFilter) (v : Bool)
    → Tracks window threshold h f
    → Tracks window threshold (v ∷ h) (update f v)
unfolding update
Tracks-update window threshold h f v t =
    let votes : append_bounded f.window f.votes v ≡ reverse (take window (v ∷ h)) =
      rw (t.window_eq, t.votes_eq) (append_bounded-reverse window h v) in
    record {
      window_eq = t.window_eq;
      threshold_eq = t.threshold_eq;
      votes_eq = votes;
      state_eq =
          ap (decide f) votes
          ∙ decide-verdict window threshold f v h t.window_eq t.threshold_eq t.state_eq;
    }

-- newest first, given the older history
abbrev pub onto : List Bool → List Bool → List Bool
onto h [] = h
onto h (v ∷ vs) = onto (v ∷ h) vs

pub Tracks-run :
    (window threshold : ℕ) (h : List Bool) (f : SlotVoteFilter) (vs : List Bool)
    → Tracks window threshold h f
    → Tracks window threshold (onto h vs) (run f vs)
unfolding run
Tracks-run window threshold h f [] t = t
Tracks-run window threshold h f (v ∷ vs) t =
    Tracks-run window threshold (v ∷ h) (update f v) vs (Tracks-update window threshold h f v t)

pub Tracks-init :
    (window threshold : ℕ) {f : SlotVoteFilter}
    → init window threshold ≡ ok f
    → Tracks window threshold [] f
unfolding init verdict
Tracks-init zero threshold e = ground arith
Tracks-init (suc window) threshold e = ground arith

-- A filter that was built with valid settings and fed the observations `vs`, oldest first, reports
-- the verdict of the specification over the whole history, however long the run.
pub run-verdict :
    (window threshold : ℕ) (vs : List Bool) {f : SlotVoteFilter}
    → init window threshold ≡ ok f
    → (run f vs).state ≡ verdict window threshold (onto [] vs)
run-verdict window threshold vs e =
    (Tracks-run window threshold [] _ vs (Tracks-init window threshold e)).state_eq

pub length-onto : (h vs : List Bool) → length (onto h vs) ≡ length h + length vs
length-onto h [] = omega arith
length-onto h (v ∷ vs) = omega (arith, length-onto (v ∷ h) vs)

-- The deque never holds more votes than the window, and `is_warmed_up` says exactly that a full
-- window of observations has been made.
pub warm-up :
    (window threshold : ℕ) (vs : List Bool) {f : SlotVoteFilter}
    → init window threshold ≡ ok f
    → (length (run f vs).votes ≤ window) × (is_warmed_up (run f vs) ≡ leb window (length vs))
unfolding is_warmed_up
warm-up window threshold vs {f} e =
    let t = Tracks-run window threshold [] f vs (Tracks-init window threshold e) in
    let n : length (run f vs).votes ≡ min window (length vs) = rw t.votes_eq (
      omega (
        arith,
        length-reverse (take window (onto [] vs)),
        length-take window (onto [] vs),
        length-onto [] vs,
      )) in
    (omega (arith, n), rw t.window_eq (ground (arith, n)))
