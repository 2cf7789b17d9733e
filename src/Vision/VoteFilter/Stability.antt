-- ===== src/Vision/VoteFilter/Stability.antt =====
-- SlotVoteFilter of vision/domain/vote_filter.py under steady and briefly changed observations.
use mathlib.Core.List.{reverse, append_assoc}
use caps_dash.Prelude.{
  length-reverse, reverse-cons, ◌↔◌, length-replicate, ℕ, zero, suc, ◌+◌, ◌*◌, ◌≤◌, ◌<◌, ◌≡◌, ◌≢◌,
  Bool, true, false, List, [], ◌∷◌, ◌++◌, arith, ok, refl, sym, ap, ◌∙◌, length, take, count,
  replicate, count-le-length, length-take, length-append,
}
use native.Mathlib.Decide.{dec_lt}
use caps_dash.Vision.States.{SlotState, unknown, free, occupied}
use caps_dash.Vision.VoteFilter.{SlotVoteFilter, init}
use caps_dash.Vision.VoteFilter.Spec.{verdict}
use caps_dash.Vision.VoteFilter.Refines.{run, onto, run-verdict, length-onto}

-- The state that an observation speaks for.
abbrev pub settled : Bool → SlotState
settled true = occupied
settled false = free

abbrev occupied_count : List Bool → ℕ
occupied_count = count (λ x. x)

onto-reverse : (h vs : List Bool) → onto h vs ≡ reverse vs ++ h
onto-reverse h [] = refl
onto-reverse h (v ∷ vs) =
    onto-reverse (v ∷ h) vs
    ∙ sym (append_assoc (reverse vs) (v ∷ []) h)
    ∙ ap (λ l. l ++ h) (sym (reverse-cons v vs))

reverse-replicate : (n : ℕ) (b : Bool) (h : List Bool) → onto h (replicate n b) ≡ replicate n b ++ h
reverse-replicate zero b h = refl
reverse-replicate (suc n) b h = reverse-replicate n b (b ∷ h) ∙ shift n
  where
    shift : (n : ℕ) → replicate n b ++ b ∷ h ≡ b ∷ (replicate n b ++ h)
    shift zero = refl
    shift (suc n) = ap (◌∷◌ b) (shift n)

onto-append : (h xs ys : List Bool) → onto h (xs ++ ys) ≡ onto (onto h xs) ys
onto-append h [] ys = refl
onto-append h (x ∷ xs) ys = onto-append (x ∷ h) xs ys

-- Of the newest `w` observations, all but the `os` are the repeated one.
many_true :
    (w n : ℕ) (os h : List Bool)
    → w ≤ n + length os
    → w ≤ occupied_count (take w (os ++ (replicate n true ++ h))) + length os
many_true zero n os h l = omega arith
many_true (suc w) zero [] h l = absurd (omega arith)
many_true (suc w) (suc n) [] h l = omega (arith, many_true w n [] h (omega arith))
many_true (suc w) n (true ∷ os) h l = omega (arith, many_true w n os h (omega arith))
many_true (suc w) n (false ∷ os) h l = omega (arith, many_true w n os h (omega arith))

few_true :
    (w n : ℕ) (os h : List Bool)
    → w ≤ n + length os
    → occupied_count (take w (os ++ (replicate n false ++ h))) ≤ length os
few_true zero n os h l = omega arith
few_true (suc w) zero [] h l = absurd (omega arith)
few_true (suc w) (suc n) [] h l = omega (arith, few_true w n [] h (omega arith))
few_true (suc w) n (true ∷ os) h l = omega (arith, few_true w n os h (omega arith))
few_true (suc w) n (false ∷ os) h l = omega (arith, few_true w n os h (omega arith))

newest_true :
    (w t : ℕ) (h : List Bool) → t ≤ w → t ≤ occupied_count (take w (replicate t true ++ h))
newest_true w zero h l = omega arith
newest_true zero (suc t) h l = absurd (omega arith)
newest_true (suc w) (suc t) h l = omega (arith, newest_true w t h (omega arith))

newest_false :
    (w t : ℕ) (h : List Bool) → t ≤ w → occupied_count (take w (replicate t false ++ h)) + t ≤ w
newest_false w zero h l = omega (arith, count-le-length (λ x. x) (take w h), length-take w h)
newest_false zero (suc t) h l = absurd (omega arith)
newest_false (suc w) (suc t) h l = omega (arith, newest_false w t h (omega arith))

verdict-settles :
    (w t : ℕ) (b : Bool) (h : List Bool)
    → 0 < t
    → t ≤ w
    → w < 2 * t
    → w ≤ t + length h
    → verdict w t (replicate t b ++ h) ≡ settled b
unfolding verdict
verdict-settles w zero b h p l m n = absurd (omega arith)
verdict-settles w (suc t) true h p l m n =
    ground
      (arith, newest_true w (suc t) h, length-append (replicate t true) h, length-replicate t true)
verdict-settles w (suc t) false h p l m n =
    ground (
      arith,
      newest_false w (suc t) h,
      length-append (replicate t false) h,
      length-replicate t false,
    )

verdict-holds :
    (w t : ℕ) (b : Bool) (os h : List Bool)
    → 0 < w
    → t ≤ w
    → length os < t
    → verdict w t (os ++ (replicate w b ++ h)) ≡ settled b
unfolding verdict
verdict-holds zero t b os h p l n = absurd (omega arith)
verdict-holds (suc w) t true [] h p l n = ground (
  arith,
  many_true (suc w) (suc w) [] h,
  length-append (replicate w true) h,
  length-replicate w true,
)
verdict-holds (suc w) t false [] h p l n = ground (
  arith,
  few_true (suc w) (suc w) [] h,
  length-append (replicate w false) h,
  length-replicate w false,
)
verdict-holds (suc w) t true (o ∷ os) h p l n = ground (
  arith,
  many_true (suc w) (suc w) (o ∷ os) h,
  verdict-holds (suc w) t true os h p l (omega arith),
  length-append os (replicate (suc w) true ++ h),
  length-append (replicate w true) h,
  length-replicate w true,
)
verdict-holds (suc w) t false (o ∷ os) h p l n = ground (
  arith,
  few_true (suc w) (suc w) (o ∷ os) h,
  verdict-holds (suc w) t false os h p l (omega arith),
  length-append os (replicate (suc w) false ++ h),
  length-append (replicate w false) h,
  length-replicate w false,
)

verdict-ne-unknown :
    (w t : ℕ) (h : List Bool) → 0 < w → 2 * t ≤ w + 1 → w ≤ length h → verdict w t h ≢ unknown
unfolding verdict
verdict-ne-unknown w t [] p m l = absurd (omega arith)
verdict-ne-unknown w t (v ∷ h) p m l = ground (arith, length-take w (v ∷ h))

verdict-eq-unknown : (w t : ℕ) (h : List Bool) → length h < w → verdict w t h ≡ unknown
unfolding verdict
verdict-eq-unknown w t [] l = refl
verdict-eq-unknown w t (v ∷ h) l = ground (arith, verdict-eq-unknown w t h (omega arith))

-- what a successful construction says of its settings
init_bounds :
    (window threshold : ℕ) {f : SlotVoteFilter}
    → init window threshold ≡ ok f
    → (0 < threshold) × (threshold ≤ window)
unfolding init
init_bounds window threshold e = ground arith

-- No flicker. Once a whole window has agreed, fewer than `threshold` later observations, whatever
-- they say and whatever came before, leave the reported state where it is.
pub brief_occlusion :
    (window threshold : ℕ) (b : Bool) (earlier later : List Bool) {f : SlotVoteFilter}
    → init window threshold ≡ ok f
    → length later < threshold
    → (run f (earlier ++ (replicate window b ++ later))).state ≡ settled b
brief_occlusion window threshold b earlier later e l =
    let history : onto [] (earlier ++ (replicate window b ++ later))
        ≡ reverse later ++ (replicate window b ++ onto [] earlier) =
      onto-append [] earlier (replicate window b ++ later)
      ∙ onto-append (onto [] earlier) (replicate window b) later
      ∙ onto-reverse (onto (onto [] earlier) (replicate window b)) later
      ∙ ap (λ l. reverse later ++ l) (reverse-replicate window b (onto [] earlier)) in
    let (p, q) = init_bounds window threshold e in
    run-verdict window threshold (earlier ++ (replicate window b ++ later)) e
    ∙ ap (verdict window threshold) history
    ∙ verdict-holds window threshold b (reverse later) (onto [] earlier) (omega arith) q
        (omega (arith, length-reverse later))

-- No lag. With a threshold above half the window, `threshold` agreeing observations in a row
-- decide the state, whatever came before, as soon as a full window has been made.
pub settles :
    (window threshold : ℕ) (b : Bool) (earlier : List Bool) {f : SlotVoteFilter}
    → init window threshold ≡ ok f
    → window < 2 * threshold
    → window ≤ length earlier + threshold
    → (run f (earlier ++ replicate threshold b)).state ≡ settled b
settles window threshold b earlier e m l =
    let (p, q) = init_bounds window threshold e in
    run-verdict window threshold (earlier ++ replicate threshold b) e
    ∙ ap (verdict window threshold) (
        onto-append [] earlier (replicate threshold b)
        ∙ reverse-replicate threshold b (onto [] earlier))
    ∙ verdict-settles window threshold b (onto [] earlier) p q m
        (omega (arith, length-onto [] earlier))

-- The reported state is UNKNOWN for as long as fewer than `window` observations were made, and
-- never again after that if the threshold is at most a majority of the window.
pub unknown_iff :
    (window threshold : ℕ) (vs : List Bool) {f : SlotVoteFilter}
    → init window threshold ≡ ok f
    → 2 * threshold ≤ window + 1
    → ((run f vs).state ≡ unknown) ↔ (length vs < window)
unknown_iff window threshold vs e m =
    let (p, q) = init_bounds window threshold e in
    let history = onto [] vs in
    let seen : length history ≡ length vs = omega (arith, length-onto [] vs) in
    let reported = run-verdict window threshold vs e in
    (
      λ u. elim (dec_lt (length vs) window) [
        | yes few ↦ few
        | no many ↦ absurd (
            verdict-ne-unknown window threshold history (omega arith) m (omega (arith, seen))
              (sym reported ∙ u))
      ],
      λ few. reported ∙ verdict-eq-unknown window threshold history (omega (arith, seen)),
    )
