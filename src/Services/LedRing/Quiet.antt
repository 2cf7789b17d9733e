-- ===== src/Services/LedRing/Quiet.antt =====
-- A push that sends nothing repeats what the device has acknowledged less than the time of the refresh
-- ago.
use caps_dash.Prelude.{
  if-cases, ◌++◌, ◌<◌, ◌+◌, eq_iff, ltb, ◌&&◌, ◌||◌, true, not, refl, nat_eq, inr, ok, err, inl,
  arith, Bool-cases, ◌==◌, [], if◌then◌else◌, ◌⊎◌, none, Result, ◌≡◌, some, false, ◌∷◌, Bool, List,
  ℕ, String, Option, String_key, ℕ_key,
}
use caps_dash.Services.CameraControl.{
  device_base, is_controllable, http_error, ControlError, status, Answer,
}
use caps_dash.Services.LedRing.{
  new_ring, max_slots, refresh_seconds, no_states, Push, SlotLedRing, encode_states, Answer,
  Request, heard, push, run, ask,
}
use caps_dash.Services.LedRing.Encoded.{encode_states-nonempty}
use Prim.Native.String.{count}

-- the last payload of a push that the device has answered with 200, and when
abbrev pub took : Answer → Bool
took http_error = false
took (status code) = code == 200

pub shows : Option Request → Answer → ℕ → Option (String × ℕ) → Option (String × ℕ)
shows none answer now last = last
shows (some r) answer now last = if took answer then some (r.slots, now) else last

abbrev pub Known : SlotLedRing → Option (String × ℕ) → Type 0
Known ring none = ring.last_payload ≡ ""
Known ring (some (slots, at)) = (ring.last_payload ≡ slots) × (ring.last_sent_at ≡ at)

Known-unsupported :
    (ring : SlotLedRing) (last : Option (String × ℕ))
    → Known ring last
    → Known (record ring { supported = false }) last
Known-unsupported ring none k = k
Known-unsupported ring (some (slots, at)) k = k

Known-heard :
    (ring : SlotLedRing) (base payload : String) (now : ℕ) (answer : Answer)
    (last : Option (String × ℕ))
    → Known ring last
    → Known
        (heard ring payload now answer)
        (shows (some (record { base = base; slots = payload })) answer now last)
unfolding heard shows
Known-heard ring base payload now http_error last k = k
Known-heard ring base payload now (status code) last k = elim (Bool-cases (code == 404)) [
  | inl absent ↦
      let other : nat_eq code 200 ≡ false = ground arith in
      rw (absent, other) (Known-unsupported ring last k)
  | inr present ↦ elim (Bool-cases (code == 200)) [
    | inl good ↦ rw (present, good) (refl, refl)
    | inr bad ↦ rw (present, bad) k
  ]
]

-- the payload was the last to be acknowledged, less than the refresh time ago
abbrev pub UpToDate : String → ℕ → Option (String × ℕ) → Type 0
UpToDate payload now last = (at : ℕ) × (last ≡ some (payload, at)) × (now < at + refresh_seconds)

UpToDate-quiet :
    (ring : SlotLedRing) (last : Option (String × ℕ)) (payload : String) (now : ℕ)
    → Known ring last
    → (payload == "") ≡ false
    → ((payload == ring.last_payload) && ltb now (ring.last_sent_at + refresh_seconds)) ≡ true
    → UpToDate payload now last
UpToDate-quiet ring none payload now k full quiet =
    absurd (ground (arith, eq_iff payload ring.last_payload, eq_iff payload ""))
UpToDate-quiet ring (some (slots, at)) payload now k full quiet =
    (at, ground (arith, eq_iff payload ring.last_payload), ground arith)

module _ (urlsplit : String → String × String) (urlunsplit : String → String → String) where
  -- what the device has acknowledged last, after pushes
  pub acknowledged : SlotLedRing → List Push → Option (String × ℕ) → Option (String × ℕ)
  acknowledged ring [] last = last
  acknowledged ring (p ∷ pushes) last =
      let pushed = push urlsplit urlunsplit ring p in
      acknowledged pushed.0 pushes (shows pushed.1 p.answer p.now last)

  Known-ask :
      (ring : SlotLedRing) (payload : String) (now : ℕ) (answer : Answer)
      (base : Result ControlError String) (last : Option (String × ℕ))
      → Known ring last
      → Known
          (ask ring payload now answer base).0
          (shows (ask ring payload now answer base).1 answer now last)
  unfolding ask shows
  Known-ask ring payload now answer (err failure) last k = Known-unsupported ring last k
  Known-ask ring payload now answer (ok base) last k =
      Known-heard ring base payload now answer last k

  Known-push :
      (ring : SlotLedRing) (p : Push) (last : Option (String × ℕ))
      → Known ring last
      → Known
          (push urlsplit urlunsplit ring p).0
          (shows (push urlsplit urlunsplit ring p).1 p.answer p.now last)
  unfolding push shows
  Known-push ring p last k =
      let P : SlotLedRing × Option Request → Type 0 =
        λ q. Known q.0 (shows q.1 p.answer p.now last) in
      let off = Known-unsupported ring last k in
      if-cases P (not ring.supported || no_states p.states) _ _ (λ h. k)
        (λ h.
          if-cases P
            ((encode_states p.states == ring.last_payload)
              && ltb p.now (ring.last_sent_at + refresh_seconds))
            _ _ (λ h. k)
            (λ h.
              if-cases P (not (is_controllable p.source_type)) _ _ (λ h. off)
                (λ h.
                  if-cases P (ltb max_slots (count (encode_states p.states))) _ _ (λ h. off)
                    (λ h.
                      Known-ask ring (encode_states p.states) p.now p.answer
                        (device_base urlsplit urlunsplit p.source_type p.source_url) last k))))

  Known-run :
      (ring : SlotLedRing) (pushes : List Push) (last : Option (String × ℕ))
      → Known ring last
      → Known (run urlsplit urlunsplit ring pushes) (acknowledged ring pushes last)
  unfolding run acknowledged
  Known-run ring [] last k = k
  Known-run ring (p ∷ pushes) last k =
      Known-run (push urlsplit urlunsplit ring p).0 pushes
        (shows (push urlsplit urlunsplit ring p).1 p.answer p.now last) (Known-push ring p last k)

  acknowledged-snoc :
      (ring : SlotLedRing) (pushes : List Push) (p : Push) (last : Option (String × ℕ))
      → acknowledged ring (pushes ++ p ∷ []) last
        ≡ shows
            (push urlsplit urlunsplit (run urlsplit urlunsplit ring pushes) p).1
            p.answer
            p.now
            (acknowledged ring pushes last)
  unfolding acknowledged run
  acknowledged-snoc ring [] p last = refl
  acknowledged-snoc ring (q ∷ pushes) p last =
      acknowledged-snoc (push urlsplit urlunsplit ring q).0 pushes p
        (shows (push urlsplit urlunsplit ring q).1 q.answer q.now last)

  ask-acknowledged :
      (ring : SlotLedRing) (payload : String) (now : ℕ) (answer : Answer)
      (base : Result ControlError String) (last : Option (String × ℕ))
      → (ask ring payload now answer base).0.supported ≡ true
      → ((ask ring payload now answer base).1 ≡ none) ⊎ (answer ≡ status 200)
      → UpToDate payload now (shows (ask ring payload now answer base).1 answer now last)
  unfolding ask shows
  ask-acknowledged ring payload now answer (err failure) last after h = absurd (ground arith)
  ask-acknowledged ring payload now answer (ok base) last after (inl unsent) = absurd (ground arith)
  ask-acknowledged ring payload now answer (ok base) last after (inr good) =
      rw good (now, refl, omega arith)

  shows-push :
      (ring : SlotLedRing) (p : Push) (last : Option (String × ℕ))
      → Known ring last
      → no_states p.states ≡ false
      → ring.supported ≡ true
      → (push urlsplit urlunsplit ring p).0.supported ≡ true
      → ((push urlsplit urlunsplit ring p).1 ≡ none) ⊎ (p.answer ≡ status 200)
      → UpToDate
          (encode_states p.states)
          p.now
          (shows (push urlsplit urlunsplit ring p).1 p.answer p.now last)
  unfolding push shows
  shows-push ring p last k some_states before =
      let payload = encode_states p.states in
      let P : SlotLedRing × Option Request → Type 0 = λ q.
        q.0.supported ≡ true
        → (q.1 ≡ none) ⊎ (p.answer ≡ status 200)
        → UpToDate payload p.now (shows q.1 p.answer p.now last) in
      if-cases P (not ring.supported || no_states p.states) _ _ (λ h. absurd (ground arith))
        (λ h.
          if-cases P
            ((payload == ring.last_payload) && ltb p.now (ring.last_sent_at + refresh_seconds)) _ _
            (λ quiet after sent.
              UpToDate-quiet ring last payload p.now k (encode_states-nonempty p.states some_states)
                quiet)
            (λ h.
              if-cases P (not (is_controllable p.source_type)) _ _
                (λ h after. absurd (ground arith))
                (λ h.
                  if-cases P (ltb max_slots (count payload)) _ _ (λ h after. absurd (ground arith))
                    (λ h.
                      ask-acknowledged ring payload p.now p.answer
                        (device_base urlsplit urlunsplit p.source_type p.source_url) last))))

  -- A new ring after any pushes, and one more push of some states: if the ring is supported before and
  -- after it, and the push sends no request or the device answers its request with 200, then the
  -- last payload, of all these pushes, that the device has answered with 200 is the encoding of these
  -- states, and was answered less than the refresh time ago. What the device does besides (a restart, a
  -- test pattern) is not followed.
  pub push-acknowledged :
      (pushes : List Push) (p : Push)
      → no_states p.states ≡ false
      → (run urlsplit urlunsplit new_ring pushes).supported ≡ true
      → (push urlsplit urlunsplit (run urlsplit urlunsplit new_ring pushes) p).0.supported ≡ true
      → ((push urlsplit urlunsplit (run urlsplit urlunsplit new_ring pushes) p).1 ≡ none)
        ⊎ (p.answer ≡ status 200)
      → (at : ℕ) × (acknowledged new_ring (pushes ++ p ∷ []) none
          ≡ some (encode_states p.states, at))
        × (p.now < at + refresh_seconds)
  push-acknowledged pushes p some_states before after h =
      rw (acknowledged-snoc new_ring pushes p none) (
        shows-push (run urlsplit urlunsplit new_ring pushes) p (acknowledged new_ring pushes none)
          (Known-run new_ring pushes none refl) some_states before after h)
