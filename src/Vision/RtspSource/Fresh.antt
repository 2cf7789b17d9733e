-- ===== src/Vision/RtspSource/Fresh.antt =====
-- What a worker reads from vision/sources/rtsp_stream_source.py.
use caps_dash.Prelude.{
  ℕ, ◌+◌, ◌≤◌, ◌≡◌, refl, ap, sym, ◌∙◌, Option, none, some, List, [], ◌∷◌, arith, ok, Option-cases,
  inl, inr,
}
use caps_dash.Vision.RtspSource.{
  RtspStreamSource, Event, opened, decoded, failed, read_at, Frame, read, read_latest, drain_one,
  step, run, new_source,
}

-- the frame that was decoded last, with the instant
abbrev pub newest : {I : Type 0} → List (Event I) → Option (I × ℕ) → Option (I × ℕ)
newest [] last = last
newest (opened ∷ es) last = newest es last
newest (decoded image pts now ∷ es) last = newest es (some (image, now))
newest (failed error ∷ es) last = newest es last
newest (read_at now ∷ es) last = newest es last

module _ {I J : Type 0} (encode : I → Option J) where
  -- What the cache of the encoded frame keeps: it is of the newest frame or of an older one, and
  -- where it is of the newest, it is that frame's encoding.
  pub record IsCoherent (s : RtspStreamSource I J) : Type 0 where
    pub not_later : (n : ℕ) → s.encoded_seq ≡ some n → n ≤ s.latest_seq
    pub same :
        (image : I) (at : ℕ)
        → s.latest ≡ some (image, at)
        → s.encoded_seq ≡ some s.latest_seq
        → s.encoded ≡ encode image

  latest-read_latest :
      (s : RtspStreamSource I J) (o : Option (I × ℕ)) (now : ℕ)
      → (read_latest encode s o now).0.latest ≡ s.latest
  unfolding read_latest
  latest-read_latest s none now = refl
  latest-read_latest s (some (image, at)) now = ground arith

  IsCoherent-read_latest :
      (s : RtspStreamSource I J) (o : Option (I × ℕ)) (now : ℕ)
      → s.latest ≡ o
      → IsCoherent s
      → IsCoherent (read_latest encode s o now).0
  unfolding read_latest
  IsCoherent-read_latest s none now e c = record {
    not_later = λ n h. c.not_later n h;
    same = λ image at h k. c.same image at h k;
  }
  IsCoherent-read_latest s (some (i, t)) now e c = record {
    not_later = λ n h. ground (arith, c.not_later n);
    same = λ image at h k. ground (arith, c.same image at);
  }

  latest-step :
      (s : RtspStreamSource I J) (e : Event I) → (step encode s e).latest ≡ newest (e ∷ []) s.latest
  unfolding step drain_one read
  latest-step s opened = refl
  latest-step s (decoded image pts now) = refl
  latest-step s (failed error) = refl
  latest-step s (read_at now) = latest-read_latest s s.latest now

  IsCoherent-step :
      (s : RtspStreamSource I J) (e : Event I) → IsCoherent s → IsCoherent (step encode s e)
  unfolding step drain_one read
  IsCoherent-step s opened c = record { not_later = c.not_later; same = c.same }
  IsCoherent-step s (decoded i pts t) c = record {
    not_later = λ n h. omega (arith, c.not_later n h);
    same = λ image at h k. absurd (omega (arith, c.not_later (s.latest_seq + 1) k));
  }
  IsCoherent-step s (failed error) c = record { not_later = c.not_later; same = c.same }
  IsCoherent-step s (read_at now) c = IsCoherent-read_latest s s.latest now refl c

  max_age-step : (s : RtspStreamSource I J) (e : Event I) → (step encode s e).max_age ≡ s.max_age
  unfolding step drain_one read read_latest
  max_age-step s opened = refl
  max_age-step s (decoded i pts t) = refl
  max_age-step s (failed error) = refl
  max_age-step s (read_at now) = elim (Option-cases s.latest) [
    | inl missing ↦ ap (λ o. (read_latest encode s o now).0.max_age) missing
    | inr (latest, there) ↦ ap (λ o. (read_latest encode s o now).0.max_age) there ∙ ground arith
  ]

  -- What a run keeps.
  run-IsCoherent :
      (es : List (Event I)) (s : RtspStreamSource I J)
      → IsCoherent s
      → IsCoherent (run encode s es)
        × ((run encode s es).latest ≡ newest es s.latest)
        × ((run encode s es).max_age ≡ s.max_age)
  unfolding run
  run-IsCoherent [] s c = (c, refl, refl)
  run-IsCoherent (e ∷ es) s c =
      let (c', latest, age) = run-IsCoherent es (step encode s e) (IsCoherent-step s e c) in
      (
        c',
        latest ∙ ap (newest es) (latest-step s e) ∙ newest-cons e es s.latest,
        age ∙ max_age-step s e,
      )
    where
      newest-cons :
          (e : Event I) (es : List (Event I)) (last : Option (I × ℕ))
          → newest es (newest (e ∷ []) last) ≡ newest (e ∷ es) last
      newest-cons opened es last = refl
      newest-cons (decoded i pts t) es last = refl
      newest-cons (failed error) es last = refl
      newest-cons (read_at t) es last = refl

  read_latest-ok :
      (s s' : RtspStreamSource I J) (o : Option (I × ℕ)) (now : ℕ) (frame : Frame I J)
      → s.latest ≡ o
      → IsCoherent s
      → read_latest encode s o now ≡ (s', ok frame)
      → (at : ℕ) × (o ≡ some (frame.image, at))
        × (now ≤ at + s.max_age)
        × (frame.jpeg_bytes ≡ encode frame.image)
  unfolding read_latest
  read_latest-ok s s' none now frame e c h = absurd (ground arith)
  read_latest-ok s s' (some (image, at)) now frame e c h =
      (at, ground arith, ground arith, ground (arith, c.same image at))

  -- Whatever the thread and the worker have done, a read that succeeds gives the frame that was
  -- decoded last, not older than the greatest age allowed, with the encoding of that very frame.
  pub read-run :
      (max_age resync_lag now : ℕ) (es : List (Event I)) (after : RtspStreamSource I J)
      (frame : Frame I J)
      → read encode (run encode (new_source max_age resync_lag) es) now ≡ (after, ok frame)
      → (at : ℕ) × (newest es none ≡ some (frame.image, at))
        × (now ≤ at + max_age)
        × (frame.jpeg_bytes ≡ encode frame.image)
  unfolding read
  read-run max_age resync_lag now es after frame h =
      let start : RtspStreamSource I J = new_source max_age resync_lag in
      let fresh : IsCoherent start = record {
        not_later = λ n e. absurd (ground arith);
        same = λ image at e k. absurd (ground arith);
      } in
      let (c, latest, age) = run-IsCoherent es start fresh in
      let s = run encode start es in
      let (at, there, young, encoded) = read_latest-ok s after s.latest now frame refl c h in
      (at, sym latest ∙ there, omega arith, encoded)
