-- ===== src/Vision/RtspSource/Lag.antt =====
-- How far behind a stream is, by vision/sources/rtsp_stream_diagnostics.py.
use caps_dash.Prelude.{ℕ, ◌+◌, ◌≡◌, refl, ap, ◌∙◌, not, ◌&&◌, some, List, [], ◌∷◌, arith, ltb}
use caps_dash.Vision.RtspSource.{
  StreamLagTracker, note_frame, note_first, note_later, reset, too_late,
}

-- the frames of a session, each with its presentation time and its instant
abbrev pub note_all : StreamLagTracker → List (ℕ × ℕ) → StreamLagTracker
note_all t [] = t
note_all t ((pts, now) ∷ frames) = note_all (note_frame t pts now).0 frames

first-note_later :
    (t : StreamLagTracker) (first : ℕ × ℕ) (pts now : ℕ)
    → (note_later t first pts now).0.first ≡ t.first
unfolding note_later
first-note_later t first pts now = ground arith

first-note_frame :
    (t : StreamLagTracker) (first : ℕ × ℕ) (pts now : ℕ)
    → t.first ≡ some first
    → (note_frame t pts now).0.first ≡ some first
unfolding note_frame note_first
first-note_frame t first pts now h =
    ap (λ o. (note_first t o pts now).0.first) h ∙ first-note_later t first pts now ∙ h

first-note_all :
    (frames : List (ℕ × ℕ)) (t : StreamLagTracker) (first : ℕ × ℕ)
    → t.first ≡ some first
    → (note_all t frames).first ≡ some first
first-note_all [] t first h = h
first-note_all ((pts, now) ∷ frames) t first h =
    first-note_all frames (note_frame t pts now).0 first (first-note_frame t first pts now h)

too_late-note_later :
    (t : StreamLagTracker) (first_pts first_wall pts now resync : ℕ)
    → too_late resync (note_later t (first_pts, first_wall) pts now).1 ≡ (
        not (ltb now (t.since_report_wall + t.every))
        && ltb (first_wall + pts + resync) (now + first_pts))
unfolding note_later
too_late-note_later t first_pts first_wall pts now resync = ground arith

-- A session is given up exactly when a report is due and the picture is more than the threshold behind
-- real time, as counted from the first frame of the session: the time since that frame exceeds the
-- presentation time since it by more than that, whatever was reported in between.
pub too_late_iff :
    (t : StreamLagTracker) (first_pts first_wall : ℕ) (frames : List (ℕ × ℕ)) (pts now resync : ℕ)
    → let t' = note_all (note_frame (reset t) first_pts first_wall).0 frames in
      too_late resync (note_frame t' pts now).1 ≡ (
        not (ltb now (t'.since_report_wall + t'.every))
        && ltb (first_wall + pts + resync) (now + first_pts))
unfolding note_frame reset note_first
too_late_iff t first_pts first_wall frames pts now resync =
    let t' = note_all (note_frame (reset t) first_pts first_wall).0 frames in
    let begun : t'.first ≡ some (first_pts, first_wall) =
      first-note_all frames (note_frame (reset t) first_pts first_wall).0 (first_pts, first_wall)
        refl in
    ap (λ o. too_late resync (note_first t' o pts now).1) begun
    ∙ too_late-note_later t' first_pts first_wall pts now resync
