-- ===== src/Realtime/BroadcastHub/Tests.antt =====
-- Two viewers of one camera and one of another.
use caps_dash.Prelude.{ℕ, List, [], ◌∷◌, ℕ_key}
use caps_dash.Realtime.BroadcastHub.{BroadcastHub, Subscriber}

abbrev viewer : ℕ → ℕ → List ℕ → Subscriber ℕ
viewer identity camera_id queue = record {
  identity = identity;
  camera_id = camera_id;
  queue = queue;
  dropped = 0;
  sent = 0;
}

abbrev three_viewers : BroadcastHub ℕ
three_viewers = record {
  subscribers = (1, viewer 0 1 (7 ∷ []) ∷ viewer 1 1 [] ∷ []) ∷ (2, viewer 2 2 (9 ∷ []) ∷ []) ∷ [];
  last_messages = (1, (3, 7)) ∷ [];
  next_identity = 3;
}
