-- ===== src/Realtime/BroadcastHub/Latest.antt =====
-- What publishing does to the queues and the still of realtime/broadcast_hub.py.
use mathlib.Core.Path.{subst}
use caps_dash.Prelude.{
  refl, some, ap, none, ◌+◌, ◌∙◌, ltb, sym, false, ℕ, ◌≡◌, List, [], ◌∷◌, map, All, arith, ℕ_key,
  ◌==◌, if◌then◌else◌, Option-cases, inl, inr, nat_eq_iff,
}
use caps_dash.Prelude.Dict
use caps_dash.Prelude.Dict.{Dict, get-put, get-remove}
use caps_dash.Realtime.BroadcastHub.{
  young, last_message, BroadcastHub, Subscriber, offer, group_of, publish,
}

module _ {M : Type 0} where
  group-publish :
      (hub : BroadcastHub M) (camera_id other now : ℕ) (message : M)
      → group_of (publish hub camera_id message now).0 other ≡ (
          if camera_id == other
          then map (offer message) (group_of hub other)
          else group_of hub other)
  unfolding publish group_of
  group-publish hub camera_id other now message =
      elim (Option-cases (Dict.get camera_id hub.subscribers)) [
        | inl nobody ↦ ground (arith, nat_eq_iff camera_id other)
        | inr (group, found) ↦ ground (
          arith,
          get-put camera_id other (map (offer message) group) hub.subscribers,
          nat_eq_iff camera_id other,
        )
      ]

  queue-offer : (message : M) (s : Subscriber M) → (offer message s).queue ≡ message ∷ []
  unfolding offer
  queue-offer message s = ground arith

  -- every viewer has this message to send, and no other
  abbrev pub AllHold : M → List (Subscriber M) → Type 0
  AllHold message = All (λ s. s.queue ≡ message ∷ [])

  AllHold-offer :
      (message : M) (group : List (Subscriber M)) → AllHold message (map (offer message) group)
  AllHold-offer message [] = tt
  AllHold-offer message (s ∷ group) = (queue-offer message s, AllHold-offer message group)

  -- A published frame replaces whatever a viewer of that camera had not fetched: right afterwards each
  -- of them holds this message and no other. The viewers of every other camera are as they were.
  pub publish-AllHold :
      (hub : BroadcastHub M) (camera_id now : ℕ) (message : M)
      → AllHold message (group_of (publish hub camera_id message now).0 camera_id)
        × ((other : ℕ)
            → (camera_id == other) ≡ false
            → group_of (publish hub camera_id message now).0 other ≡ group_of hub other)
  publish-AllHold hub camera_id now message = (
    subst (AllHold message)
        (sym (
          group-publish hub camera_id camera_id now message
          ∙ ap
              (λ b.
                if b then map (offer message) (group_of hub camera_id) else group_of hub camera_id)
              ((nat_eq_iff camera_id camera_id).1 refl)))
        (AllHold-offer message (group_of hub camera_id)),
    λ other elsewhere.
        group-publish hub camera_id other now message
        ∙ ap (λ b. if b then map (offer message) (group_of hub other) else group_of hub other)
            elsewhere,
  )

  messages-publish :
      (hub : BroadcastHub M) (camera_id now : ℕ) (message : M)
      → (publish hub camera_id message now).0.last_messages
        ≡ Dict.put camera_id (now, message) hub.last_messages
  unfolding publish
  messages-publish hub camera_id now message =
      elim (Option-cases (Dict.get camera_id hub.subscribers)) [
        | inl nobody ↦ ground arith
        | inr (group, found) ↦ ground arith
      ]

  -- A client that connects gets the frame that was published last while it is no older than the bound
  -- and nothing after that, however many viewers there were, and another camera's still is not
  -- touched.
  pub last_message-publish :
      (hub : BroadcastHub M) (camera_id other now max_age later : ℕ) (message : M)
      → last_message (publish hub camera_id message now).0 other max_age later ≡ (
          if camera_id == other
          then (if ltb (now + max_age) later then none else some message)
          else last_message hub other max_age later)
  unfolding last_message young
  last_message-publish hub camera_id other now max_age later message =
      ap (λ (d : Dict ℕ (ℕ × M)). young (Dict.get other d) max_age later)
        (messages-publish hub camera_id now message)
      ∙ ap (λ o. young o max_age later) (get-put camera_id other (now, message) hub.last_messages)
      ∙ ground arith
