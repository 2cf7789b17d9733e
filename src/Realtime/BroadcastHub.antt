-- ===== src/Realtime/BroadcastHub.antt =====
-- realtime/broadcast_hub.py and realtime/subscriber.py: the routing of frames to viewers, each with a
-- queue of one message. A set of subscribers is the list of them in the order they joined (each is
-- its own object, so none occurs twice), told apart by an identity. That a
-- look-up in the `defaultdict` leaves an empty group behind is not recorded: no operation tells an
-- empty group from none. Messages are of any type.
pub mod Latest
mod Tests
use caps_dash.Prelude.{
  ℕ, ◌+◌, Bool, true, false, not, ◌&&◌, Option, none, some, List, [], ◌∷◌, ◌++◌, map, filter,
  length, ltb, nat_eq, ℕ_key, if◌then◌else◌,
}
use caps_dash.Prelude.Dict
use caps_dash.Prelude.Dict.{Dict}

pub record Subscriber (M : Type 0) : Type 0 where
  pub identity : ℕ
  pub camera_id : ℕ
  pub queue : List M
  pub dropped : ℕ
  pub sent : ℕ

pub record BroadcastHub (M : Type 0) : Type 0 where
  pub subscribers : Dict ℕ (List (Subscriber M))
  pub last_messages : Dict ℕ (ℕ × M)
  pub next_identity : ℕ

module _ {M : Type 0} where
  -- `offer`; nothing runs between its calls, so the suppressed exceptions do not occur
  unfoldable pub offer : M → Subscriber M → Subscriber M
  offer message s = elim s.queue [
    | [] ↦ record s { queue = message ∷ [] }
    | _ ∷ _ ↦ record s { queue = message ∷ []; dropped = s.dropped + 1 }
  ]

  -- one round of `_send_forever`: the message that is sent, when there is one
  unfoldable pub send_one : Subscriber M → Subscriber M × Option M
  send_one s = elim s.queue [
    | [] ↦ (s, none)
    | message ∷ rest ↦ (record s { queue = rest; sent = s.sent + 1 }, some message)
  ]

  -- `self._subscribers[camera_id]` of the `defaultdict`
  unfoldable pub group_of : BroadcastHub M → ℕ → List (Subscriber M)
  group_of hub camera_id = elim (Dict.get camera_id hub.subscribers) [
    | none ↦ []
    | some group ↦ group
  ]

  unfoldable pub viewer_count : BroadcastHub M → ℕ → ℕ
  viewer_count hub camera_id = length (group_of hub camera_id)

  unfoldable pub total_viewers : BroadcastHub M → ℕ
  total_viewers hub = Dict.sum_values length hub.subscribers

  unfoldable pub subscribe : BroadcastHub M → ℕ → BroadcastHub M × Subscriber M
  subscribe hub camera_id =
      let subscriber : Subscriber M = record {
        identity = hub.next_identity;
        camera_id = camera_id;
        queue = [];
        dropped = 0;
        sent = 0;
      } in
      (
        record hub {
          subscribers =
              Dict.put camera_id (group_of hub camera_id ++ subscriber ∷ []) hub.subscribers;
          next_identity = hub.next_identity + 1;
        },
        subscriber,
      )

  -- `discard`
  unfoldable pub unsubscribe : BroadcastHub M → Subscriber M → BroadcastHub M
  unsubscribe hub subscriber = record hub {
    subscribers =
        Dict.put subscriber.camera_id
          (filter (λ s. not (nat_eq s.identity subscriber.identity))
            (group_of hub subscriber.camera_id))
          hub.subscribers;
  }

  -- the stamped message, unless it is too old
  unfoldable pub young : Option (ℕ × M) → ℕ → ℕ → Option M
  young none max_age now = none
  young (some (published_at, message)) max_age now =
      if ltb (published_at + max_age) now then none else some message

  unfoldable pub last_message : BroadcastHub M → ℕ → ℕ → ℕ → Option M
  last_message hub camera_id max_age now = young (Dict.get camera_id hub.last_messages) max_age now

  unfoldable pub publish : BroadcastHub M → ℕ → M → ℕ → BroadcastHub M × ℕ
  publish hub camera_id message now =
      let hub' : BroadcastHub M = record hub {
        last_messages = Dict.put camera_id (now, message) hub.last_messages;
      } in
      elim (Dict.get camera_id hub.subscribers) [
        | none ↦ (hub', 0)
        | some group ↦ (
          record hub' {
            subscribers = Dict.put camera_id (map (offer message) group) hub.subscribers;
          },
          length group,
        )
      ]

  unfoldable pub has_viewers : BroadcastHub M → ℕ → Bool
  has_viewers hub camera_id = elim (group_of hub camera_id) [ [] ↦ false | _ ∷ _ ↦ true ]

  unfoldable pub forget : BroadcastHub M → ℕ → BroadcastHub M
  forget hub camera_id = record hub {
    last_messages = Dict.remove camera_id hub.last_messages;
    subscribers = Dict.remove camera_id hub.subscribers;
  }

  unfoldable pub close_all : BroadcastHub M → BroadcastHub M
  close_all hub = record hub { subscribers = []; last_messages = [] }
