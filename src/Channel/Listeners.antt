-- ===== src/Channel/Listeners.antt =====
-- The subscriber array of ably-c/src/realtime/channel.c: `ably_channel_subscribe`,
-- `ably_channel_unsubscribe`, and the loop that calls the subscribers.
-- A slot whose token is 0 is `none`. A callback with its user data is an element of `C`; what a call
-- of it does to the subscriber array of the channel is the parameter `react`.
use ably_connectors.Prelude.{
  ℕ, zero, suc, ◌+◌, Bool, true, false, Option, none, some, List, [], ◌∷◌, get_or, take, replicate,
  ◌==◌, if◌then◌else◌,
}
use ably_connectors.Realtime.Subscribers.{bump}
use ably_connectors.Types.{AblyError, success, invalid_arg, Message}

abbrev pub max_subscribers_per_channel : ℕ
max_subscribers_per_channel = 32

-- `ably_subscriber_t`.
pub record Listener {ℓ} (C : Type ℓ) : Type ℓ where
  pub token : ℕ
  pub cb : C
  pub name_filter : List ℕ

pub record Listeners {ℓ} (C : Type ℓ) : Type ℓ where
  pub slots : List (Option (Listener C))
  pub next_token : ℕ

-- `strcmp(a, b) == 0`.
unfoldable pub strcmp_eq : List ℕ → List ℕ → Bool
strcmp_eq [] [] = true
strcmp_eq [] (y ∷ b) = false
strcmp_eq (x ∷ a) [] = false
strcmp_eq (x ∷ a) (y ∷ b) = let rest = strcmp_eq a b in if x == y then rest else false

-- The name filter: `sub->name_filter[0] != '\0'`, then `!name || strcmp(name, filter) != 0`.
abbrev pub passes : List ℕ → Option (List ℕ) → Bool
passes [] name = true
passes (c ∷ filter) none = false
passes (c ∷ filter) (some name) = strcmp_eq name (c ∷ filter)

module _ {ℓ} {C : Type ℓ} where
  abbrev pub keep_slot :
      Option (Listener C)
      → Option (List (Option (Listener C)))
      → Option (List (Option (Listener C)))
  keep_slot s none = none
  keep_slot s (some slots) = some (s ∷ slots)

  -- The first free slot takes the subscriber.
  unfoldable pub occupy :
      List (Option (Listener C)) → Listener C → Option (List (Option (Listener C)))
  occupy [] sub = none
  occupy (none ∷ slots) sub = some (some sub ∷ slots)
  occupy (some s ∷ slots) sub = keep_slot (some s) (occupy slots sub)

  -- `none` is the result ABLY_ERR_CAPACITY.
  abbrev pub subscribed : Listeners C → Option (List (Option (Listener C))) → Listeners C × Option ℕ
  subscribed t none = (t, none)
  subscribed t (some slots) =
      (record { slots = slots; next_token = bump t.next_token }, some t.next_token)

  unfoldable pub channel_subscribe : Listeners C → List ℕ → C → Listeners C × Option ℕ
  channel_subscribe t name_filter cb = subscribed t (
      occupy t.slots (record { token = t.next_token; cb = cb; name_filter = take 255 name_filter }))

  unfoldable pub vacate : List (Option (Listener C)) → ℕ → Option (List (Option (Listener C)))
  vacate [] token = none
  vacate (none ∷ slots) token = keep_slot none (vacate slots token)
  vacate (some s ∷ slots) token =
      let later = keep_slot (some s) (vacate slots token) in
      if s.token == token then some (none ∷ slots) else later

  abbrev pub unsubscribed :
      Listeners C → Option (List (Option (Listener C))) → Listeners C × AblyError
  unsubscribed t none = (t, invalid_arg)
  unsubscribed t (some slots) = (record t { slots = slots }, success)

  unfoldable pub channel_unsubscribe : Listeners C → ℕ → Listeners C × AblyError
  channel_unsubscribe t token =
      if token == 0 then (t, invalid_arg) else unsubscribed t (vacate t.slots token)

  unfoldable pub no_listeners : Listeners C
  no_listeners = record { slots = replicate max_subscribers_per_channel none; next_token = 1 }

  -- `channel->subscribers[i].token == token`, where the token is not 0.
  abbrev pub holds_token : Option (Listener C) → ℕ → Bool
  holds_token none token = false
  holds_token (some s) token = s.token == token

  -- "Dispatch to subscribers" at index `i` with `n` slots left: the callbacks called, in order, and the
  -- table after them. A callback that changes its own slot ends the loop.
  unfoldable pub dispatch_from :
      (react : C → Message → Listeners C → Listeners C)
      → ℕ
      → ℕ
      → Message
      → Listeners C
      → List C × Listeners C
  dispatch_from react zero i msg t = ([], t)
  dispatch_from react (suc n) i msg t =
      let onward = dispatch_from react n (i + 1) msg t in
      elim (get_or t.slots i none) [
        | none ↦ onward
        | some s ↦
            let t' = react s.cb msg t in
            let rest = dispatch_from react n (i + 1) msg t' in
            if passes s.name_filter msg.name
            then if holds_token (get_or t'.slots i none) s.token
              then (s.cb ∷ rest.0, rest.1)
              else (s.cb ∷ [], t')
            else onward
      ]

  unfoldable pub dispatch :
      (react : C → Message → Listeners C → Listeners C)
      → Message
      → Listeners C
      → List C × Listeners C
  dispatch react msg t = dispatch_from react max_subscribers_per_channel 0 msg t
