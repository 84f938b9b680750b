-- ===== src/Realtime/Subscribers.antt =====
-- The subscriber table of ably-c/src/realtime/presence.c: `ably_presence_subscribe`,
-- `ably_presence_unsubscribe` and `notify_subscribers`. The arrays `subs`, `sub_ud` and `sub_tokens`
-- are one list of entries, and a callback with its user data is an element of `C`. A token is a
-- positive `int`.
use ably_connectors.Prelude.{
  ℕ, ◌+◌, ◌-◌, ◌^◌, Option, none, some, List, [], ◌∷◌, replicate, ltb, ◌==◌, if◌then◌else◌,
}

pub record Entry {ℓ} (C : Type ℓ) : Type ℓ where
  pub sub : Option C
  pub token : ℕ

pub record Subscribers {ℓ} (C : Type ℓ) : Type ℓ where
  pub entries : List (Entry C)
  pub sub_count : ℕ
  pub next_token : ℕ

abbrev pub max_presence_subscribers : ℕ
max_presence_subscribers = 16

-- `next_token++; if (next_token <= 0) next_token = 1` on an `int`.
abbrev pub bump : ℕ → ℕ
bump token = if ltb (token + 1) (2 ^ 31) then token + 1 else 1

module _ {ℓ} {C : Type ℓ} where
  abbrev pub free_entry : Entry C
  free_entry = record { sub = none; token = 0 }

  abbrev pub behind : Entry C → Option (List (Entry C)) → Option (List (Entry C))
  behind e none = none
  behind e (some es) = some (e ∷ es)

  -- The loop of `subscribe`: the first entry without a token takes the callback.
  unfoldable pub place : List (Entry C) → C → ℕ → Option (List (Entry C))
  place [] cb token = none
  place (e ∷ es) cb token =
      let later = place es cb token in
      if e.token == 0 then some (record { sub = some cb; token = token } ∷ es) else behind e later

  abbrev pub placed : Subscribers C → Option (List (Entry C)) → Subscribers C × ℕ
  placed s none = (s, 0)
  placed s (some es) = (
    record { entries = es; sub_count = s.sub_count + 1; next_token = bump s.next_token },
    s.next_token,
  )

  -- The result 0 says that no entry is free.
  unfoldable pub subscribe : Subscribers C → C → Subscribers C × ℕ
  subscribe s cb = placed s (place s.entries cb s.next_token)

  -- The loop of `unsubscribe`: the first entry with the token is cleared.
  unfoldable pub release : List (Entry C) → ℕ → Option (List (Entry C))
  release [] token = none
  release (e ∷ es) token =
      let later = release es token in
      if e.token == token then some (free_entry ∷ es) else behind e later

  abbrev pub released : Subscribers C → Option (List (Entry C)) → Subscribers C
  released s none = s
  released s (some es) = record s { entries = es; sub_count = s.sub_count - 1 }

  unfoldable pub unsubscribe : Subscribers C → ℕ → Subscribers C
  unsubscribe s token = if token == 0 then s else released s (release s.entries token)

  abbrev pub call : Option C → List C → List C
  call none rest = rest
  call (some cb) rest = cb ∷ rest

  -- The callbacks that `notify_subscribers` calls, in order.
  unfoldable pub notified : List (Entry C) → List C
  notified [] = []
  notified (e ∷ es) = if ltb 0 e.token then call e.sub (notified es) else notified es

  unfoldable pub start : Subscribers C
  start = record {
    entries = replicate max_presence_subscribers free_entry;
    sub_count = 0;
    next_token = 1;
  }
