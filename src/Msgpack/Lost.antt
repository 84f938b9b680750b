-- ===== src/Msgpack/Lost.antt =====
-- What an error of the tree costs in ably-c/src/realtime/protocol_msgpack.c.
use ably_connectors.Prelude.{
  ℕ, ◌≡◌, refl, ap, ◌∙◌, Bool, true, false, inl, inr, Bool-cases, Option, none, some, List, [], ◌∷◌,
  map,
}
use ably_connectors.Base64.{codes}
use ably_connectors.Types.{ProtoMessage}
use ably_connectors.Json.Tree.{Json, object, Fields, find_field}
use ably_connectors.Msgpack.Nodes.{
  Reader, M, ◌>>=◌, lookup, pure, node_int64, pool_str, node_int, node_map,
}
use ably_connectors.Msgpack.Decode.{
  read_metrics, read_occupancy, read_extras, read_message, read_all,
}

-- A message of which nothing was read.
abbrev pub no_message : ProtoMessage
no_message = record {
  id = none;
  client_id = none;
  name = none;
  msg_data = none;
  encoding = none;
  timestamp = 0;
  delta_format = none;
  has_occupancy = false;
}

abbrev pub spent : ℕ → Reader
spent used = record { used = used; broken = true }

read_message-spent : (m : Json) (used : ℕ) → read_message m (spent used) ≡ (no_message, spent used)
unfolding read_message ◌>>=◌ pool_str node_int64 node_map lookup
read_message-spent m used = refl

read_all-spent :
    (js : List Json) (used : ℕ)
    → (read_all read_message js (spent used)).0 ≡ map (λ j. no_message) js
unfolding read_all ◌>>=◌
read_all-spent [] used = refl
read_all-spent (j ∷ js) used =
    rw (read_message-spent j used) (ap (λ more. no_message ∷ more) (read_all-spent js used))

-- An action that leaves the tree in the error state, whatever its state before.
record Breaks {A : Type 0} (m : M A) : Type 0 where
  breaks : (r : Reader) → (m r).1.broken ≡ true

>>=-Breaks : {A B : Type 0} (m : M A) (f : A → M B) → ((a : A) → Breaks (f a)) → Breaks (m >>= f)
unfolding ◌>>=◌
>>=-Breaks m f each = record { breaks = λ r. (each (m r).0).breaks (m r).1 }

pure_after-Breaks :
    {A B : Type 0} (m : M A) (g : A → B) → Breaks m → Breaks (m >>= (λ a. pure (g a)))
unfolding ◌>>=◌
pure_after-Breaks m g b = record { breaks = λ r. b.breaks r }

node_map-found :
    (fields inner : Fields) (key : List ℕ) (used : ℕ)
    → find_field key fields ≡ some (object inner)
    → node_map (object fields) key (record { used = used; broken = false })
      ≡ (some (object inner), record { used = used; broken = false })
unfolding ◌>>=◌ node_map lookup
node_map-found fields inner key used found = rw found refl

-- A map that is found, and what is done with it; in the error state nothing is found.
node_map-Breaks :
    {A : Type 0} (fields inner : Fields) (key : List ℕ) (f : Option Json → M A)
    → find_field key fields ≡ some (object inner)
    → ((used : ℕ) → (f none (spent used)).1.broken ≡ true)
    → Breaks (f (some (object inner)))
    → Breaks (node_map (object fields) key >>= f)
unfolding ◌>>=◌ node_map lookup
node_map-Breaks fields inner key f found stays b = record {
  breaks = λ r. elim (Bool-cases r.broken) [
    | inl e ↦ rw e (stays r.used)
    | inr e ↦ rw e (
        ap (λ s. (f s.0 s.1).1.broken) (node_map-found fields inner key r.used found)
        ∙ b.breaks (record { used = r.used; broken = false }))
  ];
}

none_stays :
    {A B : Type 0} (a : A) (g : A → B) (used : ℕ)
    → ((pure a >>= (λ x. pure (g x))) (spent used)).1.broken ≡ true
unfolding ◌>>=◌
none_stays a g used = refl

-- Reading the metrics of an occupancy message without a count of connections.
read_metrics-Breaks :
    (metrics : Fields)
    → find_field (codes "connections") metrics ≡ none
    → Breaks (read_metrics (some (object metrics)))
unfolding ◌>>=◌ node_int lookup
read_metrics-Breaks metrics missing = record {
  breaks = λ r. elim (Bool-cases r.broken) [ inl e ↦ rw e refl | inr e ↦ rw (e, missing) refl ];
}

read_all-broken :
    (m : Json) (js : List Json) (r : Reader)
    → (read_message m r).1.broken ≡ true
    → (read_all read_message (m ∷ js) r).0 ≡ (read_message m r).0 ∷ map (λ j. no_message) js
unfolding read_all ◌>>=◌
read_all-broken m js r broken =
    let after = (read_message m r).1 in
    let state : after ≡ spent after.used =
      ap (λ (b : Bool). record { used = after.used; broken = b }) broken in
    ap (λ more. (read_message m r).0 ∷ more)
      (ap (λ s. (read_all read_message js s).0) state ∙ read_all-spent js after.used)

module _ (fields extras occupancy metrics : Fields)
    (has_extras : find_field (codes "extras") fields ≡ some (object extras))
    (has_occupancy : find_field (codes "occupancy") extras ≡ some (object occupancy))
    (has_metrics : find_field (codes "metrics") occupancy ≡ some (object metrics))
    (missing : find_field (codes "connections") metrics ≡ none) where
  read_occupancy-Breaks : Breaks (read_occupancy (some (object occupancy)))
  read_occupancy-Breaks =
      node_map-Breaks occupancy metrics (codes "metrics") read_metrics has_metrics (λ used. refl)
        (read_metrics-Breaks metrics missing)

  read_extras-Breaks : Breaks (read_extras (some (object extras)))
  read_extras-Breaks = >>=-Breaks _ _ (λ delta_node. >>=-Breaks _ _ (λ format.
      node_map-Breaks extras occupancy (codes "occupancy") _ has_occupancy (none_stays false _)
        (pure_after-Breaks _ _ read_occupancy-Breaks)))

  read_message-Breaks : Breaks (read_message (object fields))
  unfolding read_message
  read_message-Breaks = >>=-Breaks _ _ (λ id. >>=-Breaks _ _ (λ client_id.
      >>=-Breaks _ _ (λ connection_id. >>=-Breaks _ _ (λ name. >>=-Breaks _ _ (λ msg_data.
        >>=-Breaks _ _ (λ encoding. >>=-Breaks _ _ (λ timestamp.
          node_map-Breaks fields extras (codes "extras") _ has_extras (none_stays (none, false) _)
            (pure_after-Breaks _ _ read_extras-Breaks))))))))

  -- A message whose extras have occupancy metrics without a count of connections: every message behind
  -- it in the frame is read as one with no id, name, data or client id.
  pub read_all-lost :
      (js : List Json) (r : Reader)
      → (read_all read_message (object fields ∷ js) r).0
        ≡ (read_message (object fields) r).0 ∷ map (λ j. no_message) js
  read_all-lost js r = read_all-broken (object fields) js r (read_message-Breaks.breaks r)
