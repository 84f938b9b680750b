-- ===== src/Hashmap/Spec.antt =====
-- What hashmap.h promises: a partial function from keys to pointers that holds at most three
-- quarters of the capacity, and the replies of a sequence of calls.
use ably_connectors.Prelude.{
  ℕ, ◌+◌, ◌-◌, ◌*◌, Bool, true, false, Option, none, some, List, [], ◌∷◌, leb, if◌then◌else◌,
}
use mathlib.Core.Logic.{ite}
use native.Mathlib.Decide.{ℕ_discrete}

pub keys_discrete : Discrete (List ℕ)
keys_discrete = hlevel ℕ_discrete

-- A call of the map with a pointer that is not NULL.
pub data Op {ℓ} (V : Type ℓ) : Type ℓ where
  put : List ℕ → V → Op V
  get : List ℕ → Op V
  remove : List ℕ → Op V

pub data Reply {ℓ} (V : Type ℓ) : Type ℓ where
  done : Bool → Reply V
  value : Option V → Reply V

abbrev pub key_of {ℓ} : {V : Type ℓ} → Op V → List ℕ
key_of (put k v) = k
key_of (get k) = k
key_of (remove k) = k

pub record Spec {ℓ} (V : Type ℓ) : Type ℓ where
  pub capacity : ℕ
  pub count : ℕ
  pub lookup : List ℕ → Option V

abbrev pub present {ℓ} : {V : Type ℓ} → Option V → ℕ
present none = 0
present (some v) = 1

abbrev pub is_present {ℓ} : {V : Type ℓ} → Option V → Bool
is_present none = false
is_present (some v) = true

module _ {ℓ} {V : Type ℓ} where
  abbrev pub update : (List ℕ → Option V) → List ℕ → Option V → List ℕ → Option V
  update f k r q = ite (keys_discrete q k) r (f q)

  unfoldable pub step : Spec V → Op V → Spec V × Reply V
  step s (put k v) = if leb (s.capacity * 3) (s.count * 4) then (s, done false) else (
    record s { count = s.count + (1 - present (s.lookup k)); lookup = update s.lookup k (some v) },
    done true,
  )
  step s (get k) = (s, value (s.lookup k))
  step s (remove k) = (
    record s { count = s.count - present (s.lookup k); lookup = update s.lookup k none },
    done (is_present (s.lookup k)),
  )

  unfoldable pub run : Spec V → List (Op V) → List (Reply V)
  run s [] = []
  run s (op ∷ ops) = let (s', r) = step s op in r ∷ run s' ops
