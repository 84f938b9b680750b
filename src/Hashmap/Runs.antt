-- ===== src/Hashmap/Runs.antt =====
-- The hash map on concrete keys.
use ably_connectors.Prelude.{
  ℕ, ◌+◌, ◌*◌, ◌^◌, ◌<◌, ◌≡◌, refl, arith, true, false, none, some, List, [], ◌∷◌,
}
use ably_connectors.Base64.{codes}
use ably_connectors.Hashmap.{
  Hashmap, init, home, next, put_probe, put, store, get, get_probe, remove, remove_probe, bury,
  fnv1a, strncmp_eq,
}
use ably_connectors.Hashmap.Valid.{IsValid}
use ably_connectors.Hashmap.Operations.{put-Updates, init-IsValid}
use ably_connectors.Hashmap.Spec
use ably_connectors.Hashmap.Spec.{Op, Reply, done, value}
use ably_connectors.Hashmap.Refine.{step, run, nothing, run-init}
use ably_connectors.Hashmap.Iterate.{collect, live, collect-all}

abbrev one : Hashmap ℕ
one = (put (init (2 ^ 2)) (codes "a") (some 7)).0

one-IsValid : IsValid one
one-IsValid = (put-Updates (init-IsValid 2).0 (codes "a") (omega arith) (some 7) one_room).1.valid
  where
    capacity_4 : (init {V = ℕ} (2 ^ 2)).capacity ≡ 4
    capacity_4 = unfold init in refl

    one_room : (init {V = ℕ} (2 ^ 2)).count * 4 < (init {V = ℕ} (2 ^ 2)).capacity * 3
    one_room = omega (arith, (init-IsValid {V = ℕ} 2).1, capacity_4)

fnv1a_a : fnv1a (codes "a") ≡ 0xE40C292C
unfolding fnv1a
fnv1a_a = refl

abbrev script : List (Op ℕ)
script =
    Op.put (codes "a") 1
    ∷ Op.put (codes "b") 2
    ∷ Op.get (codes "a")
    ∷ Op.remove (codes "a")
    ∷ Op.get (codes "a")
    ∷ Op.put (codes "c") 3
    ∷ Op.put (codes "d") 4
    ∷ Op.put (codes "e") 5
    ∷ []

run-script : run (init 4) script ≡ (
    done true
    ∷ done true
    ∷ value (some 1)
    ∷ done true
    ∷ value none
    ∷ done true
    ∷ done true
    ∷ done false
    ∷ [])
unfolding run step init put put_probe store home next fnv1a strncmp_eq get get_probe remove
    remove_probe bury
run-script = refl

room_4 : (init {V = ℕ} (2 ^ 2)).count * 4 < (init {V = ℕ} (2 ^ 2)).capacity * 3
unfolding init
room_4 = omega arith

run-init_example : run (init (2 ^ 2)) script ≡ Spec.run (nothing (2 ^ 2)) script
run-init_example = run-init 2 script (omega arith)

collect-all_example : collect (one.capacity + 1) one 0 ≡ live one.slots
collect-all_example = collect-all one one-IsValid
