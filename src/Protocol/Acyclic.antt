-- ===== src/Protocol/Acyclic.antt =====
-- `validateAcyclic` of internal/agoboardprotocol/protocol.go: a depth-first search with the marks
-- `visiting` and `visited`. A Go map from ids to `true` is the list of its keys.
pub mod Marking
pub mod Visits
pub mod Chains
pub mod Search
use ago.Prelude.{ℕ, zero, suc, ◌+◌, Bool, not, List, [], ◌∷◌, length, any, select, if◌then◌else◌}
use ago.Prelude.Outcome.{ok, err, ◌>>=◌}
use ago.GoString.{GoString, str_eq}
use ago.Protocol.Errors.{Checked, cycle, out_of_fuel}
use ago.Protocol.Records.{Dependency}

pub record Marks : Type 0 where
  pub visiting : List GoString
  pub visited : List GoString

-- `m[id]`, for a map with the keys `keys`.
unfoldable pub marked : List GoString → GoString → Bool
unfolding any
marked keys id = any (str_eq id) keys

-- `m[id] = false`.
unfoldable pub unmark : List GoString → GoString → List GoString
unfolding select
unmark keys id = select (λ k. not (str_eq id k)) keys

-- `adjacent[id]`.
unfoldable pub adjacent : List Dependency → GoString → List GoString
adjacent [] id = []
adjacent (d ∷ ds) id =
    let rest = adjacent ds id in if str_eq d.task_id id then d.depends_on ∷ rest else rest

-- `for _, x := range xs { if err := f(x); err != nil { return err } }`.
unfoldable pub visit_each :
    (GoString → Marks → Checked Marks) → List GoString → Marks → Checked Marks
visit_each f [] m = ok m
visit_each f (x ∷ xs) m = f x m >>= λ m'. visit_each f xs m'

-- The closure `visit`. Fuel bounds the depth of the recursion.
unfoldable pub visit : List Dependency → ℕ → GoString → Marks → Checked Marks
unfolding visit_each marked unmark adjacent
visit deps zero id m = err out_of_fuel
visit deps (suc fuel) id m =
    let below =
      visit_each (visit deps fuel) (adjacent deps id) (record m { visiting = id ∷ m.visiting }) in
    if marked m.visiting id
    then err cycle
    else if marked m.visited id
    then ok m
    else (below >>= λ m'.
        ok (record { visiting = unmark m'.visiting id; visited = id ∷ m'.visited }))

-- Every id that the search can meet, once for each place where it is named.
abbrev pub universe : List GoString → List Dependency → List GoString
universe keys [] = keys
universe keys (d ∷ ds) = d.depends_on ∷ universe keys ds

-- Go ranges over the keys of a map in no particular order, so the order is an argument.
unfoldable pub validate_acyclic : List GoString → List Dependency → Checked (Unit {0})
unfolding visit
validate_acyclic keys deps =
    visit_each (visit deps (length (universe keys deps) + 1)) keys
      (record { visiting = []; visited = [] })
    >>= λ m. ok tt
