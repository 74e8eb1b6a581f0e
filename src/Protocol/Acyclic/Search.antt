-- ===== src/Protocol/Acyclic/Search.antt =====
-- The search of `validateAcyclic` accepts a graph exactly when no chain leads from a key back to it.
use ago.Protocol.Acyclic.Visits.{Kept, Result, search_lem}
use ago.Prelude.{◌≡◌, refl, ap, subst, ◌⊎◌, true, List, [], inl, inr}
use ago.Prelude.Outcome.{ok, err, panic, ◌>>=◌}
use ago.GoString.{GoString}
use ago.Protocol.Errors.{Checked, cycle}
use ago.Protocol.Records.{Dependency}
use ago.Protocol.Acyclic.{Marks, marked, universe, validate_acyclic}
use ago.Protocol.Acyclic.Chains.{Chain, universe-adjacent, universe-key, Topo-acyclic}

abbrev Verdict : List GoString → List Dependency → Checked (Unit {0}) → Type 0
Verdict keys ds (ok u) = (a : GoString) → marked keys a ≡ true → ¬ Chain ds a a
Verdict keys ds (err e) = (e ≡ cycle) × ((a : GoString) × Chain ds a a)
Verdict keys ds panic = ⊥

Verdict-of_Result :
    (keys : List GoString) (ds : List Dependency) (r : Checked Marks)
    → Result ds
        (universe keys ds)
        (universe-adjacent keys ds)
        (λ n.
          Kept ds
            (universe keys ds)
            (universe-adjacent keys ds)
            (record { visiting = []; visited = [] })
            n
          × ((y : GoString) → marked keys y ≡ true → marked n.visited y ≡ true))
        r
    → Verdict keys ds (r >>= λ m. ok tt)
Verdict-of_Result keys ds (ok n) h = λ a k. Topo-acyclic ds n.visited a h.0.sound.topo (h.1 a k)
Verdict-of_Result keys ds (err e) h = h
Verdict-of_Result keys ds panic h = h

verdict : (keys : List GoString) (ds : List Dependency) → Verdict keys ds (validate_acyclic keys ds)
unfolding validate_acyclic
verdict keys ds =
    Verdict-of_Result keys ds _
      (search_lem ds (universe keys ds) (universe-adjacent keys ds) keys (universe-key keys ds))

-- The search always ends: the fuel never runs out, and it answers either with no error, or with the
-- error for a cycle, and then a task is found that depends on itself through a chain of dependencies.
pub validate_acyclic_total :
    (keys : List GoString) (ds : List Dependency)
    → (validate_acyclic keys ds ≡ ok tt)
      ⊎ ((validate_acyclic keys ds ≡ err cycle) × ((a : GoString) × Chain ds a a))
validate_acyclic_total keys ds = answer (validate_acyclic keys ds) (verdict keys ds)
  where
    answer :
        (r : Checked (Unit {0}))
        → Verdict keys ds r
        → (r ≡ ok tt) ⊎ ((r ≡ err cycle) × ((a : GoString) × Chain ds a a))
    answer (ok tt) h = inl refl
    answer (err e) h = inr (ap err h.0, h.1)
    answer panic h = absurd h

-- Where the search answers with no error, no task with one of the given ids depends on itself through
-- any chain of dependencies, in whatever order the ids are visited.
pub validate_acyclic_sound :
    (keys : List GoString) (ds : List Dependency)
    → validate_acyclic keys ds ≡ ok tt
    → (a : GoString) → marked keys a ≡ true
    → ¬ Chain ds a a
validate_acyclic_sound keys ds h = subst (Verdict keys ds) h (verdict keys ds)
