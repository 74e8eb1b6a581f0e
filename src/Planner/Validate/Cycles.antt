-- ===== src/Planner/Validate/Cycles.antt =====
-- The search of `hasCycle` in internal/agoplanner/planner.go.
use ago.Prelude.{
  ℕ, zero, suc, ◌+◌, ◌≡◌, refl, ap, ◌∙◌, Bool, true, false, List, [], ◌∷◌, length, arith,
  Bool-cases, inl, inr, ◌⊎◌, if◌then◌else◌,
}
use ago.Prelude.Outcome.{ok, err, panic, ◌>>=◌, first_step}
use ago.GoString.{GoString}
use ago.Protocol.Errors.{Checked, Error, cycle}
use ago.Protocol.Records.{Dependency}
use ago.Protocol.Acyclic.{
  Marks, marked, unmark, adjacent, universe, visit, visit_each, validate_acyclic,
}
use ago.Protocol.Acyclic.Chains.{Chain}
use ago.Protocol.Acyclic.Search.{validate_acyclic_sound, validate_acyclic_total}
use ago.Planner.Checks.{Checks, seek, seek_each, has_cycle}

bind-err :
    {A B : Type 0} (m : Checked A) (k : A → B) {e : Error}
    → (m >>= λ a. ok (k a)) ≡ err e
    → m ≡ err e
bind-err (ok a) k h = cc
bind-err (err x) k h = ground arith
bind-err panic k h = cc

result_cases :
    {A : Type 0} (m : Checked A)
    → ((a : A) × (m ≡ ok a)) ⊎ (((e : Error) × (m ≡ err e)) ⊎ (m ≡ panic))
result_cases (ok a) = inl (a, refl)
result_cases (err e) = inr (inl (e, refl))
result_cases panic = inr (inr refl)

seek_each-clear :
    (f : GoString → Marks → Checked Marks) (g : GoString → Marks → Checks (Bool × Marks))
    → ((x : GoString) (m n : Marks) → g x m ≡ ok (false, n) → f x m ≡ ok n)
    → (xs : List GoString) (m n : Marks) → seek_each g xs m ≡ ok (false, n)
    → visit_each f xs m ≡ ok n
unfolding seek_each visit_each
seek_each-clear f g k [] m n h = ground arith
seek_each-clear f g k (x ∷ xs) m n h =
    let ((found, m'), p, q) = first_step (g x m) _ h in
    elim (Bool-cases found) [
      | inl e ↦ absurd (ground arith)
      | inr e ↦
          let clear : g x m ≡ ok (false, m') = ground arith in
          let rest : seek_each g xs m' ≡ ok (false, n) = ground arith in
          rw (k x m m' clear, ◌>>=◌) (seek_each-clear f g k xs m' n rest)
    ]

seek-clear :
    (deps : List Dependency) (fuel : ℕ) (id : GoString) (m n : Marks)
    → seek deps fuel id m ≡ ok (false, n)
    → visit deps fuel id m ≡ ok n
unfolding seek visit
seek-clear deps zero id m n h = cc
seek-clear deps (suc fuel) id m n h = elim (Bool-cases (marked m.visiting id)) [
  | inl e ↦ absurd (ground arith)
  | inr e ↦ elim (Bool-cases (marked m.visited id)) [
    | inl v ↦ ground arith
    | inr v ↦
        let start : Marks = record m { visiting = id ∷ m.visiting } in
        let h2 : (seek_each (seek deps fuel) (adjacent deps id) start >>= λ r. ok (
              if r.0 then r else (
                false,
                record { visiting = unmark r.1.visiting id; visited = id ∷ r.1.visited },
              )))
            ≡ ok (false, n) =
          ground arith in
        let ((found, w), p, q) =
          first_step (seek_each (seek deps fuel) (adjacent deps id) start) _ h2 in
        elim (Bool-cases found) [
          | inl f ↦ absurd (ground arith)
          | inr f ↦
              let clear : seek_each (seek deps fuel) (adjacent deps id) start ≡ ok (false, w) =
                ground arith in
              let below =
                seek_each-clear (visit deps fuel) (seek deps fuel) (seek-clear deps fuel)
                  (adjacent deps id) start w clear in
              rw (e) (rw (v) (rw (below, ◌>>=◌) (ground arith)))
        ]
  ]
]

module _ (f : GoString → Marks → Checked Marks) (g : GoString → Marks → Checks (Bool × Marks))
    (clear : (x : GoString) (m n : Marks) → f x m ≡ ok n → g x m ≡ ok (false, n)) where
  visit_each-clear :
      (xs : List GoString) (m n : Marks)
      → visit_each f xs m ≡ ok n
      → seek_each g xs m ≡ ok (false, n)
  unfolding seek_each visit_each
  visit_each-clear [] m n h = ground arith
  visit_each-clear (x ∷ xs) m n h =
      let (m', p, q) = first_step (f x m) _ h in
      rw (clear x m m' p, ◌>>=◌) (visit_each-clear xs m' n q)

module _ (f : GoString → Marks → Checked Marks) (g : GoString → Marks → Checks (Bool × Marks))
    (clear : (x : GoString) (m n : Marks) → f x m ≡ ok n → g x m ≡ ok (false, n))
    (looped : (x : GoString) (m : Marks)
      → f x m ≡ err cycle
      → (n : Marks) × (g x m ≡ ok (true, n))) where
  visit_each-looped :
      (xs : List GoString) (m : Marks)
      → visit_each f xs m ≡ err cycle
      → (n : Marks) × (seek_each g xs m ≡ ok (true, n))
  unfolding seek_each visit_each
  visit_each-looped [] m h = cc
  visit_each-looped (x ∷ xs) m h = elim (result_cases (f x m)) [
    | inl (m', p) ↦
        let rest : visit_each f xs m' ≡ err cycle = ground arith in
        let (n, q) = visit_each-looped xs m' rest in (n, rw (clear x m m' p, ◌>>=◌) q)
    | inr (inl (e, p)) ↦
        let same : f x m ≡ err cycle = ground arith in
        let (n, q) = looped x m same in (n, rw (q, ◌>>=◌) refl)
    | inr (inr p) ↦ absurd (ground arith)
  ]

visit-clear :
    (deps : List Dependency) (fuel : ℕ) (id : GoString) (m n : Marks)
    → visit deps fuel id m ≡ ok n
    → seek deps fuel id m ≡ ok (false, n)
unfolding seek visit
visit-clear deps zero id m n h = cc
visit-clear deps (suc fuel) id m n h = elim (Bool-cases (marked m.visiting id)) [
  | inl e ↦ absurd (ground arith)
  | inr e ↦ elim (Bool-cases (marked m.visited id)) [
    | inl v ↦ ground arith
    | inr v ↦
        let start : Marks = record m { visiting = id ∷ m.visiting } in
        let h2 : (visit_each (visit deps fuel) (adjacent deps id) start >>= λ w.
        ok (record { visiting = unmark w.visiting id; visited = id ∷ w.visited }))
            ≡ ok n =
          ground arith in
        let (w, p, q) = first_step (visit_each (visit deps fuel) (adjacent deps id) start) _ h2 in
        let below =
          visit_each-clear (visit deps fuel) (seek deps fuel) (visit-clear deps fuel)
            (adjacent deps id) start w p in
        rw e (rw v (rw (below, ◌>>=◌) (ground arith)))
  ]
]

visit-looped :
    (deps : List Dependency) (fuel : ℕ) (id : GoString) (m : Marks)
    → visit deps fuel id m ≡ err cycle
    → (n : Marks) × (seek deps fuel id m ≡ ok (true, n))
unfolding seek visit
visit-looped deps zero id m h = cc
visit-looped deps (suc fuel) id m h = elim (Bool-cases (marked m.visiting id)) [
  | inl e ↦ (m, rw e refl)
  | inr e ↦ elim (Bool-cases (marked m.visited id)) [
    | inl v ↦ absurd (ground arith)
    | inr v ↦
        let start : Marks = record m { visiting = id ∷ m.visiting } in
        let below : visit_each (visit deps fuel) (adjacent deps id) start ≡ err cycle =
          bind-err {B = Marks} (visit_each (visit deps fuel) (adjacent deps id) start)
            (λ w. record { visiting = unmark w.visiting id; visited = id ∷ w.visited })
            (ground arith) in
        let (n, q) =
          visit_each-looped (visit deps fuel) (seek deps fuel) (visit-clear deps fuel)
            (visit-looped deps fuel) (adjacent deps id) start below in
        (n, rw e (rw v (rw (q, ◌>>=◌) refl)))
  ]
]

-- Where the search finds no cycle, no task with one of the given ids depends on itself through any
-- chain of dependencies.
pub has_cycle_sound :
    (keys : List GoString) (deps : List Dependency)
    → has_cycle keys deps ≡ ok false
    → (a : GoString) → marked keys a ≡ true
    → ¬ Chain deps a a
unfolding has_cycle validate_acyclic
has_cycle_sound keys deps h =
    let start : Marks = record { visiting = []; visited = [] } in
    let fuel = length (universe keys deps) + 1 in
    let ((found, w), p, q) = first_step (seek_each (seek deps fuel) keys start) _ h in
    let none_found : found ≡ false = ground arith in
    let clear =
      seek_each-clear (visit deps fuel) (seek deps fuel) (seek-clear deps fuel) keys start w
        (p ∙ ap (λ x. ok (x, w)) none_found) in
    validate_acyclic_sound keys deps (rw (clear, ◌>>=◌) refl)

-- The search always ends: the fuel never runs out, and it answers either that there is no cycle, or
-- that there is one, and then a task is found that depends on itself through a chain of dependencies.
pub has_cycle_total :
    (keys : List GoString) (deps : List Dependency)
    → (has_cycle keys deps ≡ ok false)
      ⊎ ((has_cycle keys deps ≡ ok true) × ((a : GoString) × Chain deps a a))
unfolding has_cycle validate_acyclic
has_cycle_total keys deps =
    let start : Marks = record { visiting = []; visited = [] } in
    let fuel = length (universe keys deps) + 1 in
    elim (validate_acyclic_total keys deps) [
      | inl h ↦
          let (w, p, q) = first_step (visit_each (visit deps fuel) keys start) _ h in
          let below =
            visit_each-clear (visit deps fuel) (seek deps fuel) (visit-clear deps fuel) keys start w
              p in
          inl (rw (below, ◌>>=◌) refl)
      | inr (h, chain) ↦
          let (n, q) =
            visit_each-looped (visit deps fuel) (seek deps fuel) (visit-clear deps fuel)
              (visit-looped deps fuel) keys start (bind-err _ _ h) in
          inr (rw (q, ◌>>=◌) refl, chain)
    ]
