-- ===== src/Protocol/Validate/Loops.antt =====
-- What the loops of `Board.Validate` of internal/agoboardprotocol/protocol.go have tested when they
-- end without an error.
use mathlib.Core.List.{Memᴰ}
use ago.Prelude.{
  ℕ, ◌≡◌, ◌⊎◌, inl, inr, true, List, [], ◌∷◌, arith, some, subst, Bool-cases, Option-cases,
  find_index,
}
use ago.Prelude.Outcome.{ok}
use ago.GoString.{GoString, str_eq}
use ago.Protocol.Records.{Board, Task, Dependency, Attempt, Lease, Evidence}
use ago.Prelude.Grows.{All}
use ago.Protocol.Validate.Distinct.{Listed, Fresh}
use ago.Protocol.Validate.{
  check_lease, check_evidence, lookup_attempt, has_task, check_task, validate_tasks,
  check_dependency, validate_dependencies, check_attempt, validate_attempts, validate_leases,
  validate_evidence,
}
use ago.Protocol.Validate.WellFormed.{AttemptFits, LeaseFits, EvidenceFits}

pub validate_tasks-Fresh :
    (seen ts : List Task) {r : List Task}
    → validate_tasks seen ts ≡ ok r
    → Fresh (λ t. t.id) seen ts
unfolding validate_tasks check_task has_task
validate_tasks-Fresh seen [] h = tt
validate_tasks-Fresh seen (t ∷ ts) {r = r} h =
    (ground arith, validate_tasks-Fresh (t ∷ seen) ts {r = r} (ground arith))

-- The map of the tasks holds the tasks of the board.
pub validate_tasks-kept :
    (seen ts : List Task) {r : List Task}
    → validate_tasks seen ts ≡ ok r
    → (t : Task) → Memᴰ t r
    → Memᴰ t seen ⊎ Memᴰ t ts
unfolding validate_tasks
validate_tasks-kept seen [] {r = r} h t m = inl (subst (λ q. Memᴰ t q) (ground arith) m)
validate_tasks-kept seen (u ∷ ts) {r = r} h t m =
    elim (validate_tasks-kept (u ∷ seen) ts {r = r} (ground arith) t m) [
      | inl (Memᴰ.head p) ↦ inr (Memᴰ.head p)
      | inl (Memᴰ.tail n) ↦ inl n
      | inr n ↦ inr (Memᴰ.tail n)
    ]

module _ (tasks : List Task) where
  pub validate_dependencies-Fresh :
      (seen ds : List Dependency)
      → validate_dependencies tasks seen ds ≡ ok tt
      → Fresh (λ d. d.id) seen ds
  unfolding validate_dependencies check_dependency
  validate_dependencies-Fresh seen [] h = tt
  validate_dependencies-Fresh seen (d ∷ ds) h =
      (ground arith, validate_dependencies-Fresh (d ∷ seen) ds (ground arith))

  -- A task that depends on another is a task of the board.
  pub validate_dependencies-tasks :
      (seen ds : List Dependency)
      → validate_dependencies tasks seen ds ≡ ok tt
      → (d : Dependency) → Memᴰ d ds
      → has_task tasks d.task_id ≡ true
  unfolding validate_dependencies check_dependency
  validate_dependencies-tasks seen [] h d m = elim m [ ]
  validate_dependencies-tasks seen (e ∷ ds) h d (Memᴰ.head p) = ground arith
  validate_dependencies-tasks seen (e ∷ ds) h d (Memᴰ.tail m) =
      validate_dependencies-tasks (e ∷ seen) ds (ground arith) d m

  pub validate_attempts-Fresh :
      (next : ℕ) (seen as' : List Attempt) {r : List Attempt}
      → validate_attempts tasks next seen as' ≡ ok r
      → Fresh (λ a. a.id) seen as'
  unfolding validate_attempts check_attempt
  validate_attempts-Fresh next seen [] h = tt
  validate_attempts-Fresh next seen (a ∷ as') {r = r} h =
      (ground arith, validate_attempts-Fresh next (a ∷ seen) as' {r = r} (ground arith))

  pub validate_attempts-kept :
      (next : ℕ) (seen as' : List Attempt) {r : List Attempt}
      → validate_attempts tasks next seen as' ≡ ok r
      → (a : Attempt) → Memᴰ a r
      → Memᴰ a seen ⊎ Memᴰ a as'
  unfolding validate_attempts
  validate_attempts-kept next seen [] {r = r} h a m = inl (subst (λ q. Memᴰ a q) (ground arith) m)
  validate_attempts-kept next seen (d ∷ as') {r = r} h a m =
      elim (validate_attempts-kept next (d ∷ seen) as' {r = r} (ground arith) a m) [
        | inl (Memᴰ.head p) ↦ inr (Memᴰ.head p)
        | inl (Memᴰ.tail n) ↦ inl n
        | inr n ↦ inr (Memᴰ.tail n)
      ]

module _ (b : Board) (tasks : List Task)
    (of_board : (k : GoString) → has_task tasks k ≡ true → Listed (λ t. t.id) b.tasks k) where
  pub validate_attempts-All :
      (seen as' : List Attempt) {r : List Attempt}
      → validate_attempts tasks b.next_generation seen as' ≡ ok r
      → All (AttemptFits b) as'
  unfolding validate_attempts check_attempt
  validate_attempts-All seen [] h = tt
  validate_attempts-All seen (a ∷ as') {r = r} h = (
    record { task = of_board a.task_id (ground arith); generation = ground arith },
    validate_attempts-All (a ∷ seen) as' {r = r} (ground arith),
  )

module _ (attempts : List Attempt) where
  pub validate_leases-Fresh :
      (seen ls : List Lease) → validate_leases attempts seen ls ≡ ok tt → Fresh (λ l. l.id) seen ls
  unfolding validate_leases check_lease
  validate_leases-Fresh seen [] h = tt
  validate_leases-Fresh seen (l ∷ ls) h =
      (ground arith, validate_leases-Fresh (l ∷ seen) ls (ground arith))

  pub validate_evidence-Fresh :
      (seen es : List Evidence)
      → validate_evidence attempts seen es ≡ ok tt
      → Fresh (λ e. e.id) seen es
  unfolding validate_evidence check_evidence
  validate_evidence-Fresh seen [] h = tt
  validate_evidence-Fresh seen (e ∷ es) h =
      (ground arith, validate_evidence-Fresh (e ∷ seen) es (ground arith))

lookup-Memᴰ :
    (as' : List Attempt) (id : GoString) {a : Attempt}
    → lookup_attempt as' id ≡ some a
    → Memᴰ a as' × (a.id ≡ id)
unfolding lookup_attempt find_index
lookup-Memᴰ [] id h = cc
lookup-Memᴰ (x ∷ xs) id {a} h = elim (Bool-cases (str_eq x.id id)) [
  | inl e ↦ (Memᴰ.head (ground arith), ground arith)
  | inr e ↦ let (m, p) = lookup-Memᴰ xs id (ground arith) in (Memᴰ.tail m, p)
]

module _ (b : Board) (attempts : List Attempt)
    (of_board : (a : Attempt) → Memᴰ a attempts → Memᴰ a b.attempts) where
  check_lease-Fits :
      (seen : List Lease) (l : Lease) → check_lease attempts seen l ≡ ok tt → LeaseFits b l
  unfolding check_lease
  check_lease-Fits seen l h = elim (Option-cases (lookup_attempt attempts l.attempt_id)) [
    | inl e ↦ absurd (ground arith)
    | inr (a, e) ↦
        let (m, p) = lookup-Memᴰ attempts l.attempt_id e in
        record {
          attempt = a;
          listed = of_board a m;
          id = p;
          task_id = ground arith;
          worker_id = ground arith;
          generation = ground arith;
          fencing_token = ground arith;
        }
  ]

  pub validate_leases-All :
      (seen ls : List Lease) → validate_leases attempts seen ls ≡ ok tt → All (LeaseFits b) ls
  unfolding validate_leases
  validate_leases-All seen [] h = tt
  validate_leases-All seen (l ∷ ls) h =
      (check_lease-Fits seen l (ground arith), validate_leases-All (l ∷ seen) ls (ground arith))

  check_evidence-Fits :
      (seen : List Evidence) (e : Evidence)
      → check_evidence attempts seen e ≡ ok tt
      → EvidenceFits b e
  unfolding check_evidence
  check_evidence-Fits seen e h = elim (Option-cases (lookup_attempt attempts e.attempt_id)) [
    | inl q ↦ absurd (ground arith)
    | inr (a, q) ↦
        let (m, p) = lookup-Memᴰ attempts e.attempt_id q in
        record {
          attempt = a;
          listed = of_board a m;
          id = p;
          task_id = ground arith;
          worker_id = ground arith;
        }
  ]

  pub validate_evidence-All :
      (seen es : List Evidence)
      → validate_evidence attempts seen es ≡ ok tt
      → All (EvidenceFits b) es
  unfolding validate_evidence
  validate_evidence-All seen [] h = tt
  validate_evidence-All seen (e ∷ es) h = (
    check_evidence-Fits seen e (ground arith),
    validate_evidence-All (e ∷ seen) es (ground arith),
  )
