-- ===== src/Protocol/Completion/Counts.antt =====
-- What `EvaluateCompletion` reports against what the board holds.
use ago.Prelude.{
  ℕ, ◌+◌, ◌≤◌, ◌≡◌, refl, Bool, true, ◌&&◌, ◌||◌, not, List, [], ◌∷◌, length, all, arith, is_empty,
  if◌then◌else◌,
}
use ago.Protocol.States.{TaskState, state_eq}
use ago.Protocol.Records.{Task}
use ago.Protocol.Completion.{Tally, count_task, tally}

-- A task that nothing remains to be done for: accepted, or withdrawn on the record.
abbrev pub settled : Task → Bool
settled t = state_eq t.state TaskState.passed || (t.cancelled || not (is_empty t.superseded_by))

-- Tasks that count as failed.
abbrev pub stopped : Task → Bool
stopped t = not (settled t) && state_eq t.state TaskState.failed

abbrev pub count : (Task → Bool) → List Task → ℕ
count p [] = 0
count p (t ∷ ts) = (if p t then 1 else 0) + count p ts

pub tally-settled :
    (c : Tally) (ts : List Task) → (tally c ts).settled ≡ c.settled + count settled ts
unfolding tally
tally-settled c [] = omega arith
tally-settled c (t ∷ ts) = ground (arith, tally-settled (count_task c t) ts)

pub tally-failed : (c : Tally) (ts : List Task) → (tally c ts).failed ≡ c.failed + count stopped ts
unfolding tally
tally-failed c [] = omega arith
tally-failed c (t ∷ ts) = ground (arith, tally-failed (count_task c t) ts)

count-settled-le : (ts : List Task) → count settled ts ≤ length ts
count-settled-le [] = omega arith
count-settled-le (t ∷ ts) = ground (arith, count-settled-le ts)

pub all_of_count : (ts : List Task) → count settled ts ≡ length ts → all settled ts ≡ true
unfolding all
all_of_count [] h = refl
all_of_count (t ∷ ts) h = ground (arith, count-settled-le ts, all_of_count ts)

pub count_of_all : (ts : List Task) → all settled ts ≡ true → count settled ts ≡ length ts
unfolding all
count_of_all [] h = refl
count_of_all (t ∷ ts) h = ground (arith, count_of_all ts)

pub stopped_of_all : (ts : List Task) → all settled ts ≡ true → count stopped ts ≡ 0
unfolding all
stopped_of_all [] h = refl
stopped_of_all (t ∷ ts) h = ground (arith, stopped_of_all ts)
