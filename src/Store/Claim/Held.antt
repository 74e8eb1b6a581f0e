-- ===== src/Store/Claim/Held.antt =====
-- The row of the lease that internal/agoboardstore/claim.go makes counts for its task.
use mathlib.Core.List.{Memᴰ}
use ago.Prelude.{
  ℕ, ◌≡◌, ◌≢◌, refl, sym, ap, subst, ◌∙◌, Bool, true, false, some, List, [], ◌∷◌, arith, Bool-cases,
  inl, inr, find, any, length, select, is_empty,
}
use ago.Prelude.Grows.{Grows}
use ago.Prelude.Outcome.{ok}
use ago.Prelude.Updates.{find_index-test}
use ago.GoString.{GoString, str_eq}
use ago.Protocol.States.{is_active, valid_access_mode, CommandType}
use ago.Protocol.Records.{Board, Task}
use ago.Protocol.Validate.{validate}
use ago.Protocol.Validate.Distinct.{Distinct, Listed}
use ago.Store.Rows.{Db, LeaseRow}
use ago.Store.Projection.{sync_projection}
use ago.Store.Mapping.{access_mode_of}
use ago.Protocol.Commands.{Command, LeaseSpec}
use ago.Machine.Work.{Work, find_task}
use ago.Machine.Apply.{apply}
use ago.Machine.Apply.Valid.{apply-IsWellFormed}
use ago.Machine.History.{SameTask}
use ago.Machine.History.Handlers.{apply-Keeps}
use ago.Machine.Leases.{new_lease}
use ago.Machine.Leases.Claims.{lease_acquire_writes, lease_acquire-repository}
use ago.Store.Projection.Leases.{sync_projection-last}

pub find-Mem : {A : Type 0} (p : A → Bool) (xs : List A) (x : A) → find p xs ≡ some x → Memᴰ x xs
unfolding find
find-Mem p [] x h = cc
find-Mem p (y ∷ ys) x h = elim (Bool-cases (p y)) [
  | inl e ↦ Memᴰ.head (ground arith)
  | inr e ↦ Memᴰ.tail (find-Mem p ys x (ground arith))
]

Grows-Mem :
    {A : Type 0} (R : A → A → Type 0) (xs ys : List A) (x : A)
    → Grows R xs ys
    → Memᴰ x xs
    → (y : A) × Memᴰ y ys × R x y
Grows-Mem R [] ys x g m = elim m [ ]
Grows-Mem R (z ∷ xs) [] x g m = absurd g
Grows-Mem R (z ∷ xs) (y ∷ ys) x g (Memᴰ.head e) =
    (y, Memᴰ.head refl, subst (λ v. R v y) (sym e) g.0)
Grows-Mem R (z ∷ xs) (y ∷ ys) x g (Memᴰ.tail m) =
    let (w, n, r) = Grows-Mem R xs ys x g.1 m in (w, Memᴰ.tail n, r)

-- A row that passes the test is counted.
pub counted :
    (test : LeaseRow → Bool) (rows : List LeaseRow) (r : LeaseRow)
    → Memᴰ r rows
    → test r ≡ true
    → length (select test rows) ≢ 0
unfolding select
counted test [] r m t = elim m [ ]
counted test (q ∷ rows) r (Memᴰ.head e) t = ground arith
counted test (q ∷ rows) r (Memᴰ.tail m) t =
    let rest = counted test rows r m t in
    elim (Bool-cases (test q)) [ inl p ↦ ground arith | inr p ↦ ground arith ]

unlisted :
    (ts : List Task) (id : GoString)
    → ¬ Listed (λ t. t.id) ts id
    → any (λ u. str_eq u.id id) ts ≡ false
unfolding any
unlisted [] id h = refl
unlisted (t ∷ ts) id h = elim (Bool-cases (str_eq t.id id)) [
  | inl e ↦ absurd (h (t, Memᴰ.head refl, ground arith))
  | inr e ↦ let rest = unlisted ts id (λ (u, m, p). h (u, Memᴰ.tail m, p)) in ground arith
]

-- Where ids are distinct, the map of access modes holds the mode of the task.
access_mode_of-listed :
    (ts : List Task) (t : Task) (id : GoString)
    → Distinct (λ u. u.id) ts
    → Memᴰ t ts
    → t.id ≡ id
    → access_mode_of ts id ≡ t.access_mode
unfolding access_mode_of any
access_mode_of-listed [] t id d m p = elim m [ ]
access_mode_of-listed (u ∷ ts) t id d (Memᴰ.head e) p =
    let absent : any (λ v. str_eq v.id id) ts ≡ false =
      unlisted ts id (subst (λ k. ¬ Listed (λ v. v.id) ts k) (ap (λ v. v.id) (sym e) ∙ p) d.0) in
    ground arith
access_mode_of-listed (u ∷ ts) t id d (Memᴰ.tail m) p =
    let rest = access_mode_of-listed ts t id d.1 m p in
    elim (Bool-cases (str_eq u.id id)) [
      | inl e ↦ absurd (d.0 (t, m, ground arith))
      | inr e ↦ ground arith
    ]

found-named :
    (b : Board) (id : GoString) {i : ℕ} {t : Task} → find_task b id ≡ some (i, t) → t.id ≡ id
unfolding find_task
found-named b id h = let e = find_index-test (λ t. str_eq t.id id) b.tasks h in ground arith

validate-initialized : (b : Board) → validate b ≡ ok tt → is_empty b.id ≡ false
unfolding validate
validate-initialized b h = ground arith

-- A row of the database that counts for a task of the board: its lease is active.
pub record Holds (b : Board) (t : Task) (d : Db) : Type 0 where
  pub row : LeaseRow
  pub listed : Memᴰ row d.leases
  pub active : is_active row.state ≡ true
  pub repository : row.repository_id ≡ b.repository
  pub mode : row.access_mode ≡ t.access_mode
  pub valid : valid_access_mode row.access_mode ≡ true

-- The lease that a claim asks for keeps the board's repository and finds the task's access mode.
module _ (b : Board) (c : Command) (s : LeaseSpec) {w : Work} (t : Task)
    (acquire : c.type ≡ CommandType.lease_acquire) (lease : c.lease ≡ some s)
    (applied : apply b c ≡ ok w) (valid : validate b ≡ ok tt) where
  mode_kept : Memᴰ t b.tasks → access_mode_of w.board.tasks t.id ≡ t.access_mode
  mode_kept m =
      let kept = apply-Keeps b c (validate-initialized b valid) applied in
      let (u, n, same) = Grows-Mem SameTask b.tasks w.board.tasks t kept.tasks m in
      access_mode_of-listed w.board.tasks u t.id (apply-IsWellFormed b c applied).task_ids n same.id
      ∙ same.access_mode

  -- The row of the lease after the projection.
  pub row_of_lease :
      (d : Db) {e : Db}
      → Memᴰ t b.tasks
      → s.task_id ≡ t.id
      → sync_projection w.board d ≡ ok e
      → Holds b t e
  unfolding new_lease
  row_of_lease d m q h =
      let a = lease_acquire_writes b c s acquire lease applied in
      let l = new_lease s a.task b.next_generation in
      let (r, n, counts) = sync_projection-last w.board b.leases l d a.leases h in
      let named : a.task.id ≡ t.id = found-named b s.task_id a.found ∙ q in
      record {
        row = r;
        listed = n;
        active = ap is_active counts.state;
        repository = counts.repository ∙ lease_acquire-repository b c s acquire lease applied;
        mode = counts.access_mode ∙ ap (access_mode_of w.board.tasks) named ∙ mode_kept m;
        valid = counts.valid;
      }
