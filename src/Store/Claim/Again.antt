-- ===== src/Store/Claim/Again.antt =====
-- A claim of internal/agoboardstore/claim.go that is made again, and answers that it never gives.
use ago.Prelude.{
  ℕ, ◌≡◌, refl, sym, ap, subst, ◌∙◌, Bool, true, false, Option, some, List, [], ◌∷◌, arith,
  Bool-cases, Option-cases, inl, inr, is_empty, find,
}
use ago.Prelude.Ints.{ℤ}
use ago.Prelude.Outcome.{ok, err, panic, ◌>>=◌, first_step, refuse, require, or_fail}
use ago.GoString.{GoString, str_eq}
use ago.Clock.{Time, is_zero}
use ago.Protocol.Errors.{Checked}
use ago.Protocol.Records.{Board, Task}
use ago.Store.Rows.{Db, Codec, StoreError}
use ago.Store.Receipts.{stored_result}
use ago.Store.Commit.Receipted.{stored-insert}
use ago.Store.Claim.{
  Claimed, acquired_result, positive, claim, claim_again, claim_hash, claim_fresh, claim_task,
  take_task,
}
use ago.Store.Picking.{
  ClaimRequest, ClaimOutcome, ClaimReason, declined, is_acquired, slot_available, eligible_task,
}
use ago.Protocol.Validate.{validate, validate_tasks, check_task}
use ago.Protocol.Validate.Sound.{validate-Valid}
use ago.Store.Boards.{board_query, lift}
use ago.Store.Claim.Decisions.{takeable, eligible_task-first}
use ago.Store.Claim.Steps.{claim-Won, sum_cases, take_task-Taken, claim-Ended, claim_again-replayed}
use ago.Store.Claim.Stages.{again, fresh, Won}

-- The same claim at another time and for another duration.
abbrev pub later_claim : ClaimRequest → Time → ℤ → ClaimRequest
later_claim r now duration = record r { now = now; lease_duration = duration }

Won-stored :
    (k : Codec) (r : ClaimRequest) (d : Db) (c : Claimed) (w : Won k r d c)
    → stored_result r.actor.id r.command_id w.asked.hash c.db
      ≡ ok (some (record { board = w.taken.work.board; events = w.taken.work.events }))
Won-stored k r d c w =
    stored-insert r.actor.id r.command_id w.asked.hash w.taken.work.board.id _ w.taken.synced c.db
      w.taken.receipt

-- A claim that took a task, and whose result is of the board asked for, made again at any nonzero
-- time, for any positive duration and with any new token, takes nothing: it is answered as replayed
-- with the board of the receipt, and the database stays as it is.
pub claim-replayed :
    (k : Codec) (r : ClaimRequest) (minted : Option GoString) (d : Db) {c : Claimed} (now : Time)
    (duration : ℤ) (n : ℕ) (token : Option GoString)
    → claim k r minted d ≡ ok c
    → is_acquired c.result.outcome ≡ true
    → is_zero now ≡ false
    → positive duration ≡ some n
    → str_eq c.result.board.id r.board_id ≡ true
    → claim k (later_claim r now duration) token c.db
      ≡ ok (record {
        db = c.db;
        result = declined ClaimOutcome.replayed c.result.board [] ClaimReason.honoured;
      })
unfolding claim claim_again claim_hash acquired_result
claim-replayed k r minted d {c} now duration n token h a z p s =
    let w = claim-Won k r minted d h a in
    let same : c.result.board ≡ w.taken.work.board = ap (λ x. x.board) w.taken.result in
    let fresh : refuse (is_zero now) StoreError.claim_needs_clock ≡ ok tt = ground arith in
    let lasting : or_fail (positive duration) StoreError.claim_needs_clock ≡ ok n = ground arith in
    let ours : str_eq w.taken.work.board.id r.board_id ≡ true =
      ap (λ b. str_eq b.id r.board_id) (sym same) ∙ s in
    let hashed : claim_hash k (later_claim r now duration) ≡ ok w.asked.hash = w.asked.hashed in
    rw (w.asked.complete, ◌>>=◌)
      (rw (w.asked.coordinated, ◌>>=◌)
        (rw (fresh, ◌>>=◌)
          (rw (lasting, ◌>>=◌)
            (rw (hashed, ◌>>=◌)
              (rw (Won-stored k r d c w, ◌>>=◌) (rw (ours, require, same) refl))))))

abbrev pub is_backed_off : ClaimOutcome → Bool
is_backed_off ClaimOutcome.backed_off = true
is_backed_off _ = false

-- No task of a board that was validated is without an id.
check_task-named : (seen : List Task) (t : Task) → check_task seen t ≡ ok tt → is_empty t.id ≡ false
unfolding check_task
check_task-named seen t h = elim (Bool-cases (is_empty t.id)) [
  | inl e ↦ absurd (ground arith)
  | inr e ↦ e
]

found_task-named :
    (p : Task → Bool) (seen ts : List Task) (t : Task) {kept : List Task}
    → validate_tasks seen ts ≡ ok kept
    → find p ts ≡ some t
    → is_empty t.id ≡ false
unfolding validate_tasks find
found_task-named p seen [] t h f = absurd (ground arith)
found_task-named p seen (u ∷ us) t h f =
    let (x, c, rest) = first_step (check_task seen u) _ h in
    elim (Bool-cases (p u)) [
      | inl e ↦ let named = check_task-named seen u c in ground arith
      | inr e ↦ found_task-named p (u ∷ seen) us t rest (ground arith)
    ]

eligible_task-named :
    (b : Board) (now : Time) (t : Task)
    → validate b ≡ ok tt
    → eligible_task b now ≡ inl t
    → is_empty t.id ≡ false
eligible_task-named b now t v h =
    let e = eligible_task-first b now in
    elim (Option-cases (find (takeable now) b.tasks)) [
      | inl q ↦ absurd (ground arith)
      | inr (u, q) ↦
          found_task-named (takeable now) [] b.tasks t (validate-Valid b v).checked_tasks
            (ground arith)
    ]

module _ (k : Codec) (r : ClaimRequest) (n : ℕ) (minted : Option GoString) (hash : GoString) where
  take_task-acquired :
      (b : Board) (t : Task) (d : Db) {c : Claimed}
      → take_task k r n minted hash b t d ≡ ok c
      → is_backed_off c.result.outcome ≡ false
  unfolding acquired_result
  take_task-acquired b t d h =
      ap (λ z. is_backed_off z.outcome) (take_task-Taken k r n minted hash b t d h).result

  claim_task-decided :
      (b : Board) (t : Task) (d : Db) {c : Claimed}
      → is_empty t.id ≡ false
      → claim_task k r n minted hash b t d ≡ ok c
      → is_backed_off c.result.outcome ≡ false
  unfolding claim_task
  claim_task-decided b t d {c} e h = elim (Option-cases (slot_available b t r.limits d)) [
    | inl q ↦ take_task-acquired b t d {c = c} (ground arith)
    | inr (x, q) ↦ ground arith
  ]

  claim_fresh-decided :
      (b : Board) (d : Db) {c : Claimed}
      → validate b ≡ ok tt
      → claim_fresh k r n minted hash b d ≡ ok c
      → is_backed_off c.result.outcome ≡ false
  unfolding claim_fresh
  claim_fresh-decided b d {c} v h = elim (Bool-cases b.paused) [
    | inl q ↦ ground arith
    | inr q ↦ elim (sum_cases (eligible_task b r.now)) [
      | inl (t, e) ↦
          claim_task-decided b t d {c = c} (eligible_task-named b r.now t v e) (ground arith)
      | inr (x, e) ↦ ground arith
    ]
  ]

pub lift-ok : {A : Type 0} (m : Checked A) {a : A} → lift m ≡ ok a → m ≡ ok a
lift-ok (ok a) h = ground arith
lift-ok (err e) h = cc
lift-ok panic h = cc

pub board_query-validate :
    (id : GoString) (d : Db) {b : Board} → board_query id d ≡ ok b → validate b ≡ ok tt
unfolding board_query
board_query-validate id d {b} h =
    let (r, p, h1) =
      first_step (or_fail (find (λ r. str_eq r.board_id id) d.boards) StoreError.board_not_found) _
        h in
    let (x, q, h2) = first_step (lift (validate r.board)) _ h1 in
    let valid : validate r.board ≡ ok tt = lift-ok (validate r.board) q in
    let same : r.board ≡ b = ground (arith, h2) in subst (λ z. validate z ≡ ok tt) same valid

-- A claim that succeeds never answers that the board is backing off.
pub claim-decided :
    (k : Codec) (r : ClaimRequest) (minted : Option GoString) (d : Db) {c : Claimed}
    → claim k r minted d ≡ ok c
    → is_backed_off c.result.outcome ≡ false
claim-decided k r minted d {c} h =
    let (a, e) = claim-Ended k r minted d h in
    elim e [
      | again s p q ↦ ap (λ z. is_backed_off z.outcome) (claim_again-replayed k r s d q)
      | fresh b p q f ↦
          claim_fresh-decided k r a.duration minted a.hash b d (board_query-validate r.board_id d q)
            f
    ]
