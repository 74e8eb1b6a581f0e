-- ===== src/Store/Claim/Steps.antt =====
-- The steps of a claim of internal/agoboardstore/claim.go that takes a task.
use ago.Store.Claim.Stages.{again, fresh, Taken, Asked, Ended, Won}
use ago.Prelude.{
  ℕ, ◌≡◌, refl, ap, ◌∙◌, true, false, ◌&&◌, ◌||◌, Option, none, [], arith, Bool-cases, Option-cases,
  ◌⊎◌, inl, inr, is_empty,
}
use ago.Prelude.Outcome.{ok, ◌>>=◌, first_step, require, refuse, or_fail}
use ago.Prelude.Ints.{inc_int}
use ago.GoString.{GoString, codes}
use ago.Clock.{is_zero}
use ago.Protocol.States.{ActorRole, role_eq}
use ago.Protocol.Records.{Board, Task}
use ago.Machine.Work.{Work}
use ago.Machine.Apply.{apply}
use ago.Store.Rows.{Db, Codec, Stored, StoreError}
use ago.Store.Receipts.{stored_result, insert_result}
use ago.Store.Boards.{lift, board_query, update_board, append_events}
use ago.Store.Projection.{sync_projection}
use ago.Store.Claim.{
  Claimed, derived_claim_id, acquired_result, positive, claim_spec, claim_command, take_task,
  claim_task, claim_fresh, claim_again, claim_hash, claim,
}
use ago.Store.Picking.{
  declined, ClaimRequest, ClaimOutcome, ClaimReason, is_acquired, eligible_task, backing_off,
  slot_available,
}

-- The receipt is written last.
take_task_ends :
    (r : ClaimRequest) (hash : GoString) (t : Task) (w : Work)
    (attempt_id lease_id token : GoString) (d : Db) {c : Claimed}
    → (insert_result r.actor.id r.command_id hash w.board.id
          (record { board = w.board; events = w.events })
          d
        >>= λ e. ok (record { db = e; result = acquired_result w t attempt_id lease_id token }))
      ≡ ok c
    → (insert_result r.actor.id r.command_id hash w.board.id
          (record { board = w.board; events = w.events })
          d
        ≡ ok c.db)
      × (c.result ≡ acquired_result w t attempt_id lease_id token)
take_task_ends r hash t w attempt_id lease_id token d h =
    let (e, p, q) =
      first_step
        (insert_result r.actor.id r.command_id hash w.board.id
          (record { board = w.board; events = w.events }) d)
        _ h in
    (ground arith, ground arith)

pub sum_cases :
    (s : Task ⊎ ClaimReason) → ((t : Task) × (s ≡ inl t)) ⊎ ((x : ClaimReason) × (s ≡ inr x))
sum_cases (inl t) = inl (t, refl)
sum_cases (inr x) = inr (x, refl)

module _ (k : Codec) (r : ClaimRequest) where
  pub take_task-Taken :
      (n : ℕ) (minted : Option GoString) (hash : GoString) (b : Board) (t : Task) (d : Db)
      {c : Claimed}
      → take_task k r n minted hash b t d ≡ ok c
      → Taken r n hash b t d c
  unfolding take_task
  take_task-Taken n minted hash b t d h =
      let (token, p0, h0) = first_step (or_fail minted StoreError.no_randomness) _ h in
      let (attempt_id, p1, h1) =
        first_step
          (derived_claim_id k (codes "attempt") b.id t.id t.user_retries (inc_int t.attempt_count))
          _ h0 in
      let (lease_id, p2, h2) =
        first_step
          (derived_claim_id k (codes "lease") b.id t.id t.user_retries (inc_int t.attempt_count)) _
          h1 in
      let (w, p3, h3) =
        first_step (lift (apply b (claim_command r b (claim_spec r t attempt_id lease_id token n))))
          _ h2 in
      let (d1, p4, h4) = first_step (update_board w.board d) _ h3 in
      let (d2, p5, h5) = first_step (append_events w.events d1) _ h4 in
      let (d3, p6, h6) = first_step (sync_projection w.board d2) _ h5 in
      let ends = take_task_ends r hash t w attempt_id lease_id token d3 h6 in
      record {
        token = token;
        attempt_id = attempt_id;
        lease_id = lease_id;
        work = w;
        updated = d1;
        appended = d2;
        synced = d3;
        applied = p3;
        updating = p4;
        appending = p5;
        syncing = p6;
        receipt = ends.0;
        result = ends.1;
      }

  claim_task_taken :
      (n : ℕ) (minted : Option GoString) (hash : GoString) (b : Board) (t : Task) (d : Db)
      {c : Claimed}
      → claim_task k r n minted hash b t d ≡ ok c
      → is_acquired c.result.outcome ≡ true
      → (slot_available b t r.limits d ≡ none) × (take_task k r n minted hash b t d ≡ ok c)
  unfolding claim_task
  claim_task_taken n minted hash b t d h a =
      elim (Bool-cases (backing_off b r.now && is_empty t.id)) [
        | inl q ↦ absurd (ground arith)
        | inr q ↦ elim (Option-cases (slot_available b t r.limits d)) [
          | inl e ↦ (e, ground arith)
          | inr (x, e) ↦ absurd (ground arith)
        ]
      ]

  claim_fresh_taken :
      (n : ℕ) (minted : Option GoString) (hash : GoString) (b : Board) (d : Db) {c : Claimed}
      → claim_fresh k r n minted hash b d ≡ ok c
      → is_acquired c.result.outcome ≡ true
      → (b.paused ≡ false)
        × ((t : Task) × (eligible_task b r.now ≡ inl t)
            × (claim_task k r n minted hash b t d ≡ ok c))
  unfolding claim_fresh
  claim_fresh_taken n minted hash b d h a = elim (Bool-cases b.paused) [
    | inl q ↦ absurd (ground arith)
    | inr q ↦ elim (sum_cases (eligible_task b r.now)) [
      | inl (t, e) ↦ (q, (t, e, ground arith))
      | inr (x, e) ↦ absurd (ground arith)
    ]
  ]

  pub claim-Ended :
      (minted : Option GoString) (d : Db) {c : Claimed}
      → claim k r minted d ≡ ok c
      → (a : Asked k r) × Ended k r minted d c a
  unfolding claim
  claim-Ended minted d {c} h =
      let (u0, p0, h0) =
        first_step
          (refuse (is_empty r.board_id || is_empty r.command_id || is_empty r.worker_id)
            StoreError.claim_incomplete)
          _ h in
      let (u1, p1, h1) =
        first_step
          (require (role_eq r.actor.role ActorRole.coordinator) StoreError.claim_needs_coordinator)
          _ h0 in
      let (u2, p2, h2) = first_step (refuse (is_zero r.now) StoreError.claim_needs_clock) _ h1 in
      let (n, p3, h3) =
        first_step (or_fail (positive r.lease_duration) StoreError.claim_needs_clock) _ h2 in
      let (hash, p4, h4) = first_step (claim_hash k r) _ h3 in
      let (found, p5, h5) = first_step (stored_result r.actor.id r.command_id hash d) _ h4 in
      let a : Asked k r = record {
        duration = n;
        hash = hash;
        complete = p0;
        coordinated = p1;
        lasting = ground arith;
        hashed = p4;
      } in
      elim (Option-cases found) [
        | inr (s, e) ↦ (a, again s (p5 ∙ ap ok e) (ground arith))
        | inl e ↦
            let h6 : (board_query r.board_id d >>= λ b. claim_fresh k r n minted hash b d) ≡ ok c =
              ground arith in
            let (b, p6, h7) = first_step (board_query r.board_id d) _ h6 in
            (a, fresh b (p5 ∙ ap ok e) p6 h7)
      ]

  pub claim_again-replayed :
      (s : Stored) (d : Db) {c : Claimed}
      → claim_again k r s d ≡ ok c
      → c.result ≡ declined ClaimOutcome.replayed s.board [] ClaimReason.honoured
  unfolding claim_again
  claim_again-replayed s d h = ground arith

  Ended-Won :
      (minted : Option GoString) (d : Db) {c : Claimed} (a : Asked k r)
      → Ended k r minted d c a
      → is_acquired c.result.outcome ≡ true
      → Won k r d c
  Ended-Won minted d a (again s p h) q =
      let e = ap (λ z. is_acquired z.outcome) (claim_again-replayed s d h) in absurd (ground arith)
  Ended-Won minted d a (fresh b first read h) q =
      let (running, (t, eligible, h8)) = claim_fresh_taken a.duration minted a.hash b d h q in
      let (slot, h9) = claim_task_taken a.duration minted a.hash b t d h8 q in
      record {
        asked = a;
        board = b;
        task = t;
        first = first;
        read = read;
        running = running;
        eligible = eligible;
        slot = slot;
        taken = take_task-Taken a.duration minted a.hash b t d h9;
      }

  pub claim-Won :
      (minted : Option GoString) (d : Db) {c : Claimed}
      → claim k r minted d ≡ ok c
      → is_acquired c.result.outcome ≡ true
      → Won k r d c
  claim-Won minted d h q = let (a, e) = claim-Ended minted d h in Ended-Won minted d a e q
