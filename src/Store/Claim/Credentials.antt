-- ===== src/Store/Claim/Credentials.antt =====
-- The credentials that a claim of internal/agoboardstore/claim.go hands out.
use ago.Prelude.{
  ◌≡◌, refl, sym, ap, subst, ◌∙◌, true, false, Option, List, [], ◌∷◌, ◌++◌, any, arith,
}
use ago.Prelude.Ints.{inc_u64}
use ago.Prelude.Outcome.{ok, same_value}
use ago.GoString.{GoString, str_eq}
use ago.Protocol.Records.{Board, Attempt, Lease}
use ago.Protocol.Commands.{LeaseSpec}
use ago.Machine.Leases.{new_attempt, new_lease}
use ago.Machine.Leases.Claims.{clashes_attempt, lease_acquire_writes, lease_acquire_fresh}
use ago.Store.Rows.{Db, Codec}
use ago.Store.Boards.{board_query}
use ago.Store.Claim.{Claimed, claim, claim_spec, claim_command, acquired_result, generation_of}
use ago.Store.Picking.{ClaimRequest, is_acquired}
use ago.Store.Claim.Again.{lift-ok}
use ago.Store.Claim.Steps.{claim-Won}
use ago.Store.Claim.Stages.{Won}

-- The attempt behind attempts of other ids is found.
generation_of-last :
    (s : LeaseSpec) (as' : List Attempt) (a : Attempt)
    → any (clashes_attempt s) as' ≡ false
    → a.id ≡ s.attempt_id
    → generation_of (as' ++ a ∷ []) s.attempt_id ≡ a.generation
unfolding generation_of any
generation_of-last s [] a h e = ground arith
generation_of-last s (x ∷ xs) a h e =
    let rest = generation_of-last s xs a (ground arith) e in ground arith

-- The attempt and the lease that a claim has added to a board, under one generation and token.
pub record Issued (b : Board) (c : Claimed) : Type 0 where
  pub attempt : Attempt
  pub lease : Lease
  pub attempts : c.result.board.attempts ≡ b.attempts ++ attempt ∷ []
  pub leases : c.result.board.leases ≡ b.leases ++ lease ∷ []
  pub attempt_named : attempt.id ≡ c.result.attempt_id
  pub lease_named : lease.id ≡ c.result.lease_id
  pub generation : c.result.generation ≡ b.next_generation
  pub attempt_generation : attempt.generation ≡ c.result.generation
  pub lease_generation : lease.generation ≡ c.result.generation
  pub attempt_token : attempt.fencing_token ≡ c.result.fencing_token
  pub lease_token : lease.fencing_token ≡ c.result.fencing_token
  pub next : c.result.board.next_generation ≡ inc_u64 b.next_generation
  pub unused : any (λ a. str_eq a.fencing_token c.result.fencing_token) b.attempts ≡ false

tokens_unused :
    (s : LeaseSpec) (as' : List Attempt)
    → any (clashes_attempt s) as' ≡ false
    → any (λ a. str_eq a.fencing_token s.fencing_token) as' ≡ false
unfolding any
tokens_unused s [] h = refl
tokens_unused s (x ∷ xs) h = let rest = tokens_unused s xs (ground arith) in ground arith

Won-Issued :
    (k : Codec) (r : ClaimRequest) (d : Db) (c : Claimed) (w : Won k r d c) → Issued w.board c
unfolding claim_spec claim_command acquired_result new_attempt new_lease
Won-Issued k r d c w =
    let t = w.taken in
    let s = claim_spec r w.task t.attempt_id t.lease_id t.token w.asked.duration in
    let applied = lift-ok _ t.applied in
    let cmd = claim_command r w.board s in
    let added = lease_acquire_writes w.board cmd s refl refl applied in
    let fresh = (lease_acquire_fresh w.board cmd s refl refl applied).0 in
    let a = new_attempt s added.task w.board.next_generation in
    let l = new_lease s added.task w.board.next_generation in
    let found : generation_of t.work.board.attempts t.attempt_id ≡ w.board.next_generation =
      ap (λ xs. generation_of xs t.attempt_id) added.attempts
      ∙ generation_of-last s w.board.attempts a fresh refl in
    let result = t.result in
    let generation : c.result.generation ≡ w.board.next_generation =
      ap (λ z. z.generation) result ∙ found in
    let token : c.result.fencing_token ≡ t.token = ap (λ z. z.fencing_token) result in
    record {
      attempt = a;
      lease = l;
      attempts = ap (λ z. z.board.attempts) result ∙ added.attempts;
      leases = ap (λ z. z.board.leases) result ∙ added.leases;
      attempt_named = sym (ap (λ z. z.attempt_id) result);
      lease_named = sym (ap (λ z. z.lease_id) result);
      generation = generation;
      attempt_generation = sym generation;
      lease_generation = sym generation;
      attempt_token = sym token;
      lease_token = sym token;
      next = ap (λ z. z.board.next_generation) result ∙ added.next_generation;
      unused =
          subst (λ x. any (λ a. str_eq a.fencing_token x) w.board.attempts ≡ false) (sym token)
            (tokens_unused s w.board.attempts fresh);
    }

-- A claim that took a task adds one attempt and one lease to the board that it read, behind the others,
-- and reports their ids, the generation and the token that both have: the generation is the one that
-- the board had reserved, the board reserves the next one, and no earlier attempt has the token.
pub claim-Issued :
    (k : Codec) (r : ClaimRequest) (minted : Option GoString) (d : Db) {c : Claimed} (b : Board)
    → claim k r minted d ≡ ok c
    → is_acquired c.result.outcome ≡ true
    → board_query r.board_id d ≡ ok b
    → Issued b c
claim-Issued k r minted d {c} b h a read =
    let w = claim-Won k r minted d h a in
    subst (λ z. Issued z c) (same_value _ w.read read) (Won-Issued k r d c w)
