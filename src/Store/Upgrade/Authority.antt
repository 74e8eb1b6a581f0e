-- ===== src/Store/Upgrade/Authority.antt =====
-- What the upgrade of internal/agoboardstore/store.go leaves as it was.
use ago.Prelude.{
  ℕ, ◌≡◌, refl, sym, ap, ◌∙◌, not, ◌&&◌, List, [], ◌∷◌, map, find, arith, Bool-cases, Option-cases,
  inl, inr, is_empty, if◌then◌else◌,
}
use ago.Prelude.Ints.{pos, eq_int, ltb_int}
use ago.Prelude.Outcome.{ok, first_step, same_value, Ensures, Ensures->>=, ok_of_Ensures}
use ago.GoString.{GoString, codes, str_eq}
use ago.Clock.{is_zero}
use ago.Protocol.States.{LeaseState, EvidenceState}
use ago.Protocol.Records.{Board, Attempt, Lease, Evidence, TestRecord}
use ago.Protocol.Validate.{validate}
use ago.Store.Rows.{Db, BoardRow, LeaseRow}
use ago.Store.Boards.{lift}
use ago.Store.Projection.{
  sync_projection, sync_tasks, sync_dependencies, sync_attempts, sync_leases, sync_evidence,
  write_evidence, write_artifacts,
}
use ago.Store.Commit.Frames.{Shelved, Shelved-refl, sync_projection-Shelved}
use ago.Store.Upgrade.{
  number_attempts, upgrade_lease, upgrade_evidence, upgrade_board, implied_verdict, upgrade_boards,
  project_boards, upgrade_aggregates,
}

-- What lets an executor act on an attempt.
pub record Credential : Type 0 where
  pub id : GoString
  pub generation : ℕ
  pub fencing_token : GoString

abbrev pub of_attempt : Attempt → Credential
of_attempt a = record { id = a.id; generation = a.generation; fencing_token = a.fencing_token }

abbrev pub of_lease : Lease → Credential
of_lease l = record { id = l.id; generation = l.generation; fencing_token = l.fencing_token }

-- The decision on a piece of evidence, and the checks that it rests on.
pub record Ruling : Type 0 where
  pub state : EvidenceState
  pub verdict : GoString
  pub reason : GoString
  pub checks : List TestRecord

abbrev pub ruling : Evidence → Ruling
ruling e = record {
  state = e.state;
  verdict = e.verdict;
  reason = e.verdict_reason;
  checks = e.result.tests;
}

-- A verdict that was never written down, read off the state.
abbrev pub spelled_out : EvidenceState → GoString → GoString
spelled_out state (c ∷ cs) = c ∷ cs
spelled_out EvidenceState.accepted [] = codes "accept"
spelled_out EvidenceState.rejected [] = codes "reject"
spelled_out _ [] = []

abbrev pub ruling_due : Evidence → Ruling
ruling_due e = record (ruling e) { verdict = spelled_out e.state e.verdict }

-- The credentials of a board, the states of its leases and the decisions on its evidence.
pub record Authority : Type 0 where
  pub attempts : List Credential
  pub leases : List Credential
  pub states : List LeaseState
  pub decisions : List Ruling

abbrev pub authority_by : (Evidence → Ruling) → Board → Authority
authority_by decision b = record {
  attempts = map of_attempt b.attempts;
  leases = map of_lease b.leases;
  states = map (λ l. l.state) b.leases;
  decisions = map decision b.evidence;
}

abbrev pub authority : Board → Authority
authority = authority_by ruling

-- The same, with every verdict spelled out.
abbrev pub authority_due : Board → Authority
authority_due = authority_by ruling_due

map-same :
    {A B : Type 0} (g h : A → B) (f : A → A)
    → ((x : A) → g (f x) ≡ h x)
    → (xs : List A) → map g (map f xs) ≡ map h xs
map-same g h f k [] = refl
map-same g h f k (x ∷ xs) =
    ap (λ y. y ∷ map g (map f xs)) (k x) ∙ ap (λ ys. h x ∷ ys) (map-same g h f k xs)

number_attempts-kept :
    (seen as' : List Attempt) → map of_attempt (number_attempts seen as') ≡ map of_attempt as'
unfolding number_attempts
number_attempts-kept seen [] = refl
number_attempts-kept seen (a ∷ as') =
    let rest = number_attempts-kept (a ∷ seen) as' in
    elim (Bool-cases (eq_int a.number (pos 0))) [
      | inl e ↦ rw e (ap (λ ys. of_attempt a ∷ ys) rest)
      | inr e ↦ rw e (ap (λ ys. of_attempt a ∷ ys) rest)
    ]

upgrade_lease-kept :
    (id : GoString) (rows : List LeaseRow) (l : Lease)
    → (of_lease (upgrade_lease id rows l) ≡ of_lease l)
      × ((upgrade_lease id rows l).state ≡ l.state)
unfolding upgrade_lease
upgrade_lease-kept id rows l = elim (Bool-cases (not (is_zero l.expires_at))) [
  | inl e ↦ rw e (refl, refl)
  | inr e ↦ elim (Option-cases (find (λ r. str_eq r.board_id id && str_eq r.lease_id l.id) rows)) [
    | inl n ↦ rw e (rw n (refl, refl))
    | inr (r, s) ↦ elim (Bool-cases (ltb_int (pos 0) r.expires_at)) [
      | inl p ↦ rw e (rw s (rw p (refl, refl)))
      | inr p ↦ rw e (rw s (rw p (refl, refl)))
    ]
  ]
]

spelled_out-eq :
    (state : EvidenceState) (verdict : GoString)
    → (if is_empty verdict then implied_verdict state else verdict) ≡ spelled_out state verdict
spelled_out-eq state (c ∷ cs) = refl
spelled_out-eq EvidenceState.accepted [] = refl
spelled_out-eq EvidenceState.rejected [] = refl
spelled_out-eq state [] = ground arith

upgrade_evidence-ruling : (e : Evidence) → ruling (upgrade_evidence e) ≡ ruling_due e
unfolding upgrade_evidence
upgrade_evidence-ruling e =
    let verdict = spelled_out-eq e.state e.verdict in
    elim (Bool-cases (is_empty e.result.summary)) [
      | inl p ↦ rw (p, verdict) refl
      | inr p ↦ rw (p, verdict) refl
    ]

upgrade_board-authority :
    (id : GoString) (rows : List LeaseRow) (b : Board)
    → authority (upgrade_board id rows b) ≡ authority_due b
unfolding upgrade_board
upgrade_board-authority id rows b =
    let attempts = number_attempts-kept [] b.attempts in
    let leases =
      map-same of_lease of_lease (upgrade_lease id rows) (λ l. (upgrade_lease-kept id rows l).0)
        b.leases in
    let states =
      map-same (λ l. l.state) (λ l. l.state) (upgrade_lease id rows)
        (λ l. (upgrade_lease-kept id rows l).1) b.leases in
    let decisions =
      map-same ruling ruling_due upgrade_evidence upgrade_evidence-ruling b.evidence in
    cc

upgrade_boards-authority :
    (leases : List LeaseRow) (rows : List BoardRow) {after : List BoardRow}
    → upgrade_boards leases rows ≡ ok after
    → map (λ r. authority r.board) after ≡ map (λ r. authority_due r.board) rows
unfolding upgrade_boards
upgrade_boards-authority leases [] h = ground arith
upgrade_boards-authority leases (r ∷ rs) h =
    let b = upgrade_board r.board_id leases r.board in
    let (u, p, q) = first_step (lift (validate b)) _ h in
    let (rest, p1, q1) = first_step (upgrade_boards leases rs) _ q in
    let e = same_value _ refl q1 in
    ap (map (λ r. authority r.board)) (sym e)
    ∙ ap (λ x. x ∷ map (λ r. authority r.board) rest)
        (upgrade_board-authority r.board_id leases r.board)
    ∙ ap (λ xs. authority_due r.board ∷ xs) (upgrade_boards-authority leases rs p1)

sync_evidence-events :
    (b : Board) (es : List Evidence) (d : Db) {e : Db}
    → sync_evidence b es d ≡ ok e
    → e.events ≡ d.events
unfolding sync_evidence
sync_evidence-events b [] d h = ground arith
sync_evidence-events b (x ∷ es) d h =
    let (rows, p, q) = first_step (write_evidence b x d) _ h in
    let (refs, p1, q1) = first_step (write_artifacts b x d) _ q in
    sync_evidence-events b es (record d { evidence = rows; artifacts = refs }) q1

abbrev SameEvents : Db → Db → Type 0
SameEvents d e = e.events ≡ d.events

sync_tables-events :
    (b : Board) (d e : Db)
    → SameEvents d e
    → Ensures (SameEvents d) (sync_tasks b e)
      × Ensures (SameEvents d) (sync_dependencies b e)
      × Ensures (SameEvents d) (sync_attempts b e)
      × Ensures (SameEvents d) (sync_leases b e)
unfolding sync_tasks sync_dependencies sync_attempts sync_leases
sync_tables-events b d e h = (
  search (Ensures->>=, h) depth 10,
  search (Ensures->>=, h) depth 10,
  search (Ensures->>=, h) depth 10,
  search (Ensures->>=, h) depth 10,
)

sync_projection-events :
    (b : Board) (d : Db) {e : Db} → sync_projection b d ≡ ok e → e.events ≡ d.events
unfolding sync_projection
sync_projection-events b d h =
    let (d1, p1, h1) = first_step (sync_tasks b d) _ h in
    let (d2, p2, h2) = first_step (sync_dependencies b d1) _ h1 in
    let (d3, p3, h3) = first_step (sync_attempts b d2) _ h2 in
    let (d4, p4, h4) = first_step (sync_leases b d3) _ h3 in
    let e1 = ok_of_Ensures (SameEvents d) _ (sync_tables-events b d d refl).0 p1 in
    let e2 = ok_of_Ensures (SameEvents d) _ (sync_tables-events b d d1 e1).1 p2 in
    let e3 = ok_of_Ensures (SameEvents d) _ (sync_tables-events b d d2 e2).2 p3 in
    let e4 = ok_of_Ensures (SameEvents d) _ (sync_tables-events b d d3 e3).3 p4 in
    sync_evidence-events b b.evidence d4 h4 ∙ e4

-- The boards, the receipts and the events.
record Recorded (d e : Db) : Type 0 where
  shelved : Shelved d e
  events : e.events ≡ d.events

project_boards-Recorded :
    (rows : List BoardRow) (d e : Db) {f : Db}
    → Recorded d e
    → project_boards rows e ≡ ok f
    → Recorded d f
unfolding project_boards
project_boards-Recorded [] d e r h = ground arith
project_boards-Recorded (x ∷ xs) d e r h =
    let (next, p, q) = first_step (sync_projection x.board e) _ h in
    project_boards-Recorded xs d next
      (record {
        shelved = sync_projection-Shelved d x.board r.shelved p;
        events = sync_projection-events x.board e p ∙ r.events;
      })
      q

-- An upgrade that succeeds gives no authority and takes none: attempts and leases keep their ids,
-- generations and tokens, leases their states, and events and receipts stay as they are. Evidence
-- keeps its state, the verdict it has, the verdict's reason and the recorded tests; where there is no
-- verdict, accepted evidence gets `accept`, rejected evidence `reject`, and other evidence none.
pub upgrade_aggregates-authority :
    (d : Db) {e : Db}
    → upgrade_aggregates d ≡ ok e
    → (map (λ r. authority r.board) e.boards ≡ map (λ r. authority_due r.board) d.boards)
      × (e.events ≡ d.events)
      × (e.commands ≡ d.commands)
unfolding upgrade_aggregates
upgrade_aggregates-authority d h =
    let (rows, p, q) = first_step (upgrade_boards d.leases d.boards) _ h in
    let start : Db = record d { boards = rows } in
    let r =
      project_boards-Recorded rows start start
        (record { shelved = Shelved-refl start; events = refl }) q in
    (
      ap (map (λ x. authority x.board)) r.shelved.boards
          ∙ upgrade_boards-authority d.leases d.boards p,
      r.events,
      r.shelved.commands,
    )
