-- ===== src/Store/Sweep/Again.antt =====
-- A lease command of internal/agoboardstore/store.go that is made again.
use ago.Prelude.{
  ℕ, ◌≡◌, refl, subst, Bool, true, false, ◌&&◌, ◌||◌, not, ◌==◌, Option, none, some, arith,
  Bool-cases, Option-cases, inl, inr, is_empty,
}
use ago.Prelude.Ints.{ℤ}
use ago.Prelude.Outcome.{ok, ◌>>=◌, first_step, refuse, same_value}
use ago.GoString.{GoString}
use ago.Clock.{Time}
use ago.Protocol.States.{ActorRole, role_eq}
use ago.Protocol.Records.{Board}
use ago.Machine.Apply.{apply}
use ago.Store.Rows.{Db, Codec, Stored, StoreError}
use ago.Store.Receipts.{stored_result, insert_result}
use ago.Store.Boards.{lift, board_query, update_board, append_events}
use ago.Store.Projection.{sync_projection}
use ago.Store.Commit.{Committed}
use ago.Store.Commit.Receipted.{stored-insert}
use ago.Store.Sweep.{lease_hash, mutate_now, mutate_board, mutate_lease}
use ago.Store.Deadlines.{LeaseCommand, lease_command, still_due}

module _ (k : Codec) (c : LeaseCommand) (expire : Bool) where
  mutate_now-stored :
      (hash : GoString) (b : Board) (d : Db) {a : Committed}
      → mutate_now k c expire hash b d ≡ ok a
      → stored_result c.actor.id c.id hash a.db ≡ ok (some a.result)
  unfolding mutate_now
  mutate_now-stored hash b d {a} h =
      let (w, p0, h0) = first_step (lift (apply b (lease_command c expire b))) _ h in
      let (d1, p1, h1) = first_step (update_board w.board d) _ h0 in
      let (d2, p2, h2) = first_step (append_events w.events d1) _ h1 in
      let (d3, p3, h3) = first_step (sync_projection w.board d2) _ h2 in
      let r : Stored = record { board = w.board; events = w.events } in
      let (d4, p4, h4) = first_step (insert_result c.actor.id c.id hash w.board.id r d3) _ h3 in
      subst (λ z. stored_result c.actor.id c.id hash z.db ≡ ok (some z.result))
        (same_value _ refl h4) (stored-insert c.actor.id c.id hash w.board.id r d3 d4 p4)

  mutate_board-stored :
      (expected : Option ℤ) (hash : GoString) (b : Board) (d : Db) {a : Committed}
      → mutate_board k c expire expected hash b d ≡ ok a
      → a.fresh ≡ true
      → stored_result c.actor.id c.id hash a.db ≡ ok (some a.result)
  unfolding mutate_board
  mutate_board-stored none hash b d {a} h f = mutate_now-stored hash b d {a = a} (ground arith)
  mutate_board-stored (some expiry) hash b d {a} h f =
      elim (Bool-cases
        (still_due c.board_id c.lease_id expiry d && b.version == c.expected_version)) [
          | inl e ↦ mutate_now-stored hash b d {a = a} (ground arith)
          | inr e ↦ absurd (ground arith)
        ]

-- The same command, as another process would write it: at another version, with another time to retry.
abbrev pub reread : LeaseCommand → ℕ → Time → LeaseCommand
reread c version at = record c { expected_version = version; next_eligible_at = at }

-- After a lease command has been carried out, the same command, at whatever version and with whatever
-- time to retry, from a sweep or not, gets its result, not as a fresh one, and changes nothing.
pub mutate_lease-replay :
    (k : Codec) (c : LeaseCommand) (expire : Bool) (expected expected' : Option ℤ) (d : Db)
    {a : Committed} (version : ℕ) (at : Time)
    → mutate_lease k c expire expected d ≡ ok a
    → a.fresh ≡ true
    → mutate_lease k (reread c version at) expire expected' a.db
      ≡ ok (record { db = a.db; result = a.result; fresh = false })
unfolding mutate_lease lease_hash
mutate_lease-replay k c expire expected expected' d {a} version at h f =
    let (u, p, h0) =
      first_step
        (refuse
          (is_empty c.id
            || is_empty c.board_id
            || is_empty c.lease_id
            || is_empty c.actor.id
            || not (role_eq c.actor.role ActorRole.coordinator))
          StoreError.lease_command_invalid)
        _ h in
    let (found, q, h1) =
      first_step (stored_result c.actor.id c.id (lease_hash k c expire) d) _ h0 in
    elim (Option-cases found) [
      | inr (s, e) ↦ absurd (ground arith)
      | inl e ↦
          let h2 : (board_query c.board_id d >>= λ b.
          mutate_board k c expire expected (lease_hash k c expire) b d)
              ≡ ok a =
            ground arith in
          let (b, q2, h3) = first_step (board_query c.board_id d) _ h2 in
          let stored = mutate_board-stored k c expire expected (lease_hash k c expire) b d h3 f in
          rw (p, ◌>>=◌) (rw (stored, ◌>>=◌) refl)
    ]
