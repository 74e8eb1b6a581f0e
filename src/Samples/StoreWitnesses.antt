-- ===== src/Samples/StoreWitnesses.antt =====
-- The theorems on the store at a concrete database.
use ago.Prelude.{
  arith, ◌≡◌, ◌≢◌, refl, true, false, none, some, [], inl, inr, find, any, if◌then◌else◌, map, ◌∷◌,
}
use ago.Prelude.Ints.{pos}
use ago.Prelude.Outcome.{ok, err}
use ago.GoString.{codes, str_eq}
use ago.Clock.{zero_time, is_zero}
use ago.Protocol.Commands.{Command}
use ago.Store.Rows.{command_conflict, Db, constraint}
use ago.Store.Receipts.{command_request_hash}
use ago.Store.Commit.{apply_command, target_board}
use ago.Store.Commit.Replay.{apply_command-replay, apply_command-conflict}
use ago.Store.Claim.{claim}
use ago.Store.Picking.{declined, ClaimOutcome, ClaimReason, eligible_task}
use ago.Store.Claim.Decisions.{takeable, deferred, eligible_task-first}
use ago.Store.Claim.Slots.{Admitted, claim-Admitted}
use ago.Store.Claim.Again.{later_claim, claim-replayed, is_backed_off, claim-decided}
use ago.Store.Boards.{board_query, append_events}
use ago.Store.Claim.Exclusion.{claim-exclusive}
use ago.Samples.Mall.{
  mall, one_pick, other_pick, other_token, one_picked, one_pick-picked, other_pick-picked,
  one_picked_acquired, other_picked_acquired, seen, one_seen, other_seen, chosen, one_chosen,
  other_chosen,
}
use ago.Store.Queries.{replay}
use ago.Store.Queries.Feed.{append_events-replay}
use ago.Store.Sweep.{mutate_lease}
use ago.Store.Sweep.Again.{reread, mutate_lease-replay}
use ago.Samples.{is_ok, value_or, value_of_ok, start}
use ago.Store.Upgrade.{upgrade_aggregates}
use ago.Store.Upgrade.Authority.{authority, authority_due, upgrade_aggregates-authority}
use ago.Samples.Pilot.{old_store}
use ago.Store.Claim.Credentials.{Issued, claim-Issued}
use ago.Protocol.Records.{Dependency}
use ago.Store.Projection.{sync_dependencies}
use ago.Store.Projection.Edges.{sync_dependencies-clash}
use ago.Samples.Shop.{
  extend, extended, extend-extended, extended_fresh, moment, codec, ready_board, shop, halt, halted,
  halt-halted, pick, token, picked, pick-picked, picked_acquired,
}

apply_command-replay_example :
    apply_command codec (codes "b") halt zero_time none none halted.db
    ≡ ok (record { db = halted.db; result = halted.result; fresh = false })
apply_command-replay_example =
    apply_command-replay codec (codes "b") halt zero_time none none shop halt-halted

-- The same command for another reason.
abbrev other_halt : Command
other_halt = record halt { reason = codes "tea" }

apply_command-conflict_example :
    apply_command codec (codes "b") other_halt zero_time none none halted.db ≡ err command_conflict
unfolding shop codec target_board command_request_hash ago.Store.Commit.with_deadline
apply_command-conflict_example =
    apply_command-conflict codec (codes "b") halt zero_time none none shop
      {hash = codes "commandbclunch"} (codes "b") other_halt zero_time none none (codes "b")
      (codes "commandbctea") halt-halted refl refl refl refl refl refl (λ e. cc)

eligible_task-first_example :
    eligible_task ready_board (moment 0) ≡ elim (find (takeable (moment 0)) ready_board.tasks) [
      | some t ↦ inl t
      | none ↦ inr (
          if any (deferred (moment 0)) ready_board.tasks
          then ClaimReason.all_waiting
          else ClaimReason.no_ready_task)
    ]
eligible_task-first_example = eligible_task-first ready_board (moment 0)

claim-Admitted_example : Admitted pick shop picked
claim-Admitted_example = claim-Admitted codec pick token shop pick-picked picked_acquired

picked_here : str_eq picked.result.board.id pick.board_id ≡ true
unfolding shop claim codec
picked_here = refl

claim-replayed_example :
    claim codec (later_claim pick (moment 60000000000) (pos 1)) none picked.db
    ≡ ok (record {
      db = picked.db;
      result = declined ClaimOutcome.replayed picked.result.board [] ClaimReason.honoured;
    })
unfolding is_zero
claim-replayed_example =
    claim-replayed codec pick token shop (moment 60000000000) (pos 1) 1 none pick-picked
      picked_acquired refl refl picked_here

claim-decided_example : is_backed_off picked.result.outcome ≡ false
claim-decided_example = claim-decided codec pick token shop pick-picked

claim-exclusive_example :
    (seen (codes "c") one_picked.db).repository ≢ (seen (codes "b") mall).repository
unfolding mall board_query
claim-exclusive_example =
    claim-exclusive codec one_pick other_pick token other_token mall (seen (codes "b") mall)
      (seen (codes "c") one_picked.db) (chosen (codes "b") mall) (chosen (codes "c") one_picked.db)
      one_pick-picked one_picked_acquired one_seen one_chosen other_pick-picked
      other_picked_acquired other_seen other_chosen refl

mutate_lease-replay_example :
    mutate_lease codec (reread extend 9 (moment 1)) false (some (pos 5)) extended.db
    ≡ ok (record { db = extended.db; result = extended.result; fresh = false })
mutate_lease-replay_example =
    mutate_lease-replay codec extend false none (some (pos 5)) picked.db 9 (moment 1)
      extend-extended extended_fresh

abbrev fed : Db
fed = value_or shop (append_events halted.result.events shop)

fed_works : is_ok (append_events halted.result.events shop) ≡ true
unfolding shop apply_command codec append_events
fed_works = refl

append_events-replay_example : replay (codes "b") 3 (pos 0) fed ≡ ok halted.result.events
unfolding shop apply_command codec any
append_events-replay_example =
    append_events-replay (codes "b") 3 halted.result.events shop (omega arith, tt) (refl, tt) refl
      (value_of_ok shop _ fed_works)

abbrev upgraded : Db
upgraded = value_or shop (upgrade_aggregates old_store)

upgraded_works : is_ok (upgrade_aggregates old_store) ≡ true
unfolding old_store codec upgrade_aggregates
upgraded_works = refl

upgrade_aggregates-authority_example :
    (map (λ r. authority r.board) upgraded.boards
      ≡ map (λ r. authority_due r.board) old_store.boards)
    × (upgraded.events ≡ old_store.events)
    × (upgraded.commands ≡ old_store.commands)
upgrade_aggregates-authority_example =
    upgrade_aggregates-authority old_store (value_of_ok shop _ upgraded_works)

-- The verdict is spelled out there.
upgraded_verdicts :
    map (λ r. map (λ e. e.verdict) r.board.evidence) upgraded.boards ≡ (codes "accept" ∷ []) ∷ []
unfolding old_store codec upgrade_aggregates
upgraded_verdicts = refl

claim-Issued_example : Issued (seen (codes "b") mall) one_picked
claim-Issued_example =
    claim-Issued codec one_pick token mall (seen (codes "b") mall) one_pick-picked
      one_picked_acquired one_seen

-- The edge that the second board of the samples has, as its first and only dependency.
abbrev edge_now : Dependency
edge_now = record { id = codes "d"; task_id = codes "u"; depends_on = codes "t" }

-- The row of an edge that was there under another id.
abbrev haunted : Db
haunted = record shop {
  dependencies =
      record {
        board_id = codes "b";
        dependency_id = codes "p:u:t";
        task_id = codes "u";
        depends_on = codes "t";
        dependency = edge_now;
      }
      ∷ [];
}

sync_dependencies-clash_example : sync_dependencies start haunted ≡ err constraint
unfolding start any
sync_dependencies-clash_example =
    sync_dependencies-clash start haunted [] edge_now refl refl refl refl
