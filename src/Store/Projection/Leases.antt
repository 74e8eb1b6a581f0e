-- ===== src/Store/Projection/Leases.antt =====
-- The row of the newest lease after `syncProjection` of internal/agoboardstore/store.go.
use mathlib.Core.List.{Memᴰ}
use ago.Prelude.{◌≡◌, refl, sym, subst, ◌∙◌, true, ◌⊎◌, inl, inr, List, [], ◌∷◌, ◌++◌, arith}
use ago.Prelude.Outcome.{ok, first_step}
use ago.Protocol.States.{valid_access_mode}
use ago.Protocol.Records.{Board, Lease, Evidence}
use ago.Store.Rows.{Db, LeaseRow}
use ago.Store.Tables.{write_all}
use ago.Store.Tables.Written.{write_all-Lands}
use ago.Store.Projection.{
  clashing_lease, lease_allowed, sync_leases, sync_evidence, sync_projection, write_evidence,
  write_artifacts, sync_tasks, sync_dependencies, sync_attempts,
}
use ago.Store.Mapping.{access_mode_of, lease_row, merge_lease, same_lease}

-- The columns of a row by which slots are counted, for a lease of the board.
pub record Counts (b : Board) (l : Lease) (r : LeaseRow) : Type 0 where
  pub state : r.state ≡ l.state
  pub repository : r.repository_id ≡ b.repository
  pub access_mode : r.access_mode ≡ access_mode_of b.tasks l.task_id
  pub valid : valid_access_mode r.access_mode ≡ true

Lands-Counts :
    (b : Board) (l : Lease) (r : LeaseRow)
    → valid_access_mode (lease_row b l).access_mode ≡ true
    → ((r ≡ lease_row b l) ⊎ ((o : LeaseRow) × (r ≡ merge_lease o (lease_row b l))))
    → Counts b l r
unfolding lease_row
Lands-Counts b l r v (inl e) =
    subst (Counts b l) (sym e)
      (record { state = refl; repository = refl; access_mode = refl; valid = v })
Lands-Counts b l r v (inr (o, e)) =
    subst (Counts b l) (sym e)
      (record { state = refl; repository = refl; access_mode = refl; valid = v })

sync_evidence-leases :
    (b : Board) (es : List Evidence) (d : Db) {e : Db}
    → sync_evidence b es d ≡ ok e
    → e.leases ≡ d.leases
unfolding sync_evidence
sync_evidence-leases b [] d h = ground arith
sync_evidence-leases b (x ∷ es) d h =
    let (rows, p, q) = first_step (write_evidence b x d) _ h in
    let (refs, p1, q1) = first_step (write_artifacts b x d) _ q in
    sync_evidence-leases b es (record d { evidence = rows; artifacts = refs }) q1

-- After the projection of a board, the row of its last lease has the state, the repository and the
-- access mode of the lease.
module _ (b : Board) (before_it : List Lease) (l : Lease) where
  sync_leases-rows :
      (d : Db) {e : Db}
      → b.leases ≡ before_it ++ l ∷ []
      → sync_leases b d ≡ ok e
      → write_all same_lease merge_lease clashing_lease
          (lease_allowed d)
          (lease_row b)
          (before_it ++ l ∷ [])
          d.leases
        ≡ ok e.leases
  unfolding sync_leases
  sync_leases-rows d {e} q h =
      let (rows, p, k) =
        first_step
          (write_all same_lease merge_lease clashing_lease (lease_allowed d) (lease_row b) b.leases
            d.leases)
          _ h in
      subst
        (λ ls.
          write_all same_lease merge_lease clashing_lease (lease_allowed d) (lease_row b) ls
            d.leases
          ≡ ok e.leases)
        q (p ∙ ground arith)

  lease_allowed-valid :
      (d : Db) (r : LeaseRow) → lease_allowed d r ≡ true → valid_access_mode r.access_mode ≡ true
  unfolding lease_allowed
  lease_allowed-valid d r h = ground arith

  sync_leases-last :
      (d : Db) {e : Db}
      → b.leases ≡ before_it ++ l ∷ []
      → sync_leases b d ≡ ok e
      → (r : LeaseRow) × Memᴰ r e.leases × Counts b l r
  sync_leases-last d q h =
      let ((r, m, lands), allowed) =
        write_all-Lands same_lease merge_lease clashing_lease (lease_allowed d) (lease_row b)
          before_it l d.leases (sync_leases-rows d q h) in
      (r, m, Lands-Counts b l r (lease_allowed-valid d (lease_row b l) allowed) lands)

  pub sync_projection-last :
      (d : Db) {e : Db}
      → b.leases ≡ before_it ++ l ∷ []
      → sync_projection b d ≡ ok e
      → (r : LeaseRow) × Memᴰ r e.leases × Counts b l r
  unfolding sync_projection
  sync_projection-last d q h =
      let (d1, p1, h1) = first_step (sync_tasks b d) _ h in
      let (d2, p2, h2) = first_step (sync_dependencies b d1) _ h1 in
      let (d3, p3, h3) = first_step (sync_attempts b d2) _ h2 in
      let (d4, p4, h4) = first_step (sync_leases b d3) _ h3 in
      let (r, m, c) = sync_leases-last d3 q p4 in
      (r, subst (λ rows. Memᴰ r rows) (sym (sync_evidence-leases b b.evidence d4 h4)) m, c)
