-- ===== src/Supervisor/Repair/Lawful.antt =====
-- The repairs keep the queue of decisions and the budget of patches.
use mathlib.Core.List.{append-nil}
use ago.Prelude.{zero, suc, sym, ◌≡◌, refl, true, false, Option, none, some, [], arith}
use ago.Prelude.Ints.{ℤ, pos, negsuc, inc_int, ltb_int}
use ago.Prelude.Outcome.{ok, err, panic}
use ago.Prelude.Effect.{Keeps, starts->>, keeps_choice, update}
use ago.Protocol.Records.{Board, Task}
use ago.Store.Rows.{Db, Tx, StoreError}
use ago.Store.Commit.{Committed}
use ago.Supervisor.{Options, World, Fault}
use ago.Supervisor.Attention.Orderly.{
  Lawful, unchanged, Lawful-preorder, raise_now-Lawful, lawful_rules,
}
use ago.Supervisor.Repair.{
  query, submit, forgive, is_conflict, read_board, repair_scopes, repair_for_gate, retry_after,
  after_patch, issue_repair, patch_and_retry, count_patch, out_of_patches, repair,
}

module _ (max : ℤ) where
  pub query-Lawful :
      {A : Type 0} (wrap : StoreError → Fault) (q : Db → Tx A) → Keeps (Lawful max) (query wrap q)
  unfolding query
  query-Lawful {A} wrap q = record { runs = λ w. kept w (q w.db) }
    where
      kept : (w : World) (r : Tx A) → Lawful max w (ago.Supervisor.Repair.queried wrap w r).0
      kept w (ok a) = unchanged max w w refl refl refl
      kept w (err e) = unchanged max w w refl refl refl
      kept w panic = unchanged max w w refl refl refl

  submit-Lawful : (t : Db → Tx Committed) → Keeps (Lawful max) (submit t)
  unfolding submit
  submit-Lawful t = record { runs = λ w. kept w (t w.db) }
    where
      kept : (w : World) (r : Tx Committed) → Lawful max w (ago.Supervisor.Repair.submitted w r).0
      kept w (ok c) = unchanged max w _ refl refl refl
      kept w (err e) = unchanged max w w refl refl refl
      kept w panic = unchanged max w w refl refl refl

  forgive-Lawful :
      (wrap : StoreError → Fault) (e : Option StoreError) → Keeps (Lawful max) (forgive wrap e)
  unfolding forgive
  forgive-Lawful wrap none = search lawful_rules
  forgive-Lawful wrap (some e) = search lawful_rules

  module _ (o : Options) where
    pub read_board-Lawful : Keeps (Lawful max) (read_board o)
    unfolding read_board
    read_board-Lawful = query-Lawful _ _

    repair_scopes-Lawful : Keeps (Lawful max) (repair_scopes o)
    unfolding repair_scopes
    repair_scopes-Lawful = search (lawful_rules, query-Lawful)

    pub repair_for_gate-Lawful : (b : Board) → Keeps (Lawful max) (repair_for_gate o b)
    unfolding repair_for_gate
    repair_for_gate-Lawful b =
        search (lawful_rules, repair_scopes-Lawful, submit-Lawful, forgive-Lawful)

    retry_after-Lawful : (t : Task) → Keeps (Lawful max) (retry_after o t)
    unfolding retry_after
    retry_after-Lawful t = search (lawful_rules, read_board-Lawful, submit-Lawful, forgive-Lawful)

    after_patch-Lawful : (t : Task) (e : Option StoreError) → Keeps (Lawful max) (after_patch o t e)
    unfolding after_patch
    after_patch-Lawful t none = retry_after-Lawful t
    after_patch-Lawful t (some e) = forgive-Lawful (Fault.repair_patch t.id) (some e)

    issue_repair-Lawful : (t : Task) → Keeps (Lawful max) (issue_repair o t)
    unfolding issue_repair
    issue_repair-Lawful t =
        search (lawful_rules, read_board-Lawful, submit-Lawful, after_patch-Lawful)

    out_of_patches-Lawful : (t : Task) → Keeps (Lawful max) (out_of_patches o t)
    unfolding out_of_patches
    out_of_patches-Lawful t = raise_now-Lawful max o _ _ _ _ _ _

inc-within : (p max : ℤ) → ltb_int p max ≡ true → ltb_int max (inc_int p) ≡ false
inc-within (pos p) (pos m) h = ground arith
inc-within (pos p) (negsuc m) h = cc
inc-within (negsuc zero) (pos m) h = ground arith
inc-within (negsuc (suc p)) (pos m) h = refl
inc-within (negsuc zero) (negsuc m) h = ground arith
inc-within (negsuc (suc p)) (negsuc m) h = ground arith

module _ (o : Options) where
  -- A patch is counted only below the limit.
  pub repair-Lawful : (t : Task) → Keeps (Lawful o.authorize.max_patches) (repair o t)
  unfolding repair patch_and_retry count_patch update
  repair-Lawful t = record {
    runs = λ w.
        keeps_choice (Lawful-preorder _) w (ltb_int w.patches o.authorize.max_patches) _ _
          (λ p.
            (starts->> (Lawful-preorder _) w count_patch (issue_repair o t)
              (record {
                orderly = λ h. record {
                  ascending = h.ascending;
                  told = h.told;
                  within = inc-within w.patches o.authorize.max_patches p;
                };
                more = [];
                said = sym (append-nil w.announced);
                kept = λ id h. h;
              })
              (issue_repair-Lawful _ o t)))
          (λ p. (out_of_patches-Lawful _ o t).runs w);
  }
