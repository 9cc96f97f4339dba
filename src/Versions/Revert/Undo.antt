-- ===== src/Versions/Revert/Undo.antt =====
-- A revert as the inverse changes of the logged records, for any engine.
use database_management_syst.Prelude.{
  ℕ, ◌≡◌, refl, sym, ap, ◌∙◌, List, [], ◌∷◌, ◌++◌, true, false, some, All,
}
use database_management_syst.Prelude.Int.{ℤ}
use database_management_syst.Status.{Result, ok, err}
use database_management_syst.Binary.{Bytes}
use database_management_syst.Serialization.Rows.{Tuple}
use database_management_syst.Versions.{VersionOp, insert, update, delete, unknown, VersionRecord}
use database_management_syst.Versions.Revert.{
  EngineOps, then_do, is_after, collect_rollback_records, reversed, apply_inverse,
  apply_inverse_record, apply_inverse_records, load_records, revert_table_to_timestamp,
}
use database_management_syst.Versions.Revert.Views.{
  View, Changes, History, start, change, RowChange, removes, restores, replaces, change_views,
  inverse, inverses, inverses-undo,
}

then_done : {S : Type 0} (c : Result (Unit {0}) × S) → then_do c (λ _ s. (ok tt, s)) ≡ c
then_done (ok a, s) = refl
then_done (err code, s) = refl

module _ {S : Type 0} (engine : EngineOps S) (db_name table_name : Bytes) where
  -- The engine's operation, without a record in the log.
  abbrev pub change_row : RowChange → S → Result (Unit {0}) × S
  change_row (removes rid) s = engine.delete_internal db_name table_name rid false s
  change_row (restores rid t) s = engine.restore_internal db_name table_name rid t false s
  change_row (replaces rid t) s = engine.update_internal db_name table_name rid t false s

  -- The changes in their order, up to the first that fails.
  unfoldable pub change_each : List RowChange → S → Result (Unit {0}) × S
  change_each [] s = (ok tt, s)
  change_each (c ∷ cs) s = then_do (change_row c s) (λ _ s. change_each cs s)

  change_each-append :
      (cs ds : List RowChange) (s : S)
      → change_each (cs ++ ds) s ≡ then_do (change_each cs s) (λ _ s. change_each ds s)
  unfolding change_each
  change_each-append [] ds s = refl
  change_each-append (c ∷ cs) ds s = go (change_row c s) (change_each-append cs ds)
    where
      go :
          (o : Result (Unit {0}) × S)
          → ((s : S)
              → change_each (cs ++ ds) s ≡ then_do (change_each cs s) (λ _ s. change_each ds s))
          → then_do o (λ _ s. change_each (cs ++ ds) s)
            ≡ then_do (then_do o (λ _ s. change_each cs s)) (λ _ s. change_each ds s)
      go (ok a, s) rest = rest s
      go (err code, s) rest = refl

  undo : List VersionRecord → S → Result (Unit {0}) × S
  undo = apply_inverse_records engine db_name table_name

  undo-append :
      (xs : List VersionRecord) (r : VersionRecord) (s : S)
      → undo (xs ++ (r ∷ [])) s
        ≡ then_do (undo xs s) (λ _ s. apply_inverse_record engine db_name table_name r s)
  unfolding undo apply_inverse_records
  undo-append [] r s = then_done (apply_inverse_record engine db_name table_name r s)
  undo-append (x ∷ xs) r s =
      go (apply_inverse_record engine db_name table_name x s) (undo-append xs r)
    where
      go :
          (c : Result (Unit {0}) × S)
          → ((s : S)
              → undo (xs ++ (r ∷ [])) s
                ≡ then_do (undo xs s) (λ _ s. apply_inverse_record engine db_name table_name r s))
          → then_do c (λ _ s. undo (xs ++ (r ∷ [])) s)
            ≡ then_do
                (then_do c (λ _ s. undo xs s))
                (λ _ s. apply_inverse_record engine db_name table_name r s)
      go (ok a, s) rest = rest s
      go (err code, s) rest = refl

  inverse-eq :
      (op : VersionOp) (rid : ℕ) (before after : Tuple) (u v : View) (s : S)
      → Changes op rid before after u v
      → apply_inverse engine db_name table_name op rid before s
        ≡ change_each (inverse op rid before) s
  unfolding apply_inverse change_each
  inverse-eq insert rid before after u v s step =
      sym (then_done (engine.delete_internal db_name table_name rid false s))
  inverse-eq update rid before after u v s step =
      sym (then_done (engine.update_internal db_name table_name rid before false s))
  inverse-eq delete rid before after u v s step =
      sym (then_done (engine.restore_internal db_name table_name rid before false s))
  inverse-eq (unknown n) rid before after u v s impossible = absurd impossible

  undo-eq :
      (u w : View) (rs : List VersionRecord) (s : S)
      → History u rs w
      → undo (reversed rs) s ≡ change_each (inverses rs) s
  unfolding undo apply_inverse_records apply_inverse_record change_each inverses
  undo-eq _ _ _ s (start v) = refl
  undo-eq _ _ _ s (change u v w r rs step history) =
      undo-append (reversed rs) r s
      ∙ ap (λ o. then_do o (λ _ s. apply_inverse_record engine db_name table_name r s))
          (undo-eq v w rs s history)
      ∙ ap (then_do (change_each (inverses rs) s))
          (λ i _ s. inverse-eq r.op r.rid r.before r.after u v s step i)
      ∙ sym (change_each-append (inverses rs) (inverse r.op r.rid r.before) s)

  collect-append :
      (t : ℤ) (old new : List VersionRecord)
      → All (λ r. is_after table_name t r ≡ false) old
      → All (λ r. is_after table_name t r ≡ true) new
      → collect_rollback_records table_name t (old ++ new) ≡ new
  unfolding collect_rollback_records
  collect-append t [] [] h k = refl
  collect-append t [] (r ∷ new) h (k, ks) = rw k (ap (r ∷◌) (collect-append t [] new tt ks))
  collect-append t (r ∷ old) new (h, hs) k = rw h (collect-append t old new hs k)

  revert_loaded :
      (t : ℤ) (s s1 : S) (old new : List VersionRecord)
      → load_records engine db_name table_name s ≡ (ok (old ++ new), s1)
      → All (λ r. is_after table_name t r ≡ false) old
      → All (λ r. is_after table_name t r ≡ true) new
      → revert_table_to_timestamp engine db_name table_name t s ≡ undo (reversed new) s1
  unfolding revert_table_to_timestamp undo
  revert_loaded t s s1 old new loaded h k =
      ap (λ c. then_do c (λ rs s. undo (reversed (collect_rollback_records table_name t rs)) s))
        loaded
      ∙ ap (λ rs. undo (reversed rs) s1) (collect-append t old new h k)

  -- If the log can be read, its records up to a time stand in front of those after it, and these have
  -- led from one view of the table to another, then reverting to that time is, for any engine, the
  -- inverse changes of these records, the last record's first, without a record in the log, up to the
  -- first that the engine fails at; and as changes of a view, where only a row that can be seen is
  -- removed or replaced and only one that cannot is restored, they lead back to the first view.
  pub revert_table_to_timestamp_lem :
      (t : ℤ) (s s1 : S) (old new : List VersionRecord) (u w : View)
      → load_records engine db_name table_name s ≡ (ok (old ++ new), s1)
      → All (λ r. is_after table_name t r ≡ false) old
      → All (λ r. is_after table_name t r ≡ true) new
      → History u new w
      → (revert_table_to_timestamp engine db_name table_name t s ≡ change_each (inverses new) s1)
        × (change_views (inverses new) w ≡ some u)
  unfolding undo
  revert_table_to_timestamp_lem t s s1 old new u w loaded h k history = (
    revert_loaded t s s1 old new loaded h k ∙ undo-eq u w new s1 history,
    inverses-undo u w new history,
  )
