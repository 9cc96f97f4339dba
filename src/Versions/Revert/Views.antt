-- ===== src/Versions/Revert/Views.antt =====
-- What can be seen of a table, and the inverse changes of a history of it.
use database_management_syst.Prelude.{
  ℕ, ◌≡◌, refl, sym, ap, ◌∙◌, inl, inr, List, [], ◌∷◌, ◌++◌, Bool-cases, ◌==◌, ==_iff,
  if◌then◌else◌, Option, none, some, arith,
}
use database_management_syst.Serialization.Rows.{Tuple}
use database_management_syst.Versions.{VersionOp, insert, update, delete, unknown, VersionRecord}

-- The rows of a table that can be seen, by their ids.
abbrev pub View : Type 0
View = ℕ → Option Tuple

abbrev pub put : View → ℕ → Option Tuple → View
put view rid tuple k = if k == rid then tuple else view k

-- The change that a record stands for, from one view to the next.
abbrev pub Changes : VersionOp → ℕ → Tuple → Tuple → View → View → Type 0
Changes insert rid before after v w = (v rid ≡ none) × (w ≡ put v rid (some after))
Changes update rid before after v w = (v rid ≡ some before) × (w ≡ put v rid (some after))
Changes delete rid before after v w = (v rid ≡ some before) × (w ≡ put v rid none)
Changes (unknown n) rid before after v w = ⊥

-- The records lead from one view to another.
pub data History : View → List VersionRecord → View → Type 0 where
  start : (v : View) → History v [] v
  change :
      (u v w : View) (r : VersionRecord) (rs : List VersionRecord)
      → Changes r.op r.rid r.before r.after u v
      → History v rs w
      → History u (r ∷ rs) w

-- A change of one row that the engine is asked for.
pub data RowChange : Type 0 where
  removes : ℕ → RowChange
  restores replaces : ℕ → Tuple → RowChange

-- A view, if a row is seen, or if it is not.
abbrev pub if_seen : Option Tuple → View → Option View
if_seen none v = none
if_seen (some t) v = some v

abbrev pub if_unseen : Option Tuple → View → Option View
if_unseen none v = some v
if_unseen (some t) v = none

-- Only a row that can be seen is removed or replaced, and only one that cannot is restored.
abbrev pub change_view : RowChange → View → Option View
change_view (removes rid) v = if_seen (v rid) (put v rid none)
change_view (restores rid t) v = if_unseen (v rid) (put v rid (some t))
change_view (replaces rid t) v = if_seen (v rid) (put v rid (some t))

abbrev pub then_view : Option View → (View → Option View) → Option View
then_view none next = none
then_view (some v) next = next v

-- The changes in their order; `none` if one of them is not possible.
unfoldable pub change_views : List RowChange → View → Option View
change_views [] v = some v
change_views (c ∷ cs) v = then_view (change_view c v) (change_views cs)

-- What undoes a record of a history, which has no unknown operation.
abbrev pub inverse : VersionOp → ℕ → Tuple → List RowChange
inverse insert rid before = removes rid ∷ []
inverse update rid before = replaces rid before ∷ []
inverse delete rid before = restores rid before ∷ []
inverse (unknown n) rid before = []

-- The last record is undone first.
unfoldable pub inverses : List VersionRecord → List RowChange
inverses [] = []
inverses (r ∷ rs) = inverses rs ++ inverse r.op r.rid r.before

put_at : (v : View) (rid : ℕ) (t : Option Tuple) → put v rid t rid ≡ t
put_at v rid t = rw ((==_iff rid rid).1 refl) refl

put_back : (v : View) (rid : ℕ) (t : Option Tuple) → put (put v rid t) rid (v rid) ≡ v
put_back v rid t = λ i k. same k i
  where
    same : (k : ℕ) → put (put v rid t) rid (v rid) k ≡ v k
    same k = elim (Bool-cases (k == rid)) [
      | inl e ↦ rw e (ap v (sym ((==_iff k rid).0 e)))
      | inr e ↦ rw e refl
    ]

change_views-append :
    (cs ds : List RowChange) (v w : View)
    → change_views cs v ≡ some w
    → change_views (cs ++ ds) v ≡ change_views ds w
unfolding change_views
change_views-append [] ds v w h = ap (λ o. then_view o (change_views ds)) h
change_views-append (c ∷ cs) ds v w h = go (change_view c v) (λ x. change_views-append cs ds x w) h
  where
    go :
        (o : Option View)
        → ((x : View) → change_views cs x ≡ some w → change_views (cs ++ ds) x ≡ change_views ds w)
        → then_view o (change_views cs) ≡ some w
        → then_view o (change_views (cs ++ ds)) ≡ change_views ds w
    go none rest h = absurd (ground (arith, h))
    go (some x) rest h = rest x h

-- The inverse of one record, at the view that the record led to.
inverse-undoes :
    (op : VersionOp) (rid : ℕ) (before after : Tuple) (u v : View)
    → Changes op rid before after u v
    → change_views (inverse op rid before) v ≡ some u
unfolding change_views
inverse-undoes insert rid before after u v (absent, w) =
    let here : v rid ≡ some after = ap (λ f. f rid) w ∙ put_at u rid (some after) in
    ap (λ o. then_view (if_seen o (put v rid none)) (change_views [])) here
    ∙ (ap (λ f. some (put f rid none)) w
        ∙ ap (λ o. some (put (put u rid (some after)) rid o)) (sym absent)
        ∙ ap some (put_back u rid (some after)))
inverse-undoes update rid before after u v (there, w) =
    let here : v rid ≡ some after = ap (λ f. f rid) w ∙ put_at u rid (some after) in
    ap (λ o. then_view (if_seen o (put v rid (some before))) (change_views [])) here
    ∙ (ap (λ f. some (put f rid (some before))) w
        ∙ ap (λ o. some (put (put u rid (some after)) rid o)) (sym there)
        ∙ ap some (put_back u rid (some after)))
inverse-undoes delete rid before after u v (there, w) =
    let here : v rid ≡ none = ap (λ f. f rid) w ∙ put_at u rid none in
    ap (λ o. then_view (if_unseen o (put v rid (some before))) (change_views [])) here
    ∙ (ap (λ f. some (put f rid (some before))) w
        ∙ ap (λ o. some (put (put u rid none) rid o)) (sym there)
        ∙ ap some (put_back u rid none))
inverse-undoes (unknown n) rid before after u v impossible = absurd impossible

pub inverses-undo :
    (u w : View) (rs : List VersionRecord) → History u rs w → change_views (inverses rs) w ≡ some u
unfolding change_views inverses
inverses-undo _ _ _ (start v) = refl
inverses-undo _ _ _ (change u v w r rs step history) =
    change_views-append (inverses rs) (inverse r.op r.rid r.before) w v
      (inverses-undo v w rs history)
    ∙ inverse-undoes r.op r.rid r.before r.after u v step
