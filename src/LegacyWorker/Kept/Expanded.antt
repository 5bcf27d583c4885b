-- ===== src/LegacyWorker/Kept/Expanded.antt =====
-- `ExpandPostCreatedEvents` of internal/notification/postgres/outbox.go keeps to the life of a
-- delivery.
use feed_flow.Base.{
  Bool-cases, Distinct-append, List, [], any, arith, false, inl, inr, refl, subst, suc, ℕ, ◌++◌,
  ◌==◌, ◌∷◌, ◌≡◌, ◌⊎◌,
}
use feed_flow.Feeds.{EventRow}
use feed_flow.LegacyWorker.Expansion.{
  Target, add_pending, event_targets, expand_events, expand_statement, is_target, pending_row,
  unexpanded, with_deliveries,
}
use feed_flow.LegacyWorker.Kept.{
  DistinctRows, Keeps, KeepsTables, clash_row, statement-Keeps, unchanged,
}
use feed_flow.LegacyWorker.Lifecycle.{Evolves-append, Evolves-refl, Evolves-trans}
use feed_flow.LegacyWorker.Tables.{LegacyError, LegacyRow, LegacyTables, Moment, is_row}

fresh_row :
    (row : LegacyRow) (rows : List LegacyRow)
    → any (is_row row.id) rows ≡ false
    → any (clash_row row) rows ≡ false
fresh_row row [] h = refl
fresh_row row (d ∷ ds) h = ground (arith, fresh_row row ds)

add_pending-Keeps :
    (w : Moment) (i : ℕ) (targets : List Target) (rows : List LegacyRow) {new : List LegacyRow}
    → add_pending w i targets rows ≡ inr new
    → DistinctRows rows
    → Keeps rows new
unfolding add_pending
add_pending-Keeps w i [] rows {new} h k =
    let same : rows ≡ new = cc in subst (λ rs. Keeps rows rs) same (k, Evolves-refl rows)
add_pending-Keeps w i (a ∷ targets) rows {new} h k = elim (Bool-cases (any (is_target a) rows)) [
  | inl e ↦ add_pending-Keeps w (suc i) targets rows (rw e at h) k
  | inr e ↦ elim (Bool-cases (any (is_row (w.gen_uuid i)) rows)) [
    | inl d ↦ absurd (ground arith)
    | inr d ↦
        let row = pending_row w.db_now (w.gen_uuid i) a in
        let rest =
          add_pending-Keeps w (suc i) targets (rows ++ row ∷ []) (rw (e, d) at h)
            (Distinct-append clash_row rows row (λ x. ground arith) (fresh_row row rows d) k) in
        (rest.0, Evolves-trans rows (rows ++ row ∷ []) new (Evolves-append rows row refl) rest.1)
  ]
]

expanded-Keeps :
    (w : Moment) (claimed : List EventRow) (t : LegacyTables)
    (answer : LegacyError ⊎ List LegacyRow)
    → ((rows : List LegacyRow) → answer ≡ inr rows → Keeps t.deliveries rows)
    → DistinctRows t.deliveries
    → KeepsTables t (with_deliveries w claimed t answer).1
unfolding with_deliveries
expanded-Keeps w claimed t (inl e) h k = unchanged t k
expanded-Keeps w claimed t (inr rows) h k = h rows refl

pub expand_events-Keeps :
    (w : Moment) (limit : ℕ) (t : LegacyTables)
    → DistinctRows t.deliveries
    → KeepsTables t (expand_events w limit t).1
unfolding expand_events expand_statement
expand_events-Keeps w limit t k =
    let es = unexpanded w limit t.source.events in
    let targets = event_targets t es in
    elim (Bool-cases (limit == 0)) [
      | inl e ↦ rw e (unchanged t k)
      | inr e ↦ rw e (
          statement-Keeps w (expand_statement w limit) t k (
            expanded-Keeps w es t (add_pending w 0 targets t.deliveries)
              (λ rows made. add_pending-Keeps w 0 targets t.deliveries made k) k))
    ]
