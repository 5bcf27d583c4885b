-- ===== src/Store/Keeps/Recovered.antt =====
-- `RecoverExpired` of internal/notification/postgres/pipeline.go.
use feed_flow.Base.{
  All, All-mono, All-select_passes, All-sort_by, All-take, Distinct-same_row, List, [], arith,
  length, select, true, ℕ, ◌||◌, ◌∷◌, ◌≡◌,
}
use feed_flow.Base.Int.{leb_ℤ, pos, pos_part, ℤ}
use feed_flow.Contract.{Codec}
use feed_flow.Store.{DeliveryRow, DeliveryStatus, Session, dlq, failed, invalid_limit, throw}
use feed_flow.Store.Invariant.{Inv, clash_id}
use feed_flow.Store.Keeps.{Keeps}
use feed_flow.Store.Keeps.Lookups.{Answers, channel_active_triple}
use feed_flow.Store.Keeps.Owed.{insert_dispatch-Inv}
use feed_flow.Store.Keeps.RecoveredRows.{
  All-IsStill, Debt, IsStill, Recovering, recovered_unsent, updated-Debt,
}
use feed_flow.Store.Outcomes.{insert_dispatch, update_deliveries}
use feed_flow.Store.Recovery.{
  earliest_lease, expired_rows, is_expired, recover_each, recover_expired, recover_one,
  recovered_code, recovered_status, recovery, report_expired,
}
use feed_flow.Store.Triples.{
  Always, StatementMeets, Triple, triple_bind, triple_exec, triple_if, triple_return, triple_throw,
  triple_transaction,
}

-- The rows with the UUID of an expired row are not sent and have its number of attempts.
module _ (codec : Codec) (gen_uuid : ℕ → ℕ) where
  report_expired_triple :
      (d : DeliveryRow) (ds : List DeliveryRow) (status : DeliveryStatus)
      → Triple
          (λ t. Debt d status t × All (λ e. IsStill e t) ds)
          (report_expired codec gen_uuid d status)
          (λ _ t. Recovering ds t)
          Always
  unfolding report_expired insert_dispatch
  report_expired_triple d ds failed =
      triple_exec _ _ _ Always
        (λ s p.
          (insert_dispatch-Inv gen_uuid d.id d.user_id d.attempts dlq _ _ s.db_now s p.0, p.1))
        (λ t p. tt)
  report_expired_triple d ds _ = triple_return _ tt _ Always (λ t p. p)

  recover_one_triple :
      (max_attempts : ℕ) (d : DeliveryRow) (ds : List DeliveryRow)
      → Triple
          (Recovering (d ∷ ds))
          (recover_one codec gen_uuid max_attempts d)
          (λ _ t. Recovering ds t)
          Always
  unfolding recover_one update_deliveries
  recover_one_triple max_attempts d ds =
      triple_bind (λ active t. Recovering (d ∷ ds) t × Answers d.id active t)
        (channel_active_triple d.id (Recovering (d ∷ ds)) (λ t p. p.0.unique_ids))
        (λ active.
          let status = recovered_status active d.attempts max_attempts in
          triple_bind (λ _ t. Debt d status t × All (λ e. IsStill e t) ds)
            (triple_exec _ _ _ Always
              (λ s p. (
                updated-Debt d active s.db_now max_attempts (recovered_code active) s.tables
                    (p.0.0, p.0.1.0, p.1),
                All-IsStill d ds s.db_now status (recovered_code active) s.tables
                    (recovered_unsent active d.attempts max_attempts) p.0.1.1,
              ))
              (λ t p. tt))
            (λ n. report_expired_triple d ds status))

  recover_each_triple :
      (max_attempts : ℕ) (ds : List DeliveryRow)
      → Triple (Recovering ds) (recover_each codec gen_uuid max_attempts ds) (λ _ t. Inv t) Always
  unfolding recover_each
  recover_each_triple max_attempts [] = triple_return _ tt _ Always (λ t p. p.0)
  recover_each_triple max_attempts (d ∷ ds) =
      triple_bind (λ _ t. Recovering ds t) (recover_one_triple max_attempts d ds)
        (λ _. recover_each_triple max_attempts ds)

-- The rows that the query selects are of the table, processed and the only ones of their UUID.
expired_IsStill :
    (s : Session) (d : DeliveryRow)
    → All (λ x. clash_id d x ≡ true → x ≡ d) s.tables.deliveries
    → is_expired s d ≡ true
    → IsStill d s.tables
unfolding is_expired
expired_IsStill s d same h =
    All-mono _ _ s.tables.deliveries (λ x e i. (rw (e i) (ground arith), rw (e i))) same

expired_rows-Recovering :
    (s : Session) (limit : ℕ)
    → Inv s.tables
    → StatementMeets Recovering Always (expired_rows limit s)
unfolding expired_rows
expired_rows-Recovering s limit v = (
  v,
  All-take _ limit _ (
      All-sort_by _ earliest_lease _ (
        All-mono _ _ (select (is_expired s) s.tables.deliveries)
          (λ d p. expired_IsStill s d p.0 p.1)
          (All-select_passes _ (is_expired s) s.tables.deliveries
            (Distinct-same_row clash_id (λ x y. ground arith) s.tables.deliveries v.unique_ids)))),
)

module _ (codec : Codec) (gen_uuid : ℕ → ℕ) where
  recovery-Keeps : (limit max_attempts : ℕ) → Keeps (recovery codec gen_uuid limit max_attempts)
  unfolding recovery
  recovery-Keeps limit max_attempts =
      triple_transaction Inv _ _ Inv (λ t v. v) (λ _ t v. v)
        (triple_bind Recovering
          (triple_exec Inv _ _ Always (λ s v. expired_rows-Recovering s limit v) (λ t v. tt))
          (λ ds.
            triple_bind (λ _ t. Inv t) (recover_each_triple codec gen_uuid max_attempts ds)
              (λ _. triple_return Inv (length ds) (λ _ t. Inv t) Always (λ t v. v))))

  -- `RecoverExpired` keeps the invariant.
  pub recover_expired-Keeps :
      (limit max_attempts : ℤ) → Keeps (recover_expired codec gen_uuid limit max_attempts)
  unfolding recover_expired
  recover_expired-Keeps limit max_attempts =
      triple_if (leb_ℤ limit (pos 0) || leb_ℤ max_attempts (pos 0)) Inv (throw invalid_limit)
        (recovery codec gen_uuid (pos_part limit) (pos_part max_attempts)) (λ _ t. Inv t) Inv
        (λ e. triple_throw Inv invalid_limit (λ _ t. Inv t) Inv (λ t v. v))
        (λ e. recovery-Keeps (pos_part limit) (pos_part max_attempts))
