-- ===== src/Store/Tokens/Claims.antt =====
-- `Claim` and `RecoverExpired` of internal/notification/postgres leave a task known, and the tasks
-- that `Claim` hands out are known from the start.
use feed_flow.Base.{Bool, List, String, [], arith, false, length, ℕ, ◌||◌, ◌∙◌, ◌∷◌, ◌≡◌}
use feed_flow.Base.Int.{leb_ℤ, pos, pos_part, ℤ}
use feed_flow.Contract.{Codec, dlq_topic_v1}
use feed_flow.Store.{
  DeliveryRow, DeliveryStatus, Result, Session, dlq, err, failed, invalid_limit, ok, throw,
}
use feed_flow.Store.Claim.{Task, claim, claim_statement, lift, read_tasks}
use feed_flow.Store.Keeps.Claimed.{claimed_table}
use feed_flow.Store.Recovery.{
  expired_rows, recover_each, recover_expired, recover_one, recovered_code, recovered_row,
  recovered_status, recovery, report_expired,
}
use feed_flow.Store.Rows.{has_id, is_processing}
use feed_flow.Store.Tokens.{
  DrawsApart, IsKnown, Stable, Stable-bind, Stable-exec, Stable-if, Stable-return, Stable-throw,
  Stable-transaction,
}
use feed_flow.Store.Tokens.Calls.{
  channel_active-Stable, insert_dispatch-Stable, recovered_idle, Stable-update,
}
use feed_flow.Store.Tokens.Statements.{claim_rows_drawn, claim_rows_known}
use feed_flow.Store.Triples.{triple}

module _ (codec : Codec) (gen_uuid : ℕ → ℕ) (task : Task) where
  report_expired-Stable :
      (d : DeliveryRow) (status : DeliveryStatus)
      → Stable gen_uuid task (report_expired codec gen_uuid d status)
  unfolding report_expired
  report_expired-Stable d failed =
      insert_dispatch-Stable codec gen_uuid task d.id d.user_id d.attempts dlq dlq_topic_v1 _
        (λ s. s.db_now)
  report_expired-Stable d _ = Stable-return gen_uuid task tt

  recovered_status_idle :
      (active : Bool) (n m : ℕ) → is_processing (recovered_status active n m) ≡ false
  recovered_status_idle active n m = ground arith

  recover_one-Stable :
      (max_attempts : ℕ) (d : DeliveryRow)
      → Stable gen_uuid task (recover_one codec gen_uuid max_attempts d)
  unfolding recover_one
  recover_one-Stable max_attempts d =
      Stable-bind gen_uuid task _ _ (channel_active-Stable codec gen_uuid task d.id) (λ active.
        let status = recovered_status active d.attempts max_attempts in
        Stable-bind gen_uuid task _ _
          (Stable-update gen_uuid task (has_id d.id)
            (λ s. recovered_row s.db_now status (recovered_code active))
            (λ s x.
              recovered_idle s.db_now status (recovered_code active) x
              ∙ recovered_status_idle active d.attempts max_attempts))
          (λ n. report_expired-Stable d status))

  recover_each-Stable :
      (max_attempts : ℕ) (ds : List DeliveryRow)
      → Stable gen_uuid task (recover_each codec gen_uuid max_attempts ds)
  unfolding recover_each
  recover_each-Stable max_attempts [] = Stable-return gen_uuid task tt
  recover_each-Stable max_attempts (d ∷ ds) =
      Stable-bind gen_uuid task _ _ (recover_one-Stable max_attempts d)
        (λ _. recover_each-Stable max_attempts ds)

  recovery-Stable :
      (limit max_attempts : ℕ) → Stable gen_uuid task (recovery codec gen_uuid limit max_attempts)
  unfolding recovery expired_rows
  recovery-Stable limit max_attempts = Stable-transaction gen_uuid task _ (
      Stable-bind gen_uuid task _ _ (Stable-exec gen_uuid task _ (λ s k. k)) (λ ds.
        Stable-bind gen_uuid task _ _ (recover_each-Stable max_attempts ds)
          (λ _. Stable-return gen_uuid task (length ds))))

  pub recover_expired-Stable :
      (limit max_attempts : ℤ)
      → Stable gen_uuid task (recover_expired codec gen_uuid limit max_attempts)
  unfolding recover_expired
  recover_expired-Stable limit max_attempts =
      Stable-if gen_uuid task (leb_ℤ limit (pos 0) || leb_ℤ max_attempts (pos 0))
        (throw invalid_limit) _ (Stable-throw gen_uuid task invalid_limit)
        (recovery-Stable (pos_part limit) (pos_part max_attempts))

  lift-Stable : (r : Result (List Task)) → Stable gen_uuid task (lift r)
  lift-Stable (ok tasks) = triple (λ s k. k)
  lift-Stable (err e) = triple (λ s k. k)

  claimed-IsKnown :
      (apart : DrawsApart gen_uuid) (lease : ℕ) (es : List DeliveryRow) (s : Session)
      → IsKnown gen_uuid task s.tables
      → IsKnown gen_uuid task (claimed_table gen_uuid lease es s)
  claimed-IsKnown apart lease es s (g, (k, below, own)) = (
    claim_rows_known gen_uuid apart s.db_now lease es task k own s.tables.drawn s.tables.deliveries
        below g,
    (
      k,
      omega (arith, claim_rows_drawn gen_uuid s.db_now lease es s.tables.drawn s.tables.deliveries),
      own,
    ),
  )

  pub claim-Stable :
      DrawsApart gen_uuid
      → (limit lease : ℤ) (kinds : List String)
      → Stable gen_uuid task (claim codec gen_uuid limit lease kinds)
  unfolding claim claim_statement
  claim-Stable apart limit lease kinds =
      Stable-if gen_uuid task (leb_ℤ limit (pos 0) || leb_ℤ lease (pos 0)) (throw invalid_limit) _
        (Stable-throw gen_uuid task invalid_limit)
        (Stable-bind gen_uuid task _ _
          (Stable-exec gen_uuid task _ (λ s k. claimed-IsKnown apart _ _ s k))
          (λ rs. lift-Stable (read_tasks codec rs)))
