-- ===== src/Store/Settlement.antt =====
-- The two ways to settle a task of internal/notification/postgres/pipeline.go, `MarkSent` and
-- `MarkFailed`, and what a settlement leaves of the claim.
use feed_flow.Base.{
  Bool, String, arith, count, count-update, count_zero-update, false, refl, true, update, ℕ, ◌+◌,
  ◌≡◌, ◌≢◌,
}
use feed_flow.Contract.{Codec}
use feed_flow.Store.{
  DeliveryRow, DispatchKind, M, Result, Session, Tables, cancelled, err, exec, ok, ◌>>=◌,
}
use feed_flow.Store.Claim.{Task}
use feed_flow.Store.Keeps.{one_row_triple}
use feed_flow.Store.Outcomes.{
  channel_active, dispatch_payload, failure_kind, failure_status, failure_topic, holds_claim,
  insert_dispatch, mark_failed, mark_sent, one_row, released_row, sent_row, settle_failure,
  short_code, update_deliveries,
}
use feed_flow.Store.Rows.{is_processing}
use feed_flow.Store.Triples.{
  Always, Outcome, Triple, run_triple, triple, triple_bind, triple_exec, triple_mono,
  triple_transaction,
}

pub data Settlement : Type 0 where
  as_sent : Settlement
  as_failed : ℕ → String → Settlement

-- No row is claimed with the task's token any more.
abbrev pub IsSettled : Task → Tables → Type 0
IsSettled task t = count (holds_claim task) t.deliveries ≡ 0

module _ (codec : Codec) (gen_uuid : ℕ → ℕ) where
  unfoldable pub settle_with : Settlement → Task → M (Unit {0})
  settle_with as_sent task = mark_sent task
  settle_with (as_failed delay code) task = mark_failed codec gen_uuid task delay code

-- An update that leaves no row processed ends the claim.
update-IsSettled :
    (task : Task) (change : DeliveryRow → DeliveryRow) (t : Tables)
    → ((d : DeliveryRow) → is_processing (change d).status ≡ false)
    → IsSettled task (record t { deliveries = update (holds_claim task) change t.deliveries })
update-IsSettled task change t idle =
    count-update (holds_claim task) change t.deliveries (λ d held. ground (arith, idle d))

ends_claim :
    (task : Task) (change : Session → DeliveryRow → DeliveryRow) (P : Tables → Type 0)
    → ((s : Session) (d : DeliveryRow) → is_processing (change s d).status ≡ false)
    → Triple P
        (exec (λ s. update_deliveries (holds_claim task) (change s) s))
        (λ _. IsSettled task)
        Always
unfolding update_deliveries
ends_claim task change P idle =
    triple_exec P _ _ Always (λ s p. update-IsSettled task (change s) s.tables (idle s)) (λ t p. tt)

mark_sent_ends : (task : Task) → Triple Always (mark_sent task) (λ _. IsSettled task) Always
unfolding mark_sent sent_row
mark_sent_ends task =
    triple_bind (λ _. IsSettled task)
      (ends_claim task (λ s. sent_row s.db_now) Always (λ s d. refl))
      (λ n. one_row_triple _ n _ Always (λ t h. h) (λ t h. tt))

-- A settled claim is settled once more by nobody: the call fails and changes nothing.
abbrev Untouched : Task → Tables → Tables → Type 0
Untouched task before t = (t ≡ before) × IsSettled task t

abbrev Never : Unit {0} → Tables → Type 0
Never _ t = ⊥

finds_none :
    (task : Task) (change : Session → DeliveryRow → DeliveryRow) (before : Tables)
    → Triple
        (Untouched task before)
        (exec (λ s. update_deliveries (holds_claim task) (change s) s))
        (λ n t. (n ≡ 0) × (t ≡ before))
        (λ t. t ≡ before)
unfolding update_deliveries
finds_none task change before =
    triple_exec _ _ _ _
      (λ s p.
        (p.1, rw (count_zero-update (holds_claim task) (change s) s.tables.deliveries p.1) p.0))
      (λ t p. p.0)

one_row_of_none :
    (n : ℕ) (before : Tables)
    → Triple (λ t. (n ≡ 0) × (t ≡ before)) (one_row n) Never (λ t. t ≡ before)
one_row_of_none n before = triple (λ s p. rw p.0 p.1)

mark_sent_again :
    (task : Task) (before : Tables)
    → Triple (Untouched task before) (mark_sent task) Never (λ t. t ≡ before)
unfolding mark_sent
mark_sent_again task before =
    triple_bind _ (finds_none task (λ s. sent_row s.db_now) before) (λ n. one_row_of_none n before)

-- What follows a call that never succeeds never runs.
then-Never :
    (m k : M (Unit {0})) (P E : Tables → Type 0)
    → Triple P m Never E
    → Triple P (m >>= λ _. k) Never E
then-Never m k P E h = triple_bind Never {f = λ _. k} h (λ _. triple (λ s never. absurd never))

module _ (codec : Codec) (gen_uuid : ℕ → ℕ) where
  insert_dispatch_keeps :
      (task : Task) (kind : DispatchKind) (topic payload : String) (at : Session → ℕ)
      → Triple
          (IsSettled task)
          (exec (λ s.
            insert_dispatch gen_uuid task.id task.user_id task.attempts kind topic payload
              (at s)
              s))
          (λ _. IsSettled task)
          Always
  unfolding insert_dispatch
  insert_dispatch_keeps task kind topic payload at = triple_exec _ _ _ Always (λ s h. h) (λ t h. tt)

  settle_failure_ends :
      (task : Task) (delay : ℕ) (code : String) (active : Bool)
      → Triple Always
          (settle_failure codec gen_uuid task delay code active)
          (λ _. IsSettled task)
          Always
  unfolding settle_failure released_row
  settle_failure_ends task delay code false =
      triple_bind (λ _. IsSettled task)
        (ends_claim task (λ s. released_row s.db_now cancelled "channel_disabled") Always
          (λ s d. refl))
        (λ n. one_row_triple _ n _ Always (λ t h. h) (λ t h. tt))
  settle_failure_ends task delay code true =
      triple_bind (λ _. IsSettled task)
        (ends_claim task (λ s. released_row s.db_now (failure_status delay) code) Always
          (λ s d. ground arith))
        (λ n.
          triple_bind (λ _. IsSettled task) (one_row_triple _ n _ Always (λ t h. h) (λ t h. tt))
            (λ _. insert_dispatch_keeps task _ _ _ (λ s. s.clock_now + delay)))

  settle_ends :
      (how : Settlement) (task : Task)
      → Triple Always (settle_with codec gen_uuid how task) (λ _. IsSettled task) Always
  unfolding settle_with mark_failed channel_active
  settle_ends as_sent task = mark_sent_ends task
  settle_ends (as_failed delay code) task =
      triple_transaction Always _ _ Always (λ t h. h) (λ _ t h. tt)
        (triple_bind (λ _. Always) (triple_exec Always _ _ Always (λ s p. tt) (λ t p. tt))
          (λ active. settle_failure_ends task delay (short_code code) active))

  settle_failure_again :
      (task : Task) (delay : ℕ) (code : String) (before : Tables) (active : Bool)
      → Triple
          (Untouched task before)
          (settle_failure codec gen_uuid task delay code active)
          Never
          Always
  unfolding settle_failure
  settle_failure_again task delay code before false =
      triple_mono _ Never (λ t. t ≡ before) Always (λ _ t h. h) (λ t h. tt)
        (triple_bind _
          (finds_none task (λ s. released_row s.db_now cancelled "channel_disabled") before)
          (λ n. one_row_of_none n before))
  settle_failure_again task delay code before true =
      triple_mono _ Never (λ t. t ≡ before) Always (λ _ t h. h) (λ t h. tt)
        (triple_bind _
          (finds_none task (λ s. released_row s.db_now (failure_status delay) code) before)
          (λ n.
            then-Never (one_row n)
              (exec (λ s.
                insert_dispatch gen_uuid task.id task.user_id task.attempts (failure_kind delay)
                  (failure_topic delay)
                  (dispatch_payload codec task.id task.event_id task.user_id task.attempts code)
                  (s.clock_now + delay) s))
              _ _ (one_row_of_none n before)))

  settle_again :
      (how : Settlement) (task : Task) (before : Tables)
      → Triple (Untouched task before) (settle_with codec gen_uuid how task) Never (λ t. t ≡ before)
  unfolding settle_with mark_failed channel_active
  settle_again as_sent task before = mark_sent_again task before
  settle_again (as_failed delay code) task before =
      triple_transaction (Untouched task before) _ Never (λ t. t ≡ before) (λ t h. h.0)
        (λ _ t never. absurd never)
        (triple_bind (λ _. Untouched task before) (triple_exec _ _ _ Always (λ s p. p) (λ t p. tt))
          (λ active. settle_failure_again task delay (short_code code) before active))

  IsSettled-of_ok :
      (task : Task) (r : Result (Unit {0}) × Session)
      → Outcome (λ _. IsSettled task) Always r
      → r.0 ≡ ok tt
      → IsSettled task r.1.tables
  IsSettled-of_ok task (ok _, s) h e = h
  IsSettled-of_ok task (err x, s) h e = cc

  pub settle-IsSettled :
      (how : Settlement) (task : Task) (s : Session)
      → (settle_with codec gen_uuid how task s).0 ≡ ok tt
      → IsSettled task (settle_with codec gen_uuid how task s).1.tables
  settle-IsSettled how task s e = IsSettled-of_ok task _ (run_triple (settle_ends how task) s tt) e

  refused :
      (before : Tables) (r : Result (Unit {0}) × Session)
      → Outcome Never (λ t. t ≡ before) r
      → (r.0 ≢ ok tt) × (r.1.tables ≡ before)
  refused before (ok _, s) h = absurd h
  refused before (err x, s) h = (λ e. cc, h)

  -- A claim that is settled cannot be settled again, as sent or as failed: the call fails and
  -- changes no table.
  pub settled-refuses :
      (how : Settlement) (task : Task) (s : Session)
      → IsSettled task s.tables
      → ((settle_with codec gen_uuid how task s).0 ≢ ok tt)
        × ((settle_with codec gen_uuid how task s).1.tables ≡ s.tables)
  settled-refuses how task s settled =
      refused s.tables _ (run_triple (settle_again how task s.tables) s (refl, settled))
