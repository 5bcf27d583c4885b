-- ===== src/Pipeline/Consumer/Redelivery.antt =====
-- Kafka may deliver a record again: what the consumer of internal/notification/pipeline/consumer.go
-- does the second time.
use feed_flow.Base.{
  Bool, ap, arith, count, count-update, count_zero-update, none, refl, some, subst, true, ℕ, ◌∙◌,
  ◌≡◌,
}
use feed_flow.Contract.{Codec, Requested, RetryEvent}
use feed_flow.Pipeline.Consumer.{
  DeadLetters, KafkaRecord, Verdict, accept, answered, carry_out, process_record, publish_invalid,
  reject, resume, route,
}
use feed_flow.Relay.{Record}
use feed_flow.Store.{Result, Session, Tables, err, identity_conflict, ok}
use feed_flow.Store.FanOut.Accepted.{accepted-is_received}
use feed_flow.Store.Inbox.{accept_request, awaits_resume, resume_retry, resume_rows, resumed_row}
use feed_flow.Store.Redelivery.{is_received, redelivered-same_tables}
use feed_flow.Store.Triples.{Always, Outcome, Triple, run_triple, triple_exec}

-- No row waits for the retry any more.
abbrev IsResumed : RetryEvent → Tables → Type 0
IsResumed event t = count (awaits_resume t.channels event) t.deliveries ≡ 0

resumes : (event : RetryEvent) → Triple Always (resume_retry event) (λ _. IsResumed event) Always
unfolding resume_retry resume_rows awaits_resume resumed_row
resumes event =
    triple_exec Always _ _ Always
      (λ s p.
        count-update (awaits_resume s.tables.channels event) (resumed_row s.db_now)
          s.tables.deliveries (λ d w. ground arith))
      (λ t p. tt)

resumes_nothing :
    (event : RetryEvent) (before : Tables)
    → Triple
        (λ t. (t ≡ before) × IsResumed event t)
        (resume_retry event)
        (λ _ t. t ≡ before)
        (λ t. t ≡ before)
unfolding resume_retry resume_rows
resumes_nothing event before =
    triple_exec _ _ _ _
      (λ s p.
        rw
          (count_zero-update (awaits_resume s.tables.channels event) (resumed_row s.db_now)
            s.tables.deliveries p.1)
          p.0)
      (λ t p. p.0)

kept {ℓ} :
    {A : Type ℓ} (before : Tables) (r : Result A × Session)
    → Outcome (λ _ t. t ≡ before) (λ t. t ≡ before) r
    → r.1.tables ≡ before
kept before (ok _, s) h = h
kept before (err e, s) h = h

IsResumed-of_ok :
    (event : RetryEvent) (a : Result (Unit {0}) × Session)
    → Outcome (λ _. IsResumed event) Always a
    → a.0 ≡ ok tt
    → IsResumed event a.1.tables
IsResumed-of_ok event (ok _, s) h e = h
IsResumed-of_ok event (err x, s) h e = cc

-- A retry that was resumed is not resumed again.
resumed_again :
    (event : RetryEvent) (s later : Session)
    → (resume_retry event s).0 ≡ ok tt
    → later.tables ≡ (resume_retry event s).1.tables
    → (resume_retry event later).1.tables ≡ later.tables
resumed_again event s later done same = kept later.tables _ (
    run_triple (resumes_nothing event later.tables) later
      (refl, rw same (IsResumed-of_ok event _ (run_triple (resumes event) s tt) done)))

module _ (codec : Codec) (gen_uuid : ℕ → ℕ) (letters : DeadLetters) (publish : Record → Bool)
    (r : KafkaRecord) where
  answered_session :
      (a : Result (Unit {0}) × Session)
      → (answered codec gen_uuid letters publish r a).session ≡ a.1
  unfolding answered publish_invalid
  answered_session (ok _, s) = refl
  answered_session (err identity_conflict, s) = refl
  answered_session (err _, s) = refl

  -- A request that was accepted is in the inbox.
  answered_again :
      (event : Requested) (s later : Session) (a : Result (Unit {0}) × Session)
      → accept_request codec gen_uuid event r.value s ≡ a
      → (answered codec gen_uuid letters publish r a).outcome ≡ ok tt
      → (answered codec gen_uuid letters publish r a).letter ≡ none
      → later.tables ≡ a.1.tables
      → (accept_request codec gen_uuid event r.value later).1.tables ≡ later.tables
  unfolding answered publish_invalid
  answered_again event s later (ok tt, s') e h none_sent same =
      redelivered-same_tables codec gen_uuid event r.value later (
        rw same (
          subst (λ a. is_received event a.1.tables ≡ true) e
            (accepted-is_received codec gen_uuid event r.value s (ap (λ a. a.0) e))))
  answered_again event s later (err identity_conflict, s') e h none_sent same = cc
  answered_again event s later (err _, s') e h none_sent same = cc

  carried_again :
      (v : Verdict) (s later : Session)
      → (carry_out codec gen_uuid letters publish r v s).outcome ≡ ok tt
      → (carry_out codec gen_uuid letters publish r v s).letter ≡ none
      → later.tables ≡ (carry_out codec gen_uuid letters publish r v s).session.tables
      → (carry_out codec gen_uuid letters publish r v later).session.tables ≡ later.tables
  unfolding carry_out publish_invalid
  carried_again (accept event) s later h none_sent same =
      ap (λ x. x.tables) (answered_session (accept_request codec gen_uuid event r.value later))
      ∙ answered_again event s later _ refl h none_sent (
          same
          ∙ ap (λ x. x.tables) (answered_session (accept_request codec gen_uuid event r.value s)))
  carried_again (resume event) s later h none_sent same = resumed_again event s later h same
  carried_again (reject reason) s later h none_sent same = refl

  -- A record that was processed without an error and without a dead letter changes nothing when
  -- Kafka delivers it again to the tables that it has left.
  pub redelivered-no_change :
      (s later : Session)
      → (process_record codec gen_uuid letters publish (some r) s).outcome ≡ ok tt
      → (process_record codec gen_uuid letters publish (some r) s).letter ≡ none
      → later.tables ≡ (process_record codec gen_uuid letters publish (some r) s).session.tables
      → (process_record codec gen_uuid letters publish (some r) later).session.tables ≡ later.tables
  unfolding process_record
  redelivered-no_change s later h none_sent same =
      carried_again (route codec r) s later h none_sent same
