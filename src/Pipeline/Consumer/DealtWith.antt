-- ===== src/Pipeline/Consumer/DealtWith.antt =====
-- What the consumer of internal/notification/pipeline/consumer.go has done with a record whose
-- processing it reports without an error.
use feed_flow.Base.{
  Bool, Bool-cases, List, Option, String, [], ap, false, inl, inr, none, refl, some, sym, true, ℕ,
  ◌∙◌, ◌∷◌, ◌≡◌,
}
use feed_flow.Contract.{Codec, Requested, RetryEvent}
use feed_flow.Pipeline.Consumer.{
  DeadLetters, Handled, KafkaRecord, Verdict, accept, answered, carry_out, dead_letter,
  process_record, publish_invalid, reject, resume, route,
}
use feed_flow.Relay.{Record}
use feed_flow.Store.{
  DbFault, Result, Session, Tables, close_transaction, commit_body, err, exec, identity_conflict,
  ok, transaction,
}
use feed_flow.Store.FanOut.Accepted.{AllServed, accepted-is_served}
use feed_flow.Store.Inbox.{accept_request}
use feed_flow.Store.Redelivery.{is_received, redelivered-same_tables}
use feed_flow.Store.Resumption.{IsTakenUp, resume_retry-IsTakenUp}

-- How a record was dealt with when `Process` reports no error.
pub data IsDealtWith (codec : Codec) (letters : DeadLetters) (publish : Record → Bool)
    (r : KafkaRecord) (old : Tables) : Handled → Type 0 where
  was_known :
      (event : Requested) (h : Handled)
      → route codec r ≡ accept event
      → is_received event old ≡ true
      → h.session.tables ≡ old
      → IsDealtWith codec letters publish r old h
  was_accepted :
      (event : Requested) (h : Handled)
      → route codec r ≡ accept event
      → is_received event old ≡ false
      → is_received event h.session.tables ≡ true
      → AllServed event h.session.tables
      → IsDealtWith codec letters publish r old h
  was_resumed :
      (event : RetryEvent) (h : Handled)
      → route codec r ≡ resume event
      → IsTakenUp event old h.session.tables
      → IsDealtWith codec letters publish r old h
  was_reported :
      (reason : String) (h : Handled)
      → publish (dead_letter codec letters r reason) ≡ true
      → h.letter ≡ some (dead_letter codec letters r reason)
      → h.session.tables ≡ old
      → IsDealtWith codec letters publish r old h

-- A transaction whose error is not one of the driver was rolled back.
commit-no_conflict {ℓ} :
    {A : Type ℓ} (old : Tables) (a : A) (s : Session)
    → (commit_body old a s).0 ≡ err identity_conflict
    → ⊥
unfolding commit_body exec
commit-no_conflict old a s h = no_conflict s.faults h
  where
    no_conflict :
        (faults : List (Option DbFault))
        → (commit_body old a (record s { faults = faults })).0 ≡ err identity_conflict
        → ⊥
    no_conflict [] e = cc
    no_conflict (none ∷ rest) e = cc
    no_conflict (some f ∷ rest) e = cc

conflict-rolled_back {ℓ} :
    {A : Type ℓ} (old : Tables) (r : Result A × Session)
    → (close_transaction old r).0 ≡ err identity_conflict
    → (close_transaction old r).1.tables ≡ old
unfolding close_transaction
conflict-rolled_back old (err e, s) h = refl
conflict-rolled_back old (ok a, s) h = absurd (commit-no_conflict old a s h)

module _ (codec : Codec) (gen_uuid : ℕ → ℕ) (letters : DeadLetters) (publish : Record → Bool)
    (r : KafkaRecord) (s : Session) where
  published_letter :
      (reason : String) (s' : Session)
      → (publish_invalid codec gen_uuid letters publish r reason s').outcome ≡ ok tt
      → publish (dead_letter codec letters r reason) ≡ true
  unfolding publish_invalid
  published_letter reason s' h = elim (Bool-cases (publish (dead_letter codec letters r reason))) [
    | inl e ↦ e
    | inr e ↦ cc (rw e at h)
  ]

  reported :
      (reason : String) (s' : Session)
      → s'.tables ≡ s.tables
      → (publish_invalid codec gen_uuid letters publish r reason s').outcome ≡ ok tt
      → IsDealtWith codec letters publish r s.tables
          (publish_invalid codec gen_uuid letters publish r reason s')
  unfolding publish_invalid
  reported reason s' same h = was_reported reason _ (published_letter reason s' h) refl same

  -- `AcceptRequest` has succeeded, on an event that it knew or on a new one.
  accepted :
      (event : Requested) (a : Handled)
      → route codec r ≡ accept event
      → (accept_request codec gen_uuid event r.value s).0 ≡ ok tt
      → a.session.tables ≡ (accept_request codec gen_uuid event r.value s).1.tables
      → IsDealtWith codec letters publish r s.tables a
  unfolding AllServed
  accepted event a routed done same = elim (Bool-cases (is_received event s.tables)) [
    | inl old ↦
        was_known event a routed old
          (same ∙ redelivered-same_tables codec gen_uuid event r.value s old)
    | inr new ↦
        let (there, each) = accepted-is_served codec gen_uuid event r.value s new done in
        was_accepted event a routed new (rw same there) (rw same each)
  ]

  conflict-same_tables :
      (event : Requested)
      → (accept_request codec gen_uuid event r.value s).0 ≡ err identity_conflict
      → (accept_request codec gen_uuid event r.value s).1.tables ≡ s.tables
  unfolding accept_request transaction
  conflict-same_tables event h = conflict-rolled_back s.tables _ h

  answered_DealtWith :
      (event : Requested) (a : Result (Unit {0}) × Session)
      → route codec r ≡ accept event
      → accept_request codec gen_uuid event r.value s ≡ a
      → (answered codec gen_uuid letters publish r a).outcome ≡ ok tt
      → IsDealtWith codec letters publish r s.tables (answered codec gen_uuid letters publish r a)
  unfolding answered
  answered_DealtWith event (ok tt, s') routed e h =
      accepted event _ routed (ap (λ a. a.0) e) (sym (ap (λ a. a.1.tables) e))
  answered_DealtWith event (err identity_conflict, s') routed e h =
      reported "identity_conflict" s'
        (sym (ap (λ a. a.1.tables) e) ∙ conflict-same_tables event (ap (λ a. a.0) e)) h
  answered_DealtWith event (err _, s') routed e h = cc

  carried_DealtWith :
      (v : Verdict)
      → route codec r ≡ v
      → (carry_out codec gen_uuid letters publish r v s).outcome ≡ ok tt
      → IsDealtWith codec letters publish r s.tables
          (carry_out codec gen_uuid letters publish r v s)
  unfolding carry_out
  carried_DealtWith (accept event) routed h = answered_DealtWith event _ routed refl h
  carried_DealtWith (resume event) routed h =
      was_resumed event _ routed (resume_retry-IsTakenUp event s h)
  carried_DealtWith (reject reason) routed h = reported reason s refl h

  -- When the processing of a record reports no error, which is when its offset is committed, one
  -- of four things holds. It is a request that was there, and nothing changed. It is a new request
  -- that is in the inbox now, and each enabled channel of its user has a delivery of it. It is a
  -- retry whose delivery waited and is pending again, or did not wait, and nothing changed. Or
  -- Kafka took a dead letter of it, and nothing changed.
  pub process_record-IsDealtWith :
      (process_record codec gen_uuid letters publish (some r) s).outcome ≡ ok tt
      → IsDealtWith codec letters publish r s.tables
          (process_record codec gen_uuid letters publish (some r) s)
  unfolding process_record
  process_record-IsDealtWith h = carried_DealtWith (route codec r) refl h
