-- ===== src/Store/FanOut/Accepted.antt =====
-- What `AcceptRequest` of internal/notification/postgres/pipeline.go has done when it succeeds.
use feed_flow.Base.{
  All, Bool, Bool-cases, Option, String, [], any-append, arith, false, find, inl, inr, none, not,
  refl, some, true, ℕ, ◌&&◌, ◌==◌, ◌∙◌, ◌∷◌, ◌≡◌,
}
use feed_flow.Contract.{Codec, Requested}
use feed_flow.Store.{
  InboxRow, Result, Session, Tables, driver, err, exec, identity_conflict, ok, other_fault, return,
  throw,
}
use feed_flow.Store.FanOut.{AddsAll, add_deliveries-AddsAll, is_served}
use feed_flow.Store.Inbox.{accept_request, after_insert, inbox_row, insert_inbox, same_request}
use feed_flow.Store.Redelivery.{is_received}
use feed_flow.Store.Triples.{
  Always, Outcome, StatementMeets, Triple, run_triple, triple, triple_bind, triple_exec, triple_if,
  triple_return, triple_throw, triple_transaction,
}

-- Every enabled channel of the user has a delivery of the event.
unfoldable pub AllServed : Requested → Tables → Type 0
AllServed event tables = All (λ c. is_served event tables c ≡ true) tables.channels

module _ (event : Requested) (payload : String) where
  abbrev Received : Tables → Type 0
  Received t = is_received event t ≡ true

  -- A new event gets its row, and the row of an old one is there.
  abbrev Inserted : Bool → Bool → Tables → Type 0
  Inserted was_new added t = (added ≡ was_new) × Received t

  inserted :
      (s : Session) (was_new : Bool)
      → is_received event s.tables ≡ not was_new
      → StatementMeets (Inserted was_new) Always (insert_inbox event payload s)
  unfolding insert_inbox
  inserted s true h = rw h (
    refl,
    any-append (λ (i : InboxRow). i.event_id == event.event_id) s.tables.inbox
          (inbox_row event payload ∷ [])
        ∙ ground arith,
  )
  inserted s false h = rw h (refl, h)

  insert_triple :
      (was_new : Bool)
      → Triple
          (λ t. is_received event t ≡ not was_new)
          (exec (insert_inbox event payload))
          (Inserted was_new)
          Always
  insert_triple was_new = triple_exec _ _ _ Always (λ s h. inserted s was_new h) (λ t h. tt)

  -- What is promised of a new event and of an old one.
  abbrev Promised : Bool → Tables → Type 0
  Promised true t = Received t × All (λ c. is_served event t c ≡ true) t.channels
  Promised false t = Received t

module _ (codec : Codec) (gen_uuid : ℕ → ℕ) (event : Requested) (payload : String) where
  created :
      (s : Session) (r : Result (Unit {0}) × Tables)
      → AddsAll gen_uuid s.db_now event s.tables.channels s.tables r
      → is_received event s.tables ≡ true
      → StatementMeets (λ _. Promised event payload true) Always r
  created s (ok tt, t) (g, reached) h = (rw g.same_inbox h, rw g.same_channels (reached refl))
  created s (err e, t) (g, reached) h = tt

  after_insert_triple :
      (was_new added : Bool)
      → Triple
          (Inserted event payload was_new added)
          (after_insert codec gen_uuid event payload added)
          (λ _. Promised event payload was_new)
          Always
  unfolding after_insert same_request
  after_insert_triple true true =
      triple_exec _ _ _ Always
        (λ s p. created s _ (add_deliveries-AddsAll gen_uuid s.db_now event _ s.tables) p.1)
        (λ t p. tt)
  after_insert_triple false false =
      triple_bind (λ _ t. is_received event t ≡ true)
        (triple_exec _ _ _ Always
          (λ s p.
            compared s (find (λ (i : InboxRow). i.event_id == event.event_id) s.tables.inbox) p.1)
          (λ t p. tt))
        (λ same.
          triple_if same _ (return tt) (throw identity_conflict) _ Always
            (λ e. triple_return _ tt _ Always (λ t p. p))
            (λ e. triple_throw _ identity_conflict _ Always (λ t p. tt)))
    where
      compared :
          (s : Session) (o : Option InboxRow)
          → is_received event s.tables ≡ true
          → StatementMeets {A = Bool}
              (λ _ t. is_received event t ≡ true)
              Always
              (
                elim o [
                  | none ↦ err (driver other_fault)
                  | some i ↦ ok (i.user_id == event.user_id && codec.jsonb_eq i.payload payload)
                ],
                s.tables,
              )
      compared s none p = tt
      compared s (some i) p = p
  after_insert_triple true false = triple (λ s p. cc)
  after_insert_triple false true = triple (λ s p. cc)

  accept_request_triple :
      (was_new : Bool)
      → Triple
          (λ t. is_received event t ≡ not was_new)
          (accept_request codec gen_uuid event payload)
          (λ _. Promised event payload was_new)
          Always
  unfolding accept_request
  accept_request_triple was_new =
      triple_transaction _ _ _ Always (λ t h. tt) (λ _ t h. tt)
        (triple_bind (Inserted event payload was_new) (insert_triple event payload was_new)
          (λ added. after_insert_triple was_new added))

  Promised-of_ok :
      (was_new : Bool) (r : Result (Unit {0}) × Session)
      → Outcome (λ _. Promised event payload was_new) Always r
      → r.0 ≡ ok tt
      → Promised event payload was_new r.1.tables
  Promised-of_ok was_new (ok _, s) h e = h
  Promised-of_ok was_new (err x, s) h e = cc

  -- When `AcceptRequest` succeeds on a new event, the event has a row in the inbox and each
  -- enabled channel of its user has a delivery of it.
  pub accepted-is_served :
      (s : Session)
      → is_received event s.tables ≡ false
      → (accept_request codec gen_uuid event payload s).0 ≡ ok tt
      → (is_received event (accept_request codec gen_uuid event payload s).1.tables ≡ true)
        × All
            (λ c. is_served event (accept_request codec gen_uuid event payload s).1.tables c ≡ true)
            (accept_request codec gen_uuid event payload s).1.tables.channels
  accepted-is_served s h e = Promised-of_ok true _ (run_triple (accept_request_triple true) s h) e

  pub accepted-is_received :
      (s : Session)
      → (accept_request codec gen_uuid event payload s).0 ≡ ok tt
      → is_received event (accept_request codec gen_uuid event payload s).1.tables ≡ true
  accepted-is_received s e = elim (Bool-cases (is_received event s.tables)) [
    | inl old ↦ Promised-of_ok false _ (run_triple (accept_request_triple false) s old) e
    | inr new ↦ (accepted-is_served s new e).0
  ]
