-- ===== src/Store/Redelivery.antt =====
-- `AcceptRequest` of internal/notification/postgres/pipeline.go on a new event, and on one that
-- Kafka delivers again.
use feed_flow.Base.{
  Bool, Bool-cases, List, Option, String, [], any, ap, arith, false, find, if◌then◌else◌, inl, inr,
  none, refl, some, true, ℕ, ◌&&◌, ◌==◌, ◌∙◌, ◌∷◌, ◌≡◌,
}
use feed_flow.Contract.{Codec, Requested}
use feed_flow.Store.{
  InboxRow, Result, Session, Tables, calm, driver, err, exec, identity_conflict, ok, other_fault,
  return, throw,
}
use feed_flow.Store.Inbox.{accept_request, after_insert, insert_inbox, same_request}
use feed_flow.Store.Runs.{bind_ok, exec-calm, transaction-calm_err, transaction-calm_ok}
use feed_flow.Store.Triples.{
  Always, Outcome, StatementMeets, Triple, run_triple, triple, triple_bind, triple_exec, triple_if,
  triple_mono, triple_pre, triple_return, triple_throw, triple_transaction,
}

abbrev IsKept : Tables → Tables → Type 0
IsKept before t = t ≡ before

-- An event with a row in the inbox.
abbrev pub is_received : Requested → Tables → Bool
is_received event t = any (λ (i : InboxRow). i.event_id == event.event_id) t.inbox

find-any :
    (p : InboxRow → Bool) (is : List InboxRow) (i : InboxRow) → find p is ≡ some i → any p is ≡ true
find-any p [] i h = cc
find-any p (x ∷ is) i h = ground (arith, find-any p is i)

module _ (codec : Codec) (gen_uuid : ℕ → ℕ) (event : Requested) (payload : String) where
  compare_keeps :
      (before : Tables)
      → Triple
          (IsKept before)
          (after_insert codec gen_uuid event payload false)
          (λ _. IsKept before)
          (IsKept before)
  unfolding after_insert same_request
  compare_keeps before =
      triple_bind (λ _. IsKept before)
        (triple_exec _ _ _ _
          (λ s p.
            compared s p (find (λ (i : InboxRow). i.event_id == event.event_id) s.tables.inbox))
          (λ t p. p))
        (λ same.
          triple_if same _ (return tt) (throw identity_conflict) _ _
            (λ e. triple_return _ tt _ _ (λ t p. p))
            (λ e. triple_throw _ identity_conflict _ _ (λ t p. p)))
    where
      compared :
          (s : Session)
          → IsKept before s.tables
          → (o : Option InboxRow)
          → StatementMeets {A = Bool}
              (λ _. IsKept before)
              (IsKept before)
              (
                elim o [
                  | none ↦ err (driver other_fault)
                  | some i ↦ ok (i.user_id == event.user_id && codec.jsonb_eq i.payload payload)
                ],
                s.tables,
              )
      compared s p none = p
      compared s p (some i) = p

  not_inserted :
      (before : Tables)
      → is_received event before ≡ true
      → Triple
          (IsKept before)
          (exec (insert_inbox event payload))
          (λ added t. (added ≡ false) × IsKept before t)
          (IsKept before)
  unfolding insert_inbox
  not_inserted before h = triple_exec _ _ _ _ (λ s p. rw (p, h) (refl, refl)) (λ t p. p)

  after_false :
      (before : Tables) (added : Bool)
      → Triple
          (λ t. (added ≡ false) × IsKept before t)
          (after_insert codec gen_uuid event payload added)
          (λ _. IsKept before)
          (IsKept before)
  after_false before false = triple_pre (IsKept before) _ (λ t p. p.1) (compare_keeps before)
  after_false before true = triple (λ s p. cc)

  kept-Outcome :
      (before : Tables) (r : Result (Unit {0}) × Session)
      → Outcome (λ _. IsKept before) (IsKept before) r
      → r.1.tables ≡ before
  kept-Outcome before (ok _, s) h = h
  kept-Outcome before (err e, s) h = h

  -- A request that Kafka delivers again changes no table, whatever the driver does.
  pub redelivered-same_tables :
      (s : Session)
      → is_received event s.tables ≡ true
      → (accept_request codec gen_uuid event payload s).1.tables ≡ s.tables
  unfolding accept_request
  redelivered-same_tables s h = kept-Outcome s.tables _ (
      run_triple
        (triple_transaction (IsKept s.tables) _ (λ _. IsKept s.tables) (IsKept s.tables) (λ t h. h)
          (λ _ t h. h)
          (triple_mono _ (λ _. IsKept s.tables) (IsKept s.tables) Always (λ _ t p. p) (λ t p. tt)
            (triple_bind _ (not_inserted s.tables h) (λ added. after_false s.tables added))))
        s refl)

  module _ (db_now clock_now : ℕ) (locked : ℕ → Bool) (t : Tables) (i : InboxRow)
      (found : find (λ (x : InboxRow). x.event_id == event.event_id) t.inbox ≡ some i) where
    insert_found :
        exec (insert_inbox event payload) (calm t db_now clock_now locked)
        ≡ (ok false, calm t db_now clock_now locked)
    unfolding insert_inbox
    insert_found =
        exec-calm db_now clock_now locked (insert_inbox event payload) t
          (rw (find-any _ t.inbox i found) refl)

    compare_found :
        (same : Bool)
        → (i.user_id == event.user_id && codec.jsonb_eq i.payload payload) ≡ same
        → exec (same_request codec event payload) (calm t db_now clock_now locked)
          ≡ (ok same, calm t db_now clock_now locked)
    unfolding same_request
    compare_found same e =
        exec-calm db_now clock_now locked (same_request codec event payload) t (rw (found, e) refl)

    -- Without a fault of the driver, a request that Kafka delivers again is accepted if its user
    -- and its payload are those of the row, and is an identity conflict otherwise.
    pub redelivered_answer :
        (accept_request codec gen_uuid event payload (calm t db_now clock_now locked)).0 ≡ (
          if i.user_id == event.user_id && codec.jsonb_eq i.payload payload
          then ok tt
          else err identity_conflict)
    unfolding accept_request after_insert
    redelivered_answer =
        elim (Bool-cases (i.user_id == event.user_id && codec.jsonb_eq i.payload payload)) [
          | inl e ↦ rw e (
              ap (λ r. r.0)
                (transaction-calm_ok db_now clock_now locked _ t t (
                  bind_ok (exec (insert_inbox event payload))
                    (after_insert codec gen_uuid event payload) insert_found
                  ∙ bind_ok (exec (same_request codec event payload))
                      (λ same. if same then return tt else throw identity_conflict)
                      (compare_found true e))))
          | inr e ↦ rw e (
              ap (λ r. r.0)
                (transaction-calm_err db_now clock_now locked _ t t (
                  bind_ok (exec (insert_inbox event payload))
                    (after_insert codec gen_uuid event payload) insert_found
                  ∙ bind_ok (exec (same_request codec event payload))
                      (λ same. if same then return tt else throw identity_conflict)
                      (compare_found false e))))
        ]
