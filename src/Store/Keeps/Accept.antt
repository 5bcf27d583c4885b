-- ===== src/Store/Keeps/Accept.antt =====
-- `AcceptRequest` of internal/notification/postgres/pipeline.go, as a whole.
use feed_flow.Base.{
  All, Bool, List, Option, String, [], false, find, none, refl, some, true, ℕ, ◌&&◌, ◌==◌, ◌∙◌, ◌∷◌,
  ◌≡◌,
}
use feed_flow.Contract.{Codec, Requested}
use feed_flow.Store.{
  ChannelRow, InboxRow, Result, Session, Tables, driver, err, identity_conflict, ok, other_fault,
  return, throw,
}
use feed_flow.Store.Inbox.{
  accept_request, add_deliveries, add_delivery, after_insert, insert_inbox, same_request,
}
use feed_flow.Store.Invariant.{Inv}
use feed_flow.Store.Keeps.{Keeps}
use feed_flow.Store.Keeps.Inbox.{
  All-IsListed, Inserted, IsListed, Requesting, add_delivery-Requesting, insert_inbox-Inv,
}
use feed_flow.Store.Triples.{
  Always, StatementMeets, Triple, triple_bind, triple_exec, triple_if, triple_return, triple_throw,
  triple_transaction,
}

-- One round of the insertion: what the rest of the list does with the tables that it leaves.
next_delivery :
    (gen_uuid : ℕ → ℕ) (now : ℕ) (event : Requested) (cs : List ChannelRow)
    (channels : List ChannelRow) (r : Result (Unit {0}) × Tables)
    → StatementMeets {A = Unit {0}} (λ _. Requesting event) Always r
    → r.1.channels ≡ channels
    → ((t : Tables)
        → t.channels ≡ channels
        → Requesting event t
        → StatementMeets {A = Unit {0}}
            (λ _. Requesting event)
            Always
            (add_deliveries gen_uuid now event cs t))
    → StatementMeets {A = Unit {0}}
        (λ _. Requesting event)
        Always
        (elim r.0 [ ok _ ↦ add_deliveries gen_uuid now event cs r.1 | err e ↦ (err e, r.1) ])
next_delivery gen_uuid now event cs channels (ok _, t) h same rest = rest t same h
next_delivery gen_uuid now event cs channels (err e, t) h same rest = tt

add_deliveries-Requesting :
    (gen_uuid : ℕ → ℕ) (now : ℕ) (event : Requested) (channels cs : List ChannelRow) (t : Tables)
    → t.channels ≡ channels
    → All (IsListed channels) cs
    → Requesting event t
    → StatementMeets (λ _. Requesting event) Always (add_deliveries gen_uuid now event cs t)
unfolding add_deliveries
add_deliveries-Requesting gen_uuid now event channels [] t same listed v = v
add_deliveries-Requesting gen_uuid now event channels (c ∷ cs) t same listed v =
    let step = add_delivery-Requesting gen_uuid now event c t (rw same listed.0) v in
    next_delivery gen_uuid now event cs channels (add_delivery gen_uuid now event c t) step.0
      (step.1 ∙ same)
      (λ t' same' v'. add_deliveries-Requesting gen_uuid now event channels cs t' same' listed.1 v')

module _ (codec : Codec) (gen_uuid : ℕ → ℕ) where
  after_insert_triple :
      (event : Requested) (payload : String) (added : Bool)
      → Triple
          (Inserted event added)
          (after_insert codec gen_uuid event payload added)
          (λ _ t. Inv t)
          Always
  unfolding after_insert same_request
  after_insert_triple event payload true =
      triple_exec (Inserted event true) _ _ Always
        (λ s v. created (add_deliveries gen_uuid s.db_now event s.tables.channels s.tables) (
          add_deliveries-Requesting gen_uuid s.db_now event s.tables.channels s.tables.channels
            s.tables refl (All-IsListed s.tables.channels) v))
        (λ t v. tt)
    where
      created :
          (r : Result (Unit {0}) × Tables)
          → StatementMeets (λ _. Requesting event) Always r
          → StatementMeets (λ _ t. Inv t) Always r
      created (ok _, t) h = h.0
      created (err e, t) h = tt
  after_insert_triple event payload false =
      triple_bind (λ _ t. Inv t)
        (triple_exec Inv (same_request codec event payload) (λ _ t. Inv t) Always
          (λ s v. compared s v (find (λ i. i.event_id == event.event_id) s.tables.inbox))
          (λ t v. tt))
        (λ same.
          triple_if same Inv (return tt) (throw identity_conflict) (λ _ t. Inv t) Always
            (λ e. triple_return Inv tt (λ _ t. Inv t) Always (λ t v. v))
            (λ e. triple_throw Inv identity_conflict (λ _ t. Inv t) Always (λ t v. tt)))
    where
      compared :
          (s : Session)
          → Inv s.tables
          → (row : Option InboxRow)
          → StatementMeets
              (λ _ t. Inv t)
              Always
              (
                elim row [
                  | none ↦ err (driver other_fault)
                  | some i ↦ ok (i.user_id == event.user_id && codec.jsonb_eq i.payload payload)
                ],
                s.tables,
              )
      compared s v none = tt
      compared s v (some i) = v

  -- `AcceptRequest` keeps the invariant.
  pub accept_request-Keeps :
      (event : Requested) (payload : String) → Keeps (accept_request codec gen_uuid event payload)
  unfolding accept_request
  accept_request-Keeps event payload =
      triple_transaction Inv _ _ Inv (λ t v. v) (λ _ t v. v)
        (triple_bind (Inserted event)
          (triple_exec Inv (insert_inbox event payload) (Inserted event) Always
            (λ s v. inserted (insert_inbox event payload s) (insert_inbox-Inv event payload s v))
            (λ t v. tt))
          (λ added. after_insert_triple event payload added))
    where
      inserted :
          (r : Result Bool × Tables)
          → StatementMeets (Inserted event) Inv r
          → StatementMeets (Inserted event) Always r
      inserted (ok b, t) h = h
      inserted (err e, t) h = tt
