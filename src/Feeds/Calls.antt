-- ===== src/Feeds/Calls.antt =====
-- What a call of internal/database/storage leaves: the tables of its statement, or those before.
use feed_flow.Base.{Bool, Option, false, inl, inr, none, refl, some, true, ◌≡◌, ◌⊎◌}
use feed_flow.Feeds.{
  FeedDb, FeedTables, Outside, StorageError, answer_call, call_db, settle_call, tables_after,
}
use feed_flow.Store.{DbFault}

settle_call-inr {ℓ} :
    {A : Type ℓ} (db : FeedDb) (r : StorageError ⊎ (A × FeedTables)) {a : A}
    → (settle_call db r).0 ≡ inr a
    → (t : FeedTables) × (r ≡ inr (a, t)) × ((settle_call db r).1.tables ≡ t)
unfolding settle_call
settle_call-inr db (inl e) h = cc
settle_call-inr db (inr (a, t)) h = (t, cc, refl)

answer_call-inr {ℓ} :
    {A : Type ℓ} (db : FeedDb) (r : StorageError ⊎ (A × FeedTables)) (fault : Option DbFault)
    (was_done : Bool) {a : A}
    → (answer_call db r fault was_done).0 ≡ inr a
    → (t : FeedTables) × (r ≡ inr (a, t)) × ((answer_call db r fault was_done).1.tables ≡ t)
unfolding answer_call
answer_call-inr db r none was_done h = settle_call-inr db r h
answer_call-inr db r (some f) was_done h = cc

-- What holds of the tables before and of those that the statement makes, holds after the call,
-- whether it meets a fault or not.
answer_call-tables {ℓ} :
    {A : Type ℓ} (P : FeedTables → Type 0) (db : FeedDb) (r : StorageError ⊎ (A × FeedTables))
    (fault : Option DbFault) (was_done : Bool)
    → P db.tables
    → ((a : A) (t : FeedTables) → r ≡ inr (a, t) → P t)
    → P (answer_call db r fault was_done).1.tables
unfolding answer_call settle_call tables_after
answer_call-tables P db (inl e) none was_done h k = h
answer_call-tables P db (inr (a, t)) none was_done h k = k a t refl
answer_call-tables P db r (some f) false h k = h
answer_call-tables P db (inl e) (some f) true h k = h
answer_call-tables P db (inr (a, t)) (some f) true h k = k a t refl

module _ {ℓ} {A : Type ℓ} (o : Outside) (statement : FeedTables → StorageError ⊎ (A × FeedTables))
    (db : FeedDb) where
  pub call_db-inr :
      {a : A}
      → (call_db o statement db).0 ≡ inr a
      → (t : FeedTables) × (statement db.tables ≡ inr (a, t))
        × ((call_db o statement db).1.tables ≡ t)
  unfolding call_db
  call_db-inr h =
      answer_call-inr db (statement db.tables) (o.fault db.calls) (o.was_done db.calls) h

  pub call_db-tables :
      (P : FeedTables → Type 0)
      → P db.tables
      → ((a : A) (t : FeedTables) → statement db.tables ≡ inr (a, t) → P t)
      → P (call_db o statement db).1.tables
  unfolding call_db
  call_db-tables P h k =
      answer_call-tables P db (statement db.tables) (o.fault db.calls) (o.was_done db.calls) h k
