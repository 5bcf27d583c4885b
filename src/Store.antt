-- ===== src/Store.antt =====
-- internal/notification/postgres: the notification database and its transactions. The tables are
-- those of internal/notification/migrations/sql, each a list of rows; a statement is a function on
-- the tables, run by `exec`, and a transaction is `transaction`: the tables are put back when its
-- body fails, and also when its commit fails, unless the commit was carried out and only its answer
-- is lost. Instants are nanoseconds, UUIDs are numbers with 0 for `uuid.Nil`.
pub mod Triples
pub mod Rows
pub mod Inbox
pub mod Claim
pub mod Outcomes
pub mod Recovery
pub mod Channels
pub mod Invariant
pub mod Keeps
pub mod Tokens
pub mod FanOut
pub mod History
pub mod Runs
pub mod Redelivery
pub mod Resumption
pub mod Settlement
use feed_flow.Base.{
  Bool, List, Option, String, [], false, if◌then◌else◌, length, none, some, ℕ, ◌∷◌,
}
use feed_flow.Base.Int.{ℤ}

pub data DeliveryStatus : Type 0 where
  pending processing retry_wait sent failed cancelled : DeliveryStatus

pub data DispatchKind : Type 0 where
  retry dlq : DispatchKind

-- notification_channels.
pub record ChannelRow : Type 0 where
  pub id : ℕ
  pub user_id : ℕ
  pub channel_type : String
  pub destination : String
  pub enabled : Bool
  pub created_at : ℕ

-- notification_inbox.
pub record InboxRow : Type 0 where
  pub event_id : ℕ
  pub user_id : ℕ
  pub event_type : String
  pub schema_version : ℤ
  pub template : String
  pub payload : String
  pub occurred_at : ℕ

-- notification_deliveries.
pub record DeliveryRow : Type 0 where
  pub id : ℕ
  pub event_id : ℕ
  pub user_id : ℕ
  pub channel_id : ℕ
  pub status : DeliveryStatus
  pub attempts : ℕ
  pub available_at : ℕ
  pub claim_token : Option ℕ
  pub lease_expires_at : Option ℕ
  pub sent_at : Option ℕ
  pub last_error_code : Option String
  pub created_at : ℕ
  pub updated_at : ℕ

-- notification_dispatch_outbox.
pub record DispatchRow : Type 0 where
  pub id : ℕ
  pub delivery_id : ℕ
  pub user_id : ℕ
  pub attempt_no : ℕ
  pub kind : DispatchKind
  pub target_topic : String
  pub payload : String
  pub available_at : ℕ
  pub published_at : Option ℕ
  pub publish_attempts : ℕ
  pub created_at : ℕ

-- `drawn` counts the random UUIDs that the database has made.
pub record Tables : Type 0 where
  pub channels : List ChannelRow
  pub inbox : List InboxRow
  pub deliveries : List DeliveryRow
  pub dispatch : List DispatchRow
  pub drawn : ℕ

-- Why a call of the driver fails, as `channelStorageError` tells the causes apart.
pub data DbFault : Type 0 where
  pg_error : String → String → DbFault
  closed_pool deadline_exceeded connection_eof connect_error network_fault pg_timeout : DbFault
  other_fault : DbFault

pub data StoreError : Type 0 where
  driver : DbFault → StoreError
  stale_claim identity_conflict : StoreError
  channel_not_found channel_conflict unavailable : StoreError
  invalid_limit bad_payload context_cancelled publish_failed nil_record : StoreError

pub data Result {ℓ} (A : Type ℓ) : Type ℓ where
  ok : A → Result A
  err : StoreError → Result A

-- A connection: the tables, the time that `NOW()` returns, the time that `time.Now()` returns, the
-- rows that other transactions hold locked, and what becomes of the driver's next calls (`none` is
-- a call that works; past the end of the list all work). `lost n` says whether a `Commit` that
-- reports a fault, with n entries behind it, was carried out and only its answer is lost.
pub record Session : Type 0 where
  pub tables : Tables
  pub db_now : ℕ
  pub clock_now : ℕ
  pub locked : ℕ → Bool
  pub faults : List (Option DbFault)
  pub lost : ℕ → Bool

-- A connection on which every call works.
abbrev pub calm : Tables → ℕ → ℕ → (ℕ → Bool) → Session
calm t db_now clock_now locked = record {
  tables = t;
  db_now = db_now;
  clock_now = clock_now;
  locked = locked;
  faults = [];
  lost = λ n. false;
}

abbrev pub M {ℓ} : Type ℓ → Type ℓ
M A = Session → Result A × Session

infixl 5 ◌>>=◌ ◌>>◌
abbrev pub ◌>>=◌ {ℓ κ} : {A : Type ℓ} {B : Type κ} → M A → (A → M B) → M B
◌>>=◌ m f s = let (r, s') = m s in elim r [ ok a ↦ f a s' | err e ↦ (err e, s') ]

abbrev pub ◌>>◌ {ℓ κ} : {A : Type ℓ} {B : Type κ} → M A → M B → M B
m >> k = m >>= λ _. k

abbrev pub return {ℓ} : {A : Type ℓ} → A → M A
return a s = (ok a, s)

abbrev pub throw {ℓ} : {A : Type ℓ} → StoreError → M A
throw e s = (err e, s)

-- One call of the driver: it meets the next fault or runs its statement.
unfoldable pub exec {ℓ} : {A : Type ℓ} → (Session → Result A × Tables) → M A
exec statement s = elim s.faults [
  | [] ↦ let (r, t) = statement s in (r, record s { tables = t })
  | some f ∷ rest ↦ (err (driver f), record s { faults = rest })
  | none ∷ rest ↦ let (r, t) = statement s in (r, record s { tables = t; faults = rest })
]

-- `Begin` and `Commit` touch no table themselves.
abbrev pub round_trip : M (Unit {0})
round_trip = exec (λ s. (ok tt, s.tables))

-- `Commit`: where it reports a fault, the tables are those before the transaction, or those of its
-- body if it was carried out all the same.
unfoldable pub commit_body {ℓ} : {A : Type ℓ} → Tables → A → M A
commit_body before a s =
    let (r, s') = round_trip s in
    elim r [
      | ok _ ↦ (ok a, s')
      | err e ↦
          (err e, record s' { tables = if s'.lost (length s'.faults) then s'.tables else before })
    ]

-- What the deferred `Rollback` leaves after an error of the body, or `Commit`.
unfoldable pub close_transaction {ℓ} :
    {A : Type ℓ} → Tables → Result A × Session → Result A × Session
unfolding commit_body
close_transaction before (err e, s) = (err e, record s { tables = before })
close_transaction before (ok a, s) = commit_body before a s

-- A body between `Begin` and `Commit`.
unfoldable pub transaction {ℓ} : {A : Type ℓ} → M A → M A
unfolding close_transaction
transaction body s = close_transaction s.tables ((do round_trip; body) s)
