-- ===== src/Feeds.antt =====
-- internal/database/storage: the database of users, feeds, follows, posts and outbox events. The
-- tables are those of internal/database/migrations/sql, each a list of rows, with their unique and
-- foreign keys; the lengths of VARCHAR columns are not limited. Each operation is one call of the
-- driver: it meets a fault, or runs a statement. Instants are nanoseconds and count from Go's zero
-- time, UUIDs are numbers in the order of their bytes.
pub mod Accounts
pub mod Reading
pub mod Posts
pub mod Calls
pub mod Saved
pub mod Announced
pub mod Served
pub mod Order
pub mod Slices
use feed_flow.Base.{Bool, List, Option, String, if◌then◌else◌, inl, inr, none, some, ℕ, ◌+◌, ◌⊎◌}
use feed_flow.ChannelApi.{answer, posts}
use feed_flow.Relay.{OutboxRow}
use feed_flow.Store.{DbFault, cancelled, pg_error}

-- users, `model.User`.
pub record UserRow : Type 0 where
  pub id : ℕ
  pub created_at : ℕ
  pub updated_at : ℕ
  pub name : String
  pub api_key : String

-- feeds, `model.Feed`.
pub record FeedRow : Type 0 where
  pub id : ℕ
  pub created_at : ℕ
  pub updated_at : ℕ
  pub name : String
  pub url : String
  pub last_fetched_at : Option ℕ

-- feed_follows, `model.FeedFollows`.
pub record FollowRow : Type 0 where
  pub id : ℕ
  pub created_at : ℕ
  pub updated_at : ℕ
  pub user_id : ℕ
  pub feed_id : ℕ

-- posts, `model.Post`.
pub record PostRow : Type 0 where
  pub id : ℕ
  pub created_at : ℕ
  pub updated_at : ℕ
  pub title : String
  pub description : Option String
  pub published_at : ℕ
  pub url : String
  pub feed_id : ℕ

-- outbox_events: the columns that the relay reads, and the post that the event is about.
pub record EventRow : Type 0 where
  pub aggregate_id : ℕ
  pub outbox : OutboxRow

pub record FeedTables : Type 0 where
  pub users : List UserRow
  pub feeds : List FeedRow
  pub follows : List FollowRow
  pub posts : List PostRow
  pub events : List EventRow

pub data StorageError : Type 0 where
  driver_fault : DbFault → StorageError
  no_rows page_limit : StorageError

-- What the outside decides, for each call of the driver by its number: the fault that it meets and
-- whether its statement was carried out when the fault arose, the time of `time.Now()`, whether the context is cancelled before it, the UUID of `uuid.New()`
-- and those of `gen_random_uuid()` for the rows of one statement.
pub record Outside : Type 0 where
  pub fault : ℕ → Option DbFault
  pub was_done : ℕ → Bool
  pub clock : ℕ → ℕ
  pub cancelled : ℕ → Bool
  pub new_uuid : ℕ → ℕ
  pub gen_uuid : ℕ → ℕ → ℕ

-- A database, and the number of calls that it has had.
pub record FeedDb : Type 0 where
  pub tables : FeedTables
  pub calls : ℕ

-- A statement that fails changes no table.
unfoldable pub settle_call {ℓ} :
    {A : Type ℓ} → FeedDb → StorageError ⊎ (A × FeedTables) → (StorageError ⊎ A) × FeedDb
settle_call db (inl e) = (inl e, record db { calls = db.calls + 1 })
settle_call db (inr (a, t)) = (inr a, record { tables = t; calls = db.calls + 1 })

-- The tables that a statement leaves.
unfoldable pub tables_after {ℓ} :
    {A : Type ℓ} → FeedTables → StorageError ⊎ (A × FeedTables) → FeedTables
tables_after t (inl e) = t
tables_after t (inr (a, new)) = new

-- A call meets its fault, or its statement's answer.
unfoldable pub answer_call {ℓ} :
    {A : Type ℓ}
    → FeedDb
    → StorageError ⊎ (A × FeedTables)
    → Option DbFault
    → Bool
    → (StorageError ⊎ A) × FeedDb
unfolding settle_call tables_after
answer_call db answer none was_done = settle_call db answer
answer_call db answer (some f) was_done = (
  inl (driver_fault f),
  record {
    tables = if was_done then tables_after db.tables answer else db.tables;
    calls = db.calls + 1;
  },
)

-- One call of the driver.
unfoldable pub call_db {ℓ} :
    {A : Type ℓ}
    → Outside
    → (FeedTables → StorageError ⊎ (A × FeedTables))
    → FeedDb
    → (StorageError ⊎ A) × FeedDb
unfolding answer_call
call_db o statement db =
    answer_call db (statement db.tables) (o.fault db.calls) (o.was_done db.calls)

-- What PostgreSQL answers when a row breaks a key.
abbrev pub key_violation : String → StorageError
key_violation constraint = driver_fault (pg_error "23505" constraint)

abbrev pub foreign_key_violation : String → StorageError
foreign_key_violation constraint = driver_fault (pg_error "23503" constraint)
