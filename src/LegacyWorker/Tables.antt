-- ===== src/LegacyWorker/Tables.antt =====
-- The tables that internal/notification/postgres/deliveries.go and outbox.go read and write, on the
-- notification_deliveries of internal/database/migrations. The foreign keys on posts, users and
-- channels hold by what the statements join.
use feed_flow.Base.{Bool, List, Option, String, if◌then◌else◌, inl, none, some, ℕ, ◌==◌, ◌⊎◌}
use feed_flow.Feeds.{FeedTables}
use feed_flow.Store.{ChannelRow, DbFault, DeliveryStatus}

-- notification_deliveries.
pub record LegacyRow : Type 0 where
  pub id : ℕ
  pub user_id : ℕ
  pub post_id : ℕ
  pub channel_id : ℕ
  pub status : DeliveryStatus
  pub attempts : ℕ
  pub available_at : ℕ
  pub sent_at : Option ℕ
  pub last_error : Option String
  pub created_at : ℕ
  pub updated_at : ℕ

-- The tables that the repository reads and writes.
pub record LegacyTables : Type 0 where
  pub source : FeedTables
  pub channels : List ChannelRow
  pub deliveries : List LegacyRow

-- What a call meets: the time of the database, a fault, whether the statement was carried out when
-- its fault arose, the rows that others hold locked and the UUIDs that `gen_random_uuid()` makes.
pub record Moment : Type 0 where
  pub db_now : ℕ
  pub fault : Option DbFault
  pub was_done : Bool
  pub locked : ℕ → Bool
  pub gen_uuid : ℕ → ℕ

pub data LegacyError : Type 0 where
  bad_limit not_processing : LegacyError
  database_error : DbFault → LegacyError

-- A statement under its fault.
abbrev pub run_statement {ℓ} :
    {A : Type ℓ}
    → Moment
    → (LegacyTables → (LegacyError ⊎ A) × LegacyTables)
    → LegacyTables
    → (LegacyError ⊎ A) × LegacyTables
run_statement w statement t = elim w.fault [
  | none ↦ statement t
  | some f ↦ (inl (database_error f), if w.was_done then (statement t).1 else t)
]

abbrev pub is_row : ℕ → LegacyRow → Bool
is_row i d = d.id == i
