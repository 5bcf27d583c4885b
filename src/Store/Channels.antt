-- ===== src/Store/Channels.antt =====
-- internal/notification/postgres/channels.go: the channels of a user.
use Prim.Native.Char.{code}
use feed_flow.Base.{
  Bool, List, String, [], any, count, find, if◌then◌else◌, leb, ltb, map, none, not, select, some,
  sort_by, starts_with, str_eq, true, update, ℕ, ◌&&◌, ◌++◌, ◌==◌, ◌||◌, ◌∷◌,
}
use feed_flow.Base.Text.{byte_len}
use feed_flow.Store.{
  ChannelRow, DbFault, DeliveryRow, M, Result, Session, StoreError, Tables, cancelled,
  channel_conflict, channel_not_found, driver, err, exec, ok, other_fault, pg_error, return, throw,
  transaction, unavailable, ◌>>=◌,
}
use feed_flow.Store.Rows.{check_violation, is_waiting, unique_violation}

abbrev pub destination_constraint : String
destination_constraint = "notification_channels_user_id_channel_type_destination_key"

-- `strings.HasPrefix(code, "08")`.
abbrev pub is_connection_code : String → Bool
is_connection_code code = starts_with code "08"

abbrev pub is_unavailable_code : String → Bool
is_unavailable_code code =
    is_connection_code code
    || str_eq code "53300"
    || str_eq code "57P01"
    || str_eq code "57P02"
    || str_eq code "57P03"

-- `channelStorageError`: the error that a fault of the driver is reported as.
unfoldable pub channel_storage_error : DbFault → StoreError
channel_storage_error (pg_error code constraint) =
    if str_eq code "23505" && str_eq constraint destination_constraint
    then channel_conflict
    else if is_unavailable_code code
    then unavailable
    else driver (pg_error code constraint)
channel_storage_error other_fault = driver other_fault
channel_storage_error _ = unavailable

abbrev pub classify : StoreError → StoreError
classify (driver f) = channel_storage_error f
classify e = e

-- A call whose driver errors go through `channelStorageError`.
unfoldable pub classified_call {ℓ} : {A : Type ℓ} → M A → M A
unfolding channel_storage_error
classified_call m s =
    let (r, s') = m s in elim r [ ok a ↦ (ok a, s') | err e ↦ (err (classify e), s') ]

-- `notification.Channel`.
pub record Channel : Type 0 where
  pub id : ℕ
  pub user_id : ℕ
  pub channel_type : String
  pub destination : String
  pub enabled : Bool

unfoldable pub scan_channel : ChannelRow → Channel
scan_channel c = record {
  id = c.id;
  user_id = c.user_id;
  channel_type = c.channel_type;
  destination = c.destination;
  enabled = c.enabled;
}

abbrev pub same_destination : Channel → ChannelRow → Bool
same_destination c row =
    row.user_id == c.user_id
    && str_eq row.channel_type c.channel_type
    && str_eq row.destination c.destination

abbrev pub new_channel : Channel → ℕ → ChannelRow
new_channel c db_now = record {
  id = c.id;
  user_id = c.user_id;
  channel_type = c.channel_type;
  destination = c.destination;
  enabled = true;
  created_at = db_now;
}

-- The `CHECK` constraints of notification_channels.
abbrev pub is_known_type : String → Bool
is_known_type channel_type = str_eq channel_type "email" || str_eq channel_type "telegram"

-- `btrim(s) = ''`.
abbrev pub is_all_spaces : String → Bool
is_all_spaces String.[] = true
is_all_spaces (String.◌∷◌ c s) = code c == 32 && is_all_spaces s

abbrev pub is_stored_destination : String → Bool
is_stored_destination destination =
    not (is_all_spaces destination) && leb (byte_len destination) 512

-- The rest of the insert: the unique constraints, and a new row whose `enabled` takes its default.
unfoldable pub store_channel : Channel → Session → Result Channel × Tables
unfolding scan_channel
store_channel c s =
    let t = s.tables in
    if any (λ o. o.id == c.id) t.channels
    then (err (driver (unique_violation "notification_channels_pkey")), t)
    else if any (same_destination c) t.channels
    then (err (driver (unique_violation destination_constraint)), t)
    else (
      ok (scan_channel (new_channel c s.db_now)),
      record t { channels = t.channels ++ new_channel c s.db_now ∷ [] },
    )

-- The `INSERT` of `CreateChannel`.
unfoldable pub insert_channel : Channel → Session → Result Channel × Tables
unfolding store_channel
insert_channel c s =
    if not (is_known_type c.channel_type)
    then (err (driver (check_violation "notification_channels_channel_type_check")), s.tables)
    else if not (is_stored_destination c.destination)
    then (err (driver (check_violation "notification_channels_destination_check")), s.tables)
    else store_channel c s

unfoldable pub create_channel : Channel → M Channel
unfolding classified_call insert_channel
create_channel c = classified_call (exec (insert_channel c))

abbrev pub oldest_channel : ChannelRow → ChannelRow → Bool
oldest_channel a b =
    ltb a.created_at b.created_at || (a.created_at == b.created_at && leb a.id b.id)

unfoldable pub select_channels : ℕ → Session → Result (List Channel) × Tables
unfolding scan_channel
select_channels user s = (
  ok (
      map scan_channel
        (sort_by oldest_channel (select (λ c. c.user_id == user) s.tables.channels))),
  s.tables,
)

unfoldable pub get_channels : ℕ → M (List Channel)
unfolding classified_call select_channels
get_channels user = classified_call (exec (select_channels user))

abbrev pub owns : ℕ → ℕ → ChannelRow → Bool
owns user channel c = c.id == channel && c.user_id == user

-- `UPDATE notification_channels SET enabled = $3 ... RETURNING`; no row is an error of its own.
unfoldable pub update_enabled : ℕ → ℕ → Bool → Session → Result Channel × Tables
unfolding scan_channel
update_enabled user channel enabled s =
    let t = s.tables in
    let change = λ (c : ChannelRow). record c { enabled = enabled } in
    elim (find (owns user channel) t.channels) [
      | none ↦ (err channel_not_found, t)
      | some c ↦ (
        ok (scan_channel (change c)),
        record t { channels = update (owns user channel) change t.channels },
      )
    ]

-- `SET status = 'cancelled' ... WHERE status IN ('pending', 'retry_wait')`.
abbrev pub waits_on : ℕ → ℕ → DeliveryRow → Bool
waits_on user channel d = d.channel_id == channel && d.user_id == user && is_waiting d.status

unfoldable pub cancelled_row : ℕ → DeliveryRow → DeliveryRow
cancelled_row db_now d = record d { status = cancelled; updated_at = db_now }

unfoldable pub cancel_deliveries : ℕ → ℕ → Session → Result (Unit {0}) × Tables
unfolding cancelled_row
cancel_deliveries user channel s =
    let t = s.tables in
    (
      ok tt,
      record t {
        deliveries = update (waits_on user channel) (cancelled_row s.db_now) t.deliveries;
      },
    )

unfoldable pub set_channel_enabled : ℕ → ℕ → Bool → M Channel
unfolding classified_call update_enabled cancel_deliveries
set_channel_enabled user channel enabled = classified_call (
    transaction (do
      c ← exec (update_enabled user channel enabled)
      _ ← (if enabled then return tt else exec (cancel_deliveries user channel))
      return c))

-- `DELETE FROM notification_channels`, with the number of rows.
unfoldable pub remove_channel : ℕ → ℕ → Session → Result ℕ × Tables
remove_channel user channel s =
    let t = s.tables in
    (
      ok (count (owns user channel) t.channels),
      record t { channels = select (λ c. not (owns user channel c)) t.channels },
    )

unfoldable pub delete_channel : ℕ → ℕ → M (Unit {0})
unfolding classified_call cancel_deliveries remove_channel
delete_channel user channel = classified_call (
    transaction (do
      _ ← exec (cancel_deliveries user channel)
      n ← exec (remove_channel user channel)
      (if n == 1 then return tt else throw channel_not_found)))
