-- ===== src/Store/Rows.antt =====
-- The rows that the statements of internal/notification/postgres test and write.
use feed_flow.Base.{
  Bool, List, Option, String, [], any, false, if◌then◌else◌, ltb, none, some, true, ℕ, ◌&&◌, ◌++◌,
  ◌==◌, ◌∷◌,
}
use feed_flow.Store.{
  ChannelRow, DbFault, DeliveryRow, DeliveryStatus, DispatchKind, DispatchRow, dlq, failed, pending,
  pg_error, processing, retry, retry_wait, sent,
}

abbrev pub is_pending : DeliveryStatus → Bool
is_pending pending = true
is_pending _ = false

abbrev pub is_processing : DeliveryStatus → Bool
is_processing processing = true
is_processing _ = false

abbrev pub is_retry_wait : DeliveryStatus → Bool
is_retry_wait retry_wait = true
is_retry_wait _ = false

abbrev pub is_sent : DeliveryStatus → Bool
is_sent sent = true
is_sent _ = false

abbrev pub is_failed : DeliveryStatus → Bool
is_failed failed = true
is_failed _ = false

-- `status IN ('pending', 'retry_wait')`.
abbrev pub is_waiting : DeliveryStatus → Bool
is_waiting pending = true
is_waiting retry_wait = true
is_waiting _ = false

abbrev pub same_kind : DispatchKind → DispatchKind → Bool
same_kind retry retry = true
same_kind dlq dlq = true
same_kind _ _ = false

-- A column that may be NULL equals a value.
abbrev pub is_value : Option ℕ → ℕ → Bool
is_value none v = false
is_value (some w) v = w == v

abbrev pub is_before : Option ℕ → ℕ → Bool
is_before none t = false
is_before (some w) t = ltb w t

abbrev pub or_zero : Option ℕ → ℕ
or_zero none = 0
or_zero (some n) = n

-- The enabled channel that a delivery goes to, of the delivery's user.
abbrev pub delivers_to : DeliveryRow → ChannelRow → Bool
delivers_to d c = c.id == d.channel_id && c.user_id == d.user_id

abbrev pub serves : DeliveryRow → ChannelRow → Bool
serves d c = delivers_to d c && c.enabled

abbrev pub has_live_channel : List ChannelRow → DeliveryRow → Bool
has_live_channel channels d = any (serves d) channels

-- The key of the constraint on (delivery_id, kind, attempt_no).
abbrev pub same_dispatch : ℕ → DispatchKind → ℕ → DispatchRow → Bool
same_dispatch delivery kind attempt o =
    o.delivery_id == delivery && same_kind o.kind kind && o.attempt_no == attempt

abbrev pub has_dispatch : List DispatchRow → DispatchKind → DeliveryRow → Bool
has_dispatch dispatch kind d = any (same_dispatch d.id kind d.attempts) dispatch

-- `INSERT ... ON CONFLICT (delivery_id, kind, attempt_no) DO NOTHING`.
abbrev pub add_dispatch : DispatchRow → List DispatchRow → List DispatchRow
add_dispatch o dispatch =
    if any (same_dispatch o.delivery_id o.kind o.attempt_no) dispatch
    then dispatch
    else dispatch ++ o ∷ []

-- The key of the constraint on (event_id, channel_id).
abbrev pub same_target : ℕ → ℕ → DeliveryRow → Bool
same_target event channel d = d.event_id == event && d.channel_id == channel

abbrev pub has_id : ℕ → DeliveryRow → Bool
has_id i d = d.id == i

-- What PostgreSQL answers when a row breaks a unique constraint.
abbrev pub unique_violation : String → DbFault
unique_violation constraint = pg_error "23505" constraint

-- And when it breaks a `CHECK`.
abbrev pub check_violation : String → DbFault
check_violation constraint = pg_error "23514" constraint
