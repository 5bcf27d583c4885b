-- ===== src/Store/Keeps/Disabled.antt =====
-- `SetChannelEnabled` and `DeleteChannel` of internal/notification/postgres/channels.go.
use feed_flow.Base.{
  All, All-mono, All-update, Bool, Distinct, Option, arith, false, find, if◌then◌else◌, none, some,
  true, update, ℕ, ◌≡◌,
}
use feed_flow.Store.{
  ChannelRow, DeliveryRow, Session, Tables, channel_not_found, err, exec, ok, return,
}
use feed_flow.Store.Channels.{
  Channel, cancel_deliveries, cancelled_row, owns, scan_channel, set_channel_enabled,
  update_enabled, waits_on,
}
use feed_flow.Store.Invariant.{
  Inv, IsConsistent, IsDeliverable, IsReported, RowOk, clash_id, clash_target, has_inbox,
  unique_ids-update, unique_targets-update,
}
use feed_flow.Store.Keeps.{Keeps}
use feed_flow.Store.Keeps.Channels.{
  IsIdle, cancel-IsIdle, cancelled_row-KeepsKeys, channels-Inv, disabled_live, enabled_live,
  triple_classified, with_enabled,
}
use feed_flow.Store.Triples.{
  Always, StatementMeets, Triple, triple_bind, triple_exec, triple_mono, triple_return,
  triple_transaction,
}

-- Right but for the waiting rows of the channel, which are to be cancelled.
pub record HalfOk (user channel : ℕ) (t : Tables) (d : DeliveryRow) : Type 0 where
  pub consistent : IsConsistent d
  pub reported : IsReported t.dispatch d
  pub deliverable : waits_on user channel d ≡ false → IsDeliverable t.channels d
  pub requested : has_inbox t.inbox d ≡ true

abbrev pub Half : ℕ → ℕ → Tables → Type 0
Half user channel t =
    All (HalfOk user channel t) t.deliveries
    × Distinct clash_id t.deliveries
    × Distinct clash_target t.deliveries

pub Half-of_Inv : (user channel : ℕ) (t : Tables) → Inv t → Half user channel t
Half-of_Inv user channel t v = (
  All-mono _ _ t.deliveries
      (λ d r. record {
        consistent = r.consistent;
        reported = r.reported;
        deliverable = λ _. r.deliverable;
        requested = r.requested;
      })
      v.rows,
  v.unique_ids,
  v.unique_targets,
)

disabled-HalfOk :
    (user channel : ℕ) (t : Tables) (d : DeliveryRow)
    → RowOk t.channels t.inbox t.dispatch d
    → HalfOk user channel
        (record t { channels = update (owns user channel) (with_enabled false) t.channels })
        d
disabled-HalfOk user channel t d r = record {
  consistent = r.consistent;
  reported = r.reported;
  deliverable = λ idle w. disabled_live user channel d t.channels (ground arith) (r.deliverable w);
  requested = r.requested;
}

cancelled-RowOk :
    (user channel now : ℕ) (t : Tables) (d : DeliveryRow)
    → HalfOk user channel t d
    → waits_on user channel d ≡ true
    → RowOk t.channels t.inbox t.dispatch (cancelled_row now d)
unfolding cancelled_row
cancelled-RowOk user channel now t d r h = ground arith

untouched-RowOk :
    (user channel : ℕ) (t : Tables) (d : DeliveryRow)
    → HalfOk user channel t d
    → waits_on user channel d ≡ false
    → RowOk t.channels t.inbox t.dispatch d
untouched-RowOk user channel t d r h = record {
  consistent = r.consistent;
  reported = r.reported;
  deliverable = r.deliverable h;
  requested = r.requested;
}

-- What the cancellation promises.
abbrev pub Cancelled : ℕ → ℕ → Tables → Type 0
Cancelled user channel t = Inv t × IsIdle user channel t

cancel-Cancelled :
    (user channel now : ℕ) (t : Tables)
    → Half user channel t
    → Cancelled user channel
        (record t { deliveries = update (waits_on user channel) (cancelled_row now) t.deliveries })
cancel-Cancelled user channel now t (rows, ids, targets) = (
  record {
    rows =
        All-update _ _ (waits_on user channel) (cancelled_row now) t.deliveries
          (λ d r h. cancelled-RowOk user channel now t d r h)
          (λ d r h. untouched-RowOk user channel t d r h) rows;
    unique_ids =
        unique_ids-update (waits_on user channel) (cancelled_row now) (cancelled_row-KeepsKeys now)
          t.deliveries ids;
    unique_targets =
        unique_targets-update (waits_on user channel) (cancelled_row now)
          (cancelled_row-KeepsKeys now) t.deliveries targets;
  },
  cancel-IsIdle user channel now t.deliveries,
)

pub cancel_triple :
    (user channel : ℕ)
    → Triple
        (Half user channel)
        (exec (cancel_deliveries user channel))
        (λ _ t. Cancelled user channel t)
        Always
unfolding cancel_deliveries
cancel_triple user channel =
    triple_exec _ _ _ Always (λ s p. cancel-Cancelled user channel s.db_now s.tables p) (λ t p. tt)

-- What `SetChannelEnabled` has done when it succeeds.
abbrev pub Switched : ℕ → ℕ → Bool → Tables → Type 0
Switched user channel true t = Inv t
Switched user channel false t = Cancelled user channel t

abbrev Updated : ℕ → ℕ → Bool → Tables → Type 0
Updated user channel true t = Inv t
Updated user channel false t = Half user channel t

update_enabled-Updated :
    (user channel : ℕ) (b : Bool) (t : Tables)
    → Inv t
    → Updated user channel b
        (record t { channels = update (owns user channel) (with_enabled b) t.channels })
update_enabled-Updated user channel true t v =
    channels-Inv t _ (λ d h. enabled_live user channel d t.channels h) v
update_enabled-Updated user channel false t v = (
  All-mono _ _ t.deliveries (λ d r. disabled-HalfOk user channel t d r) v.rows,
  v.unique_ids,
  v.unique_targets,
)

update_enabled_triple :
    (user channel : ℕ) (b : Bool)
    → Triple Inv (exec (update_enabled user channel b)) (λ _. Updated user channel b) Always
unfolding update_enabled
update_enabled_triple user channel b =
    triple_exec Inv _ _ Always (λ s v. ground_case s v (find (owns user channel) s.tables.channels))
      (λ t v. tt)
  where
    ground_case :
        (s : Session)
        → Inv s.tables
        → (o : Option ChannelRow)
        → StatementMeets {A = Channel}
            (λ _. Updated user channel b)
            Always
            (elim o [
              | none ↦ (err channel_not_found, s.tables)
              | some c ↦ (
                ok (scan_channel (with_enabled b c)),
                record s.tables {
                  channels = update (owns user channel) (with_enabled b) s.tables.channels;
                },
              )
            ])
    ground_case s v none = tt
    ground_case s v (some c) = update_enabled-Updated user channel b s.tables v

switch_triple :
    (user channel : ℕ) (b : Bool)
    → Triple
        (Updated user channel b)
        (if b then return tt else exec (cancel_deliveries user channel))
        (λ _. Switched user channel b)
        Always
switch_triple user channel true = triple_return _ tt _ Always (λ t v. v)
switch_triple user channel false = cancel_triple user channel

Switched-Inv : (user channel : ℕ) (b : Bool) (t : Tables) → Switched user channel b t → Inv t
Switched-Inv user channel true t v = v
Switched-Inv user channel false t c = c.0

-- `SetChannelEnabled` keeps the invariant, and a channel that it disables has no delivery waiting.
pub set_channel_enabled_triple :
    (user channel : ℕ) (b : Bool)
    → Triple Inv (set_channel_enabled user channel b) (λ _. Switched user channel b) Inv
unfolding set_channel_enabled
set_channel_enabled_triple user channel b = triple_classified _ Inv (
    triple_transaction Inv _ _ Inv (λ t v. v) (λ _ t r. Switched-Inv user channel b t r)
      (triple_bind (λ _. Updated user channel b) (update_enabled_triple user channel b)
        (λ c.
          triple_bind (λ _. Switched user channel b) (switch_triple user channel b)
            (λ _. triple_return _ c _ Always (λ t v. v)))))

pub set_channel_enabled-Keeps :
    (user channel : ℕ) (b : Bool) → Keeps (set_channel_enabled user channel b)
set_channel_enabled-Keeps user channel b =
    triple_mono _ (λ _ t. Inv t) Inv Inv (λ _ t h. Switched-Inv user channel b t h) (λ t v. v)
      (set_channel_enabled_triple user channel b)
