-- ===== src/Store/Keeps/RecoveredRows.antt =====
-- The rows that `RecoverExpired` of internal/notification/postgres/pipeline.go writes.
use feed_flow.Base.{
  All, All-mono, All-update, Bool, Bool-cases, Distinct, List, String, [], arith, false, inl, inr,
  leb, refl, true, update, ℕ, ◌∷◌, ◌≡◌,
}
use feed_flow.Store.{
  ChannelRow, DeliveryRow, DeliveryStatus, DispatchRow, InboxRow, Tables, cancelled, dlq, failed,
  pending,
}
use feed_flow.Store.Invariant.{
  Inv, KeepsKeys, RowOk, clash_id, clash_target, unique_ids-update, unique_targets-update,
}
use feed_flow.Store.Keeps.Lookups.{Answers, IsActive}
use feed_flow.Store.Keeps.Owed.{Owed, longer_dispatch-RowOk, own_dispatch}
use feed_flow.Store.Recovery.{recovered_row, recovered_status}
use feed_flow.Store.Rows.{
  has_dispatch, has_id, has_live_channel, is_failed, is_processing, is_retry_wait, is_sent,
  is_waiting,
}

abbrev pub IsStill : DeliveryRow → Tables → Type 0
IsStill d t =
    All (λ x. has_id d.id x ≡ true → (is_sent x.status ≡ false) × (x.attempts ≡ d.attempts))
      t.deliveries

abbrev pub Recovering : List DeliveryRow → Tables → Type 0
Recovering ds t = Inv t × All (λ d. IsStill d t) ds

recovered_row-KeepsKeys :
    (now : ℕ) (status : DeliveryStatus) (code : String) → KeepsKeys (recovered_row now status code)
unfolding recovered_row
recovered_row-KeepsKeys now status code = record {
  keeps_id = λ d. refl;
  keeps_event = λ d. refl;
  keeps_channel = λ d. refl;
}

-- The update of a recovery, for each status that it may write.
recovered-RowOk :
    (now : ℕ) (status : DeliveryStatus) (code : String) (channels : List ChannelRow)
    (inbox : List InboxRow) (old dispatch : List DispatchRow) (d : DeliveryRow)
    → RowOk channels inbox old d
    → is_sent d.status ≡ false
    → is_processing status ≡ false
    → is_sent status ≡ false
    → is_retry_wait status ≡ false
    → (is_waiting status ≡ true → has_live_channel channels d ≡ true)
    → (is_failed status ≡ true → has_dispatch dispatch dlq d ≡ true)
    → RowOk channels inbox dispatch (recovered_row now status code d)
unfolding recovered_row
recovered-RowOk now status code channels inbox old dispatch d r unsent p q w live paid = record {
  consistent = ground arith;
  reported = record { retry_reported = λ h. ground arith; failure_reported = paid };
  deliverable = live;
  requested = r.requested;
}

abbrev Facts : ℕ → Bool → ℕ → Tables → DeliveryRow → Type 0
Facts i active n t d =
    RowOk t.channels t.inbox t.dispatch d
    × (has_id i d ≡ true → (is_sent d.status ≡ false) × (d.attempts ≡ n))
    × (active ≡ true → has_id i d ≡ true → has_live_channel t.channels d ≡ true)

All-Facts :
    (i : ℕ) (active : Bool) (n : ℕ) (t : Tables) (ds : List DeliveryRow)
    → All (RowOk t.channels t.inbox t.dispatch) ds
    → All (λ x. has_id i x ≡ true → (is_sent x.status ≡ false) × (x.attempts ≡ n)) ds
    → (active ≡ true → All (λ d. has_id i d ≡ true → has_live_channel t.channels d ≡ true) ds)
    → All (Facts i active n t) ds
All-Facts i active n t [] r s live = tt
All-Facts i active n t (d ∷ ds) r s live =
    ((r.0, s.0, λ a. (live a).0), All-Facts i active n t ds r.1 s.1 (λ a. (live a).1))

Answers-live :
    (i : ℕ) (active : Bool) (t : Tables) → Answers i active t → active ≡ true → IsActive i t
Answers-live i true t h e = h
Answers-live i false t h e = cc

-- The table after the update of one expired row owes a dead letter if the row has failed.
abbrev pub Debt : DeliveryRow → DeliveryStatus → Tables → Type 0
Debt d failed t = Owed d.id dlq d.attempts t
Debt d _ t = Inv t

-- The other rows that are still to be recovered stay as they were.
IsStill-update :
    (d e : DeliveryRow) (now : ℕ) (status : DeliveryStatus) (code : String) (t : Tables)
    → is_sent status ≡ false
    → IsStill e t
    → IsStill e (record t {
      deliveries = update (has_id d.id) (recovered_row now status code) t.deliveries;
    })
unfolding recovered_row
IsStill-update d e now status code t unsent h =
    All-update _ _ (has_id d.id) (recovered_row now status code) t.deliveries
      (λ x f _ same. (unsent, (f same).1)) (λ x f _. f) h

abbrev pub updated : DeliveryRow → ℕ → String → Tables → DeliveryStatus → Tables
updated d now code t status = record t {
  deliveries = update (has_id d.id) (recovered_row now status code) t.deliveries;
}

module _ (d : DeliveryRow) (active : Bool) (now : ℕ) (code : String) (t : Tables)
    (known : Inv t × IsStill d t × Answers d.id active t) where
  facts : All (Facts d.id active d.attempts t) t.deliveries
  facts =
      All-Facts d.id active d.attempts t t.deliveries known.0.rows known.1
        (Answers-live d.id active t known.2)

  updated_ids :
      (status : DeliveryStatus) → Distinct clash_id (updated d now code t status).deliveries
  updated_ids status =
      unique_ids-update (has_id d.id) (recovered_row now status code)
        (recovered_row-KeepsKeys now status code) t.deliveries known.0.unique_ids

  updated_targets :
      (status : DeliveryStatus) → Distinct clash_target (updated d now code t status).deliveries
  updated_targets status =
      unique_targets-update (has_id d.id) (recovered_row now status code)
        (recovered_row-KeepsKeys now status code) t.deliveries known.0.unique_targets

  updated_failed : Owed d.id dlq d.attempts (updated d now code t failed)
  updated_failed = (
    All-update (Facts d.id active d.attempts t) _ (has_id d.id) (recovered_row now failed code)
        t.deliveries
        (λ x f h dispatch more paid.
          recovered-RowOk now failed code t.channels t.inbox t.dispatch dispatch x f.0 (f.1 h).0
            refl refl refl (λ w. cc)
            (λ _. own_dispatch x d.id d.attempts dlq dispatch (ground arith) (f.1 h).1 paid))
        (λ x f h dispatch more paid.
          longer_dispatch-RowOk t.channels t.inbox t.dispatch dispatch x more f.0)
        facts,
    updated_ids failed,
    updated_targets failed,
  )

  updated_pending : active ≡ true → Inv (updated d now code t pending)
  updated_pending a = record {
    rows =
        All-update (Facts d.id active d.attempts t) _ (has_id d.id) (recovered_row now pending code)
          t.deliveries
          (λ x f h.
            recovered-RowOk now pending code t.channels t.inbox t.dispatch t.dispatch x f.0
              (f.1 h).0 refl refl refl (λ _. f.2 a h) (λ w. cc))
          (λ x f h. f.0) facts;
    unique_ids = updated_ids pending;
    unique_targets = updated_targets pending;
  }

  updated_cancelled : Inv (updated d now code t cancelled)
  updated_cancelled = record {
    rows =
        All-update (Facts d.id active d.attempts t) _ (has_id d.id)
          (recovered_row now cancelled code) t.deliveries
          (λ x f h.
            recovered-RowOk now cancelled code t.channels t.inbox t.dispatch t.dispatch x f.0
              (f.1 h).0 refl refl refl (λ w. cc) (λ w. cc))
          (λ x f h. f.0) facts;
    unique_ids = updated_ids cancelled;
    unique_targets = updated_targets cancelled;
  }

-- The update of `recover_one`, whatever status it chooses.
pub updated-Debt :
    (d : DeliveryRow) (active : Bool) (now max_attempts : ℕ) (code : String) (t : Tables)
    → Inv t × IsStill d t × Answers d.id active t
    → Debt d
        (recovered_status active d.attempts max_attempts)
        (updated d now code t (recovered_status active d.attempts max_attempts))
updated-Debt d false now max_attempts code t known = updated_cancelled d false now code t known
updated-Debt d true now max_attempts code t known =
    elim (Bool-cases (leb max_attempts d.attempts)) [
      | inl e ↦ rw e (updated_failed d true now code t known)
      | inr e ↦ rw e (updated_pending d true now code t known refl)
    ]

pub recovered_unsent : (active : Bool) (n m : ℕ) → is_sent (recovered_status active n m) ≡ false
recovered_unsent active n m = ground arith

pub All-IsStill :
    (d : DeliveryRow) (ds : List DeliveryRow) (now : ℕ) (status : DeliveryStatus) (code : String)
    (t : Tables)
    → is_sent status ≡ false
    → All (λ e. IsStill e t) ds
    → All (λ e. IsStill e (updated d now code t status)) ds
All-IsStill d ds now status code t unsent h =
    All-mono _ _ ds (λ e s. IsStill-update d e now status code t unsent s) h
