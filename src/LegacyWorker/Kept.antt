-- ===== src/LegacyWorker/Kept.antt =====
-- The life of a delivery is kept by the calls of internal/notification/postgres/deliveries.go that
-- settle or requeue a row; Claimed and Expanded are about the others.
pub mod Claimed
pub mod Expanded
use feed_flow.Base.{
  All, All-pointwise, Bool, Bool-cases, Distinct, Distinct-update, List, Option-cases, String,
  arith, inl, inr, refl, subst, sym, true, update, ℕ, ◌==◌, ◌≡◌, ◌⊎◌,
}
use feed_flow.LegacyWorker.Deliveries.{
  done_row, dropped_row, is_in_work, is_stale, postponed_row, requeue_rows,
  requeue_stale_deliveries, requeued_row, settle_row,
}
use feed_flow.LegacyWorker.Lifecycle.{
  Evolves, Evolves-refl, Evolves-update, Lived, Move, Moves, SameTarget, delivered, dropped, goes,
  life_of, lives, put_back, rests,
}
use feed_flow.LegacyWorker.Tables.{LegacyError, LegacyRow, LegacyTables, Moment, run_statement}
use feed_flow.Store.{DeliveryStatus, cancelled, failed, pending, processing, retry_wait, sent}
use feed_flow.Store.Rows.{is_processing}

abbrev pub clash_row : LegacyRow → LegacyRow → Bool
clash_row a b = a.id == b.id

-- The primary key.
abbrev pub DistinctRows : List LegacyRow → Type 0
DistinctRows = Distinct clash_row

-- What a call keeps.
abbrev pub Keeps : List LegacyRow → List LegacyRow → Type 0
Keeps old new = DistinctRows new × Evolves old new

processing_of : (s : DeliveryStatus) → is_processing s ≡ true → s ≡ processing
processing_of pending h = cc
processing_of processing h = refl
processing_of retry_wait h = cc
processing_of sent h = cc
processing_of failed h = cc
processing_of cancelled h = cc

-- A change of a processed row that leaves its identity and its attempts alone is a move.
pub record IsMove (f : LegacyRow → LegacyRow) : Type 0 where
  same_row : (d : LegacyRow) → SameTarget d (f d)
  moved : (d : LegacyRow) → Move (lives processing d.attempts) (life_of (f d))

moved-Lived :
    (f : LegacyRow → LegacyRow) (d : LegacyRow)
    → IsMove f
    → is_processing d.status ≡ true
    → Lived d (f d)
moved-Lived f d m h = record {
  same = m.same_row d;
  moves =
      subst (λ s. Moves (lives s d.attempts) (life_of (f d))) (sym (processing_of d.status h))
        (goes rests (m.moved d));
}

pub update-Keeps :
    (p : LegacyRow → Bool) (f : LegacyRow → LegacyRow) (ds : List LegacyRow)
    → ((d : LegacyRow) → (f d).id ≡ d.id)
    → All (λ d. p d ≡ true → Lived d (f d)) ds
    → DistinctRows ds
    → Keeps ds (update p f ds)
update-Keeps p f ds same h k = (
  Distinct-update clash_row p f ds (λ x y. rw (same y) refl) (λ x y. rw (same x) refl) k,
  Evolves-update p f ds h,
)

work-Keeps :
    (p : LegacyRow → Bool) (f : LegacyRow → LegacyRow) (ds : List LegacyRow)
    → IsMove f
    → ((d : LegacyRow) → p d ≡ true → is_processing d.status ≡ true)
    → DistinctRows ds
    → Keeps ds (update p f ds)
work-Keeps p f ds m h k =
    update-Keeps p f ds (λ d. (m.same_row d).0)
      (All-pointwise _ ds (λ d passes. moved-Lived f d m (h d passes))) k

pub done-IsMove : (now : ℕ) → IsMove (done_row now)
unfolding done_row
done-IsMove now = record {
  same_row = λ d. (refl, refl, refl, refl);
  moved = λ d. delivered d.attempts;
}

pub dropped-IsMove : (now : ℕ) (reason : String) → IsMove (dropped_row now reason)
unfolding dropped_row
dropped-IsMove now reason = record {
  same_row = λ d. (refl, refl, refl, refl);
  moved = λ d. dropped d.attempts;
}

pub postponed-IsMove : (now at : ℕ) (reason : String) → IsMove (postponed_row now at reason)
unfolding postponed_row
postponed-IsMove now at reason = record {
  same_row = λ d. (refl, refl, refl, refl);
  moved = λ d. put_back d.attempts;
}

pub requeued-IsMove : (now : ℕ) → IsMove (requeued_row now)
unfolding requeued_row
requeued-IsMove now = record {
  same_row = λ d. (refl, refl, refl, refl);
  moved = λ d. put_back d.attempts;
}

-- A call that fails changes nothing.
abbrev pub KeepsTables : LegacyTables → LegacyTables → Type 0
KeepsTables t t' = Keeps t.deliveries t'.deliveries

pub unchanged : (t : LegacyTables) → DistinctRows t.deliveries → KeepsTables t t
unchanged t k = (k, Evolves-refl t.deliveries)

pub statement-Keeps {ℓ} :
    {A : Type ℓ} (w : Moment) (statement : LegacyTables → (LegacyError ⊎ A) × LegacyTables)
    (t : LegacyTables)
    → DistinctRows t.deliveries
    → KeepsTables t (statement t).1
    → KeepsTables t (run_statement w statement t).1
statement-Keeps w statement t k h = elim (Option-cases w.fault) [
  | inl e ↦ rw e h
  | inr (f, e) ↦ elim (Bool-cases w.was_done) [
    | inl d ↦ rw (e, d) h
    | inr d ↦ rw (e, d) (unchanged t k)
  ]
]

pub settle-Keeps :
    (f : LegacyRow → LegacyRow) (i : ℕ) (t : LegacyTables)
    → IsMove f
    → DistinctRows t.deliveries
    → KeepsTables t (settle_row f i t).1
unfolding settle_row
settle-Keeps f i t m k = work-Keeps (is_in_work i) f t.deliveries m (λ d h. ground arith) k

pub requeue-Keeps :
    (w : Moment) (before : ℕ) (t : LegacyTables)
    → DistinctRows t.deliveries
    → KeepsTables t (requeue_stale_deliveries w before t).1
unfolding requeue_stale_deliveries requeue_rows
requeue-Keeps w before t k = statement-Keeps w (requeue_rows w before) t k (
    work-Keeps (is_stale before) (requeued_row w.db_now) t.deliveries (requeued-IsMove w.db_now)
      (λ d h. ground arith) k)
