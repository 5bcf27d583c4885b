-- ===== src/LegacyWorker/Kept/Claimed.antt =====
-- `ClaimDeliveries` of internal/notification/postgres/deliveries.go keeps to the life of a delivery.
use feed_flow.Base.{
  All, All-mono, All-select_passes, All-sort_by, All-take, All-transpose, Bool-cases,
  Distinct-same_row, List, [], arith, inl, inr, refl, select, sort_by, take, true, ℕ, ◌==◌, ◌∷◌,
  ◌≡◌,
}
use feed_flow.LegacyWorker.Deliveries.{
  claim_deliveries, claim_ready, is_ready, is_row_in, ready_before, taken_row,
}
use feed_flow.LegacyWorker.Kept.{
  DistinctRows, KeepsTables, clash_row, statement-Keeps, unchanged, update-Keeps,
}
use feed_flow.LegacyWorker.Lifecycle.{Lived, goes, rests, taken}
use feed_flow.LegacyWorker.Tables.{LegacyRow, LegacyTables, Moment}
use feed_flow.Store.{
  ChannelRow, DeliveryStatus, cancelled, failed, pending, processing, retry_wait, sent,
}
use feed_flow.Store.Rows.{is_pending}

pending_of : (s : DeliveryStatus) → is_pending s ≡ true → s ≡ pending
pending_of pending h = refl
pending_of processing h = cc
pending_of retry_wait h = cc
pending_of sent h = cc
pending_of failed h = cc
pending_of cancelled h = cc

taken-Lived : (now : ℕ) (d : LegacyRow) → is_pending d.status ≡ true → Lived d (taken_row now d)
unfolding taken_row
taken-Lived now d h = record {
  same = (refl, refl, refl, refl);
  moves = rw (pending_of d.status h) (goes rests (taken d.attempts));
}

taken_row-id : (now : ℕ) (d : LegacyRow) → (taken_row now d).id ≡ d.id
unfolding taken_row
taken_row-id now d = refl

module _ (w : Moment) (channels : List ChannelRow) where
  ready_row :
      (d : LegacyRow) (es : List LegacyRow)
      → All (λ e. (clash_row e d ≡ true → d ≡ e) × (is_ready w channels e ≡ true)) es
      → is_row_in es d ≡ true
      → is_pending d.status ≡ true
  unfolding is_ready
  ready_row d [] h hit = cc
  ready_row d (e ∷ es) h hit = elim (Bool-cases (clash_row e d)) [
    | inl same ↦ rw (h.0.0 same) (ground (arith, h.0.1))
    | inr other ↦ ready_row d es h.1 (ground arith)
  ]

  chosen : ℕ → List LegacyRow → List LegacyRow
  chosen limit ds = take limit (sort_by ready_before (select (is_ready w channels) ds))

  chosen_pending :
      (limit : ℕ) (ds : List LegacyRow)
      → DistinctRows ds
      → All (λ d. is_row_in (chosen limit ds) d ≡ true → is_pending d.status ≡ true) ds
  unfolding chosen
  chosen_pending limit ds k =
      All-mono _ _ ds (λ d h. ready_row d (chosen limit ds) h)
        (All-transpose _ (chosen limit ds) ds (
          All-mono _ _ (chosen limit ds) (λ e c. All-mono _ _ ds (λ x f. (f, c.1)) c.0)
            (All-take _ limit _ (
              All-sort_by _ ready_before _ (
                All-select_passes _ (is_ready w channels) ds
                  (Distinct-same_row clash_row (λ x y. ground arith) ds k))))))

claim-Keeps :
    (w : Moment) (limit : ℕ) (t : LegacyTables)
    → DistinctRows t.deliveries
    → KeepsTables t (claim_ready w limit t).1
unfolding claim_ready chosen
claim-Keeps w limit t k =
    update-Keeps _ (taken_row w.db_now) t.deliveries (λ d. (taken_row-id w.db_now d))
      (All-mono _ _ t.deliveries (λ d h hit. taken-Lived w.db_now d (h hit))
        (chosen_pending w t.channels limit t.deliveries k))
      k

pub claim_deliveries-Keeps :
    (w : Moment) (limit : ℕ) (t : LegacyTables)
    → DistinctRows t.deliveries
    → KeepsTables t (claim_deliveries w limit t).1
unfolding claim_deliveries
claim_deliveries-Keeps w limit t k = elim (Bool-cases (limit == 0)) [
  | inl e ↦ rw e (unchanged t k)
  | inr e ↦ rw e (statement-Keeps w (claim_ready w limit) t k (claim-Keeps w limit t k))
]
