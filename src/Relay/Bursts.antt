-- ===== src/Relay/Bursts.antt =====
-- The loop of internal/notification/relay/relay.go empties the outbox.
use feed_flow.Base.{
  All, All-mono, All-select, All-sort_by, All-update, Bool, Bool-cases, List, Option, Option-cases,
  String, [], any, ap, arith, count, false, inl, inr, map, none, refl, select, some, sort_by, suc,
  true, update, zero, ℕ, ◌&&◌, ◌<◌, ◌==◌, ◌∙◌, ◌∷◌, ◌≡◌, ◌≤◌,
}
use feed_flow.Base.Int.{ℤ}
use feed_flow.Contract.{Codec}
use feed_flow.Relay.{
  Faults, OutboxRow, Record, Source, after_round, burst, conclude, dispatches, first, is_due,
  next_row, offer, publish_one, published_before, published_row, requests, row_id,
}
use feed_flow.Relay.Order.{before_total, before_trans, first-All, sort_nil}

-- Nothing goes wrong on the side of the database.
pub record IsCalm (f : Faults) : Type 0 where
  pub begins : f.begin_fails ≡ false
  pub selects : f.select_fails ≡ false
  pub updates : f.update_fails ≡ false
  pub commits : f.commit_fails ≡ false

first-none : (xs : List OutboxRow) → first xs ≡ none → xs ≡ []
first-none [] h = refl
first-none (x ∷ xs) h = cc

select_nil : (p : OutboxRow → Bool) (xs : List OutboxRow) → select p xs ≡ [] → count p xs ≡ 0
select_nil p [] h = refl
select_nil p (x ∷ xs) h = elim (Bool-cases (p x)) [
  | inl e ↦ cc (rw e at h)
  | inr e ↦ rw e (select_nil p xs (rw e at h))
]

published-not_due :
    (source : Source) (db_now : ℕ) (locked : ℕ → Bool) (r : OutboxRow)
    → is_due source db_now locked (published_row source db_now r) ≡ false
unfolding is_due published_row
published-not_due requests db_now locked r = ground arith
published-not_due dispatches db_now locked r = ground arith

published-payload :
    (source : Source) (db_now : ℕ) (r : OutboxRow)
    → (published_row source db_now r).payload ≡ r.payload
unfolding published_row
published-payload requests db_now r = refl
published-payload dispatches db_now r = refl

published_row-id :
    (source : Source) (db_now : ℕ) (r : OutboxRow) → (published_row source db_now r).id ≡ r.id
unfolding published_row
published_row-id requests db_now r = refl
published_row-id dispatches db_now r = refl

published-ids :
    (source : Source) (db_now i : ℕ) (rows : List OutboxRow)
    → map (λ r. r.id) (update (row_id i) (published_row source db_now) rows) ≡ map (λ r. r.id) rows
published-ids source db_now i [] = refl
published-ids source db_now i (r ∷ rs) = elim (Bool-cases (row_id i r)) [
  | inl e ↦
      rw (e, published_row-id source db_now r)
        (ap (λ is. r.id ∷ is) (published-ids source db_now i rs))
  | inr e ↦ rw e (ap (λ is. r.id ∷ is) (published-ids source db_now i rs))
]

module _ (source : Source) (db_now : ℕ) (locked : ℕ → Bool) where
  abbrev due_with : ℕ → OutboxRow → Bool
  due_with i x = x.id == i && is_due source db_now locked x

  self_due :
      (rows : List OutboxRow)
      → All (λ x. any (due_with x.id) rows ≡ true) (select (is_due source db_now locked) rows)
  self_due [] = tt
  self_due (x ∷ xs) = elim (Bool-cases (is_due source db_now locked x)) [
    | inl e ↦ rw e (ground arith, All-mono _ _ _ (λ y h. ground arith) (self_due xs))
    | inr e ↦ rw e (All-mono _ _ _ (λ y h. ground arith) (self_due xs))
  ]

  taken_due :
      (rows : List OutboxRow) (r : OutboxRow)
      → next_row source db_now locked rows ≡ some r
      → any (due_with r.id) rows ≡ true
  unfolding next_row
  taken_due rows r h =
      first-All _ (sort_by (published_before source) (select (is_due source db_now locked) rows)) r
        (All-sort_by _ (published_before source) _ (self_due rows)) h

  none_due :
      (rows : List OutboxRow)
      → next_row source db_now locked rows ≡ none
      → count (is_due source db_now locked) rows ≡ 0
  unfolding next_row
  none_due rows h = select_nil (is_due source db_now locked) rows (
      sort_nil (published_before source) (before_total source) (before_trans source) _
        (first-none _ h))

  abbrev published_at_id : ℕ → List OutboxRow → List OutboxRow
  published_at_id i rows = update (row_id i) (published_row source db_now) rows

  count_falls :
      (i : ℕ) (rows : List OutboxRow)
      → (count (is_due source db_now locked) (published_at_id i rows)
          ≤ count (is_due source db_now locked) rows)
        × (any (due_with i) rows ≡ true
            → count (is_due source db_now locked) (published_at_id i rows)
              < count (is_due source db_now locked) rows)
  count_falls i [] = (omega arith, λ h. cc)
  count_falls i (x ∷ xs) =
      let rest = count_falls i xs in
      let gone = published-not_due source db_now locked x in
      (ground (arith, rest.0, gone), λ h. ground (arith, rest.0, rest.1, gone))

module _ (codec : Codec) (int_string : ℤ → String) (publish : Record → Bool) (source : Source)
    (db_now : ℕ) (locked : ℕ → Bool) (f : Faults) (calm : IsCalm f)
    (takes : (out : Record) → publish out ≡ true) where
  abbrev HasValidPayloads : List OutboxRow → Type 0
  HasValidPayloads = All (λ r. codec.json_valid r.payload ≡ true)

  -- A round publishes the row that it takes.
  round_lem :
      (rows : List OutboxRow) (r : OutboxRow)
      → next_row source db_now locked rows ≡ some r
      → codec.json_valid r.payload ≡ true
      → (publish_one codec int_string publish source db_now locked f rows).outcome ≡ inr true
        × ((publish_one codec int_string publish source db_now locked f rows).rows
            ≡ published_at_id source db_now locked r.id rows)
  unfolding publish_one offer conclude
  round_lem rows r h valid =
      rw
        (
          calm.begins,
          calm.selects,
          h,
          valid,
          takes _,
          calm.updates,
          calm.commits,
          publish_one,
          offer,
          conclude,
        )
        (refl, refl)

  abbrev pub Empties : List OutboxRow → Option (List OutboxRow) → Type 0
  Empties rows result =
      (left : List OutboxRow) × (result ≡ some left)
      × (count (is_due source db_now locked) left ≡ 0)
      × (map (λ r. r.id) left ≡ map (λ r. r.id) rows)

  idle_round :
      (rows : List OutboxRow) (more : Option (List OutboxRow))
      → next_row source db_now locked rows ≡ none
      → Empties rows (
          after_round codec int_string publish source db_now locked f more
            (publish_one codec int_string publish source db_now locked f rows).outcome
            (publish_one codec int_string publish source db_now locked f rows).rows)
  unfolding publish_one after_round
  idle_round rows more h =
      rw (calm.begins, calm.selects, h, publish_one)
        (rows, refl, none_due source db_now locked rows h, refl)

  still_valid :
      (i : ℕ) (rows : List OutboxRow)
      → HasValidPayloads rows
      → HasValidPayloads (published_at_id source db_now locked i rows)
  still_valid i rows h =
      All-update _ _ (row_id i) (published_row source db_now) rows
        (λ r valid _. rw (published-payload source db_now r) valid) (λ r valid _. valid) h

  taken_valid :
      (rows : List OutboxRow) (r : OutboxRow)
      → HasValidPayloads rows
      → next_row source db_now locked rows ≡ some r
      → codec.json_valid r.payload ≡ true
  unfolding next_row
  taken_valid rows r valid h =
      first-All (λ x. codec.json_valid x.payload ≡ true)
        (sort_by (published_before source) (select (is_due source db_now locked) rows)) r
        (All-sort_by _ (published_before source) _
          (All-select _ (is_due source db_now locked) rows valid))
        h

  -- Where no call of the database fails, Kafka takes every record and all payloads are valid JSON,
  -- the loop of the relay goes on without a wait until no row is due: with more rounds than there
  -- are due rows it comes to its wait, and then has the same rows and none that is due.
  pub burst-Empties :
      (fuel : ℕ) (rows : List OutboxRow)
      → HasValidPayloads rows
      → count (is_due source db_now locked) rows < fuel
      → Empties rows (burst codec int_string publish source db_now locked f fuel rows)
  unfolding burst after_round
  burst-Empties zero rows valid h = absurd (omega arith)
  burst-Empties (suc fuel) rows valid h = elim (Option-cases (next_row source db_now locked rows)) [
    | inl e ↦ idle_round rows _ e
    | inr (r, e) ↦
        let rows' = published_at_id source db_now locked r.id rows in
        let (went, left_rows) = round_lem rows r e (taken_valid rows r valid e) in
        let falls =
          (count_falls source db_now locked r.id rows).1
            (taken_due source db_now locked rows r e) in
        let rest = burst-Empties fuel rows' (still_valid r.id rows valid) (omega arith) in
        rw (went, left_rows)
          (rest.0, rest.1, rest.2, rest.3 ∙ published-ids source db_now r.id rows)
  ]
