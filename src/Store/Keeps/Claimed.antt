-- ===== src/Store/Keeps/Claimed.antt =====
-- `Claim` of internal/notification/postgres/pipeline.go keeps the invariant.
use feed_flow.Base.{
  All, All-both, All-mono, All-select_passes, All-sort_by, All-take, All-transpose, Bool,
  Bool-cases, Distinct, Distinct-same_row, List, String, [], any, arith, inl, inr, refl, true, ℕ,
  ◌+◌, ◌∷◌, ◌≡◌,
}
use feed_flow.Store.{ChannelRow, DeliveryRow, DispatchRow, InboxRow, Session, Tables}
use feed_flow.Store.Claim.{claim_rows, claimed_row, due_before, is_claimable, is_selected, selected}
use feed_flow.Store.Invariant.{Inv, RowOk, clash_id, clash_target}
use feed_flow.Store.Rows.{is_pending}

-- The rows that the query selects are of the table, claimable and the only ones of their UUID.
abbrev IsChosen : Session → List String → DeliveryRow → Type 0
IsChosen s kinds e =
    All (λ x. clash_id e x ≡ true → x ≡ e) s.tables.deliveries × (is_claimable s kinds e ≡ true)

selected-IsChosen :
    (s : Session) (kinds : List String) (limit : ℕ)
    → Inv s.tables
    → All (IsChosen s kinds) (selected s kinds limit)
unfolding selected
selected-IsChosen s kinds limit v = All-take _ limit _ (
    All-sort_by _ due_before _ (
      All-select_passes _ (is_claimable s kinds) s.tables.deliveries
        (Distinct-same_row clash_id (λ x y. ground arith) s.tables.deliveries v.unique_ids)))

chosen_row :
    (s : Session) (kinds : List String) (d : DeliveryRow) (es : List DeliveryRow)
    → All (λ e. (clash_id e d ≡ true → d ≡ e) × (is_claimable s kinds e ≡ true)) es
    → is_selected es d ≡ true
    → is_claimable s kinds d ≡ true
chosen_row s kinds d [] h hit = cc
chosen_row s kinds d (e ∷ es) h hit = elim (Bool-cases (clash_id e d)) [
  | inl same ↦ rw (h.0.0 same) h.0.1
  | inr other ↦ chosen_row s kinds d es h.1 (ground arith)
]

-- So a row of the table that is selected is claimable.
pub selected_claimable :
    (s : Session) (kinds : List String) (limit : ℕ)
    → Inv s.tables
    → All
        (λ d. is_selected (selected s kinds limit) d ≡ true → is_claimable s kinds d ≡ true)
        s.tables.deliveries
selected_claimable s kinds limit v =
    All-mono _ _ s.tables.deliveries (λ d h. chosen_row s kinds d (selected s kinds limit) h)
      (All-transpose _ (selected s kinds limit) s.tables.deliveries (
        All-mono _ _ (selected s kinds limit)
          (λ e c. All-mono _ _ s.tables.deliveries (λ x f. (f, c.1)) c.0)
          (selected-IsChosen s kinds limit v)))

claimed-RowOk :
    (now lease token : ℕ) (channels : List ChannelRow) (inbox : List InboxRow)
    (dispatch : List DispatchRow) (d : DeliveryRow)
    → RowOk channels inbox dispatch d
    → is_pending d.status ≡ true
    → RowOk channels inbox dispatch (claimed_row now lease token d)
unfolding claimed_row
claimed-RowOk now lease token channels inbox dispatch d r h = ground arith

module _ (gen_uuid : ℕ → ℕ) (now lease : ℕ) (es : List DeliveryRow) where
  claim_rows-All :
      (P Q : DeliveryRow → Type 0) (n : ℕ) (ds : List DeliveryRow)
      → ((d : DeliveryRow) (token : ℕ)
          → P d
          → is_selected es d ≡ true
          → Q (claimed_row now lease token d))
      → ((d : DeliveryRow) → P d → Q d)
      → All P ds
      → All Q (claim_rows gen_uuid now lease es n ds).0
  unfolding claim_rows
  claim_rows-All P Q n [] claimed kept h = tt
  claim_rows-All P Q n (d ∷ ds) claimed kept h = elim (Bool-cases (is_selected es d)) [
    | inl hit ↦
        rw hit (claimed d (gen_uuid n) h.0 hit, claim_rows-All P Q (n + 1) ds claimed kept h.1)
    | inr miss ↦ rw miss (kept d h.0, claim_rows-All P Q n ds claimed kept h.1)
  ]

  claim_rows-any :
      (q : DeliveryRow → Bool) (n : ℕ) (ds : List DeliveryRow)
      → ((d : DeliveryRow) (token : ℕ) → q (claimed_row now lease token d) ≡ q d)
      → any q (claim_rows gen_uuid now lease es n ds).0 ≡ any q ds
  unfolding claim_rows
  claim_rows-any q n [] same = refl
  claim_rows-any q n (d ∷ ds) same = elim (Bool-cases (is_selected es d)) [
    | inl hit ↦ rw (hit, same d (gen_uuid n), claim_rows-any q (n + 1) ds same)
    | inr miss ↦ rw (miss, claim_rows-any q n ds same)
  ]

  claim_rows-Distinct :
      (clash : DeliveryRow → DeliveryRow → Bool) (n : ℕ) (ds : List DeliveryRow)
      → ((x d : DeliveryRow) (token : ℕ) → clash x (claimed_row now lease token d) ≡ clash x d)
      → ((d : DeliveryRow) (token : ℕ) → clash (claimed_row now lease token d) ≡ clash d)
      → Distinct clash ds
      → Distinct clash (claim_rows gen_uuid now lease es n ds).0
  unfolding claim_rows
  claim_rows-Distinct clash n [] right left h = tt
  claim_rows-Distinct clash n (d ∷ ds) right left h = elim (Bool-cases (is_selected es d)) [
    | inl hit ↦
        rw (hit, left d (gen_uuid n))
          (
            rw (claim_rows-any (clash d) (n + 1) ds (right d)) h.0,
            claim_rows-Distinct clash (n + 1) ds right left h.1,
          )
    | inr miss ↦ rw miss (
      rw (claim_rows-any (clash d) n ds (right d)) h.0,
      claim_rows-Distinct clash n ds right left h.1,
    )
  ]

  -- The claimed rows are among the rows of the new table.
  pub claim_rows-claimed :
      (P : DeliveryRow → Type 0) (n : ℕ) (ds : List DeliveryRow)
      → All P (claim_rows gen_uuid now lease es n ds).0
      → All P (claim_rows gen_uuid now lease es n ds).1
  unfolding claim_rows
  claim_rows-claimed P n [] = λ h. tt
  claim_rows-claimed P n (d ∷ ds) = elim (Bool-cases (is_selected es d)) [
    | inl hit ↦ rw hit (λ h. (h.0, claim_rows-claimed P (n + 1) ds h.1))
    | inr miss ↦ rw miss (λ h. claim_rows-claimed P n ds h.1)
  ]

  -- What holds of every row as it is claimed.
  pub claim_rows-each :
      (Q : DeliveryRow → Type 0) (n : ℕ) (ds : List DeliveryRow)
      → ((d : DeliveryRow) (token : ℕ) → Q (claimed_row now lease token d))
      → All Q (claim_rows gen_uuid now lease es n ds).1
  unfolding claim_rows
  claim_rows-each Q n [] each = tt
  claim_rows-each Q n (d ∷ ds) each = elim (Bool-cases (is_selected es d)) [
    | inl hit ↦ rw hit (each d (gen_uuid n), claim_rows-each Q (n + 1) ds each)
    | inr miss ↦ rw miss (claim_rows-each Q n ds each)
  ]

claimable_pending :
    (s : Session) (kinds : List String) (d : DeliveryRow)
    → is_claimable s kinds d ≡ true
    → is_pending d.status ≡ true
unfolding is_claimable
claimable_pending s kinds d h = ground arith

claimed_id :
    (now lease token : ℕ) (x d : DeliveryRow)
    → clash_id x (claimed_row now lease token d) ≡ clash_id x d
unfolding claimed_row
claimed_id now lease token x d = refl

claimed_id_left :
    (now lease token : ℕ) (d : DeliveryRow) → clash_id (claimed_row now lease token d) ≡ clash_id d
unfolding claimed_row
claimed_id_left now lease token d = refl

claimed_target :
    (now lease token : ℕ) (x d : DeliveryRow)
    → clash_target x (claimed_row now lease token d) ≡ clash_target x d
unfolding claimed_row
claimed_target now lease token x d = refl

claimed_target_left :
    (now lease token : ℕ) (d : DeliveryRow)
    → clash_target (claimed_row now lease token d) ≡ clash_target d
unfolding claimed_row
claimed_target_left now lease token d = refl

-- The table after the `UPDATE` of `Claim`.
abbrev pub claimed_table : (ℕ → ℕ) → ℕ → List DeliveryRow → Session → Tables
claimed_table gen_uuid lease es s =
    let r = claim_rows gen_uuid s.db_now lease es s.tables.drawn s.tables.deliveries in
    record s.tables { deliveries = r.0; drawn = r.2 }

pub claimed_table-Inv :
    (gen_uuid : ℕ → ℕ) (lease limit : ℕ) (kinds : List String) (s : Session)
    → Inv s.tables
    → Inv (claimed_table gen_uuid lease (selected s kinds limit) s)
claimed_table-Inv gen_uuid lease limit kinds s v =
    let t = s.tables in
    let es = selected s kinds limit in
    record {
      rows =
          claim_rows-All gen_uuid s.db_now lease es
            (λ d.
              RowOk t.channels t.inbox t.dispatch d
              × (is_selected es d ≡ true → is_claimable s kinds d ≡ true))
            _ t.drawn t.deliveries
            (λ d token f hit.
              claimed-RowOk s.db_now lease token _ _ _ d f.0
                (claimable_pending s kinds d (f.1 hit)))
            (λ d f. f.0) (All-both _ _ t.deliveries v.rows (selected_claimable s kinds limit v));
      unique_ids =
          claim_rows-Distinct gen_uuid s.db_now lease es clash_id t.drawn t.deliveries
            (λ x d token. claimed_id s.db_now lease token x d)
            (λ d token. claimed_id_left s.db_now lease token d) v.unique_ids;
      unique_targets =
          claim_rows-Distinct gen_uuid s.db_now lease es clash_target t.drawn t.deliveries
            (λ x d token. claimed_target s.db_now lease token x d)
            (λ d token. claimed_target_left s.db_now lease token d) v.unique_targets;
    }
