-- ===== src/Store/Tokens/Statements.antt =====
-- The statements of internal/notification/postgres leave a task known.
use feed_flow.Base.{
  All, All-append, All-update, Bool, Bool-cases, List, [], any, arith, false, inl, inr, not, refl,
  some, true, update, ℕ, ◌&&◌, ◌++◌, ◌+◌, ◌<◌, ◌==◌, ◌||◌, ◌∷◌, ◌≡◌, ◌≤◌,
}
use feed_flow.Contract.{Requested}
use feed_flow.Store.{ChannelRow, DeliveryRow, Result, Tables, err, ok}
use feed_flow.Store.Claim.{Task, claim_rows, claimed_row, is_selected}
use feed_flow.Store.Inbox.{add_deliveries, add_delivery}
use feed_flow.Store.Outcomes.{holds_claim}
use feed_flow.Store.Rows.{has_id, is_processing, same_target}
use feed_flow.Store.Tokens.{DrawsApart, IsKnown}

module _ (gen_uuid : ℕ → ℕ) (task : Task) where
  -- The rows stay as they are, and no UUID is given back.
  pub IsKnown-rows_same :
      (t t' : Tables)
      → t'.deliveries ≡ t.deliveries
      → t.drawn ≤ t'.drawn
      → IsKnown gen_uuid task t
      → IsKnown gen_uuid task t'
  IsKnown-rows_same t t' same more (g, (k, below, own)) = (rw same g, (k, omega arith, own))

  update_ends_claims :
      (test : DeliveryRow → Bool) (change : DeliveryRow → DeliveryRow) (ds : List DeliveryRow)
      → ((d : DeliveryRow) → is_processing (change d).status ≡ false)
      → All (λ d. holds_claim task d ≡ true → d.attempts ≡ task.attempts) ds
      → All (λ d. holds_claim task d ≡ true → d.attempts ≡ task.attempts) (update test change ds)
  update_ends_claims test change ds ends h =
      All-update _ _ test change ds (λ d f e held. ground (arith, ends d)) (λ d f e. f) h

  -- An update that leaves no row of its own processed.
  pub IsKnown-update :
      (test : DeliveryRow → Bool) (change : DeliveryRow → DeliveryRow) (t : Tables)
      → ((d : DeliveryRow) → is_processing (change d).status ≡ false)
      → IsKnown gen_uuid task t
      → IsKnown gen_uuid task (record t { deliveries = update test change t.deliveries })
  IsKnown-update test change t ends k = (update_ends_claims test change t.deliveries ends k.0, k.1)

  pub IsKnown-append :
      (t : Tables) (d : DeliveryRow)
      → is_processing d.status ≡ false
      → IsKnown gen_uuid task t
      → IsKnown gen_uuid task
          (record t { deliveries = t.deliveries ++ d ∷ []; drawn = t.drawn + 1 })
  IsKnown-append t d idle (g, (k, below, own)) = (
    All-append _ t.deliveries (d ∷ []) g ((λ held. ground (arith, idle)), tt),
    (k, omega arith, own),
  )

  add_delivery-IsKnown :
      (now : ℕ) (event : Requested) (c : ChannelRow) (t : Tables)
      → IsKnown gen_uuid task t
      → IsKnown gen_uuid task (add_delivery gen_uuid now event c t).1
  unfolding add_delivery
  add_delivery-IsKnown now event c t k =
      elim (Bool-cases (
        not (c.user_id == event.user_id && c.enabled)
        || any (same_target event.event_id c.id) t.deliveries)) [
          | inl skip ↦ rw skip k
          | inr wanted ↦
              rw wanted (elim (Bool-cases (any (has_id (gen_uuid t.drawn)) t.deliveries)) [
                | inl taken ↦ rw taken k
                | inr fresh ↦ rw fresh (IsKnown-append t _ refl k)
              ])
        ]

  rest-IsKnown :
      (now : ℕ) (event : Requested) (cs : List ChannelRow) (r : Result (Unit {0}) × Tables)
      → IsKnown gen_uuid task r.1
      → ((t : Tables)
          → IsKnown gen_uuid task t
          → IsKnown gen_uuid task (add_deliveries gen_uuid now event cs t).1)
      → IsKnown gen_uuid task (
          let next : Result (Unit {0}) × Tables = elim r.0 [
            | ok _ ↦ add_deliveries gen_uuid now event cs r.1
            | err e ↦ (err e, r.1)
          ] in
          next.1)
  rest-IsKnown now event cs (ok _, t) k rest = rest t k
  rest-IsKnown now event cs (err e, t) k rest = k

  pub add_deliveries-IsKnown :
      (now : ℕ) (event : Requested) (cs : List ChannelRow) (t : Tables)
      → IsKnown gen_uuid task t
      → IsKnown gen_uuid task (add_deliveries gen_uuid now event cs t).1
  unfolding add_deliveries
  add_deliveries-IsKnown now event [] t k = k
  add_deliveries-IsKnown now event (c ∷ cs) t k =
      rest-IsKnown now event cs (add_delivery gen_uuid now event c t)
        (add_delivery-IsKnown now event c t k) (λ t' k'. add_deliveries-IsKnown now event cs t' k')

-- The tokens of a claim are drawn anew, so no row gets one that was drawn before.
module _ (gen_uuid : ℕ → ℕ) (apart : DrawsApart gen_uuid) (now lease : ℕ) (es : List DeliveryRow)
    (task : Task) (k : ℕ) (own : task.claim_token ≡ gen_uuid k) where
  fresh_claim :
      (d : DeliveryRow) (n : ℕ)
      → k < n
      → holds_claim task (claimed_row now lease (gen_uuid n) d) ≡ true
      → ⊥
  unfolding claimed_row
  fresh_claim d n later held = ground (arith, apart n k)

  pub claim_rows_known :
      (n : ℕ) (ds : List DeliveryRow)
      → k < n
      → All (λ d. holds_claim task d ≡ true → d.attempts ≡ task.attempts) ds
      → All
          (λ d. holds_claim task d ≡ true → d.attempts ≡ task.attempts)
          (claim_rows gen_uuid now lease es n ds).0
  unfolding claim_rows
  claim_rows_known n [] later h = tt
  claim_rows_known n (d ∷ ds) later h = elim (Bool-cases (is_selected es d)) [
    | inl hit ↦ rw hit (
      (λ held. absurd (fresh_claim d n later held)),
      claim_rows_known (n + 1) ds (omega arith) h.1,
    )
    | inr miss ↦ rw miss (h.0, claim_rows_known n ds later h.1)
  ]

-- The claim token of the row was drawn.
abbrev pub WasDrawn : (ℕ → ℕ) → ℕ → DeliveryRow → Type 0
WasDrawn gen_uuid last d = (k : ℕ) × (k < last) × (d.claim_token ≡ some (gen_uuid k))

-- A claim only adds to the number of UUIDs drawn, and its tokens are among the new ones.
module _ (gen_uuid : ℕ → ℕ) (now lease : ℕ) (es : List DeliveryRow) where
  pub claim_rows_drawn :
      (n : ℕ) (ds : List DeliveryRow) → n ≤ (claim_rows gen_uuid now lease es n ds).2
  unfolding claim_rows
  claim_rows_drawn n [] = omega arith
  claim_rows_drawn n (d ∷ ds) = elim (Bool-cases (is_selected es d)) [
    | inl hit ↦ rw hit (omega (arith, claim_rows_drawn (n + 1) ds))
    | inr miss ↦ rw miss (claim_rows_drawn n ds)
  ]

  claimed_token :
      (n : ℕ) (d : DeliveryRow)
      → (claimed_row now lease (gen_uuid n) d).claim_token ≡ some (gen_uuid n)
  unfolding claimed_row
  claimed_token n d = refl

  pub claim_rows_tokens :
      (n : ℕ) (ds : List DeliveryRow)
      → All
          (WasDrawn gen_uuid (claim_rows gen_uuid now lease es n ds).2)
          (claim_rows gen_uuid now lease es n ds).1
  unfolding claim_rows
  claim_rows_tokens n [] = tt
  claim_rows_tokens n (d ∷ ds) = elim (Bool-cases (is_selected es d)) [
    | inl hit ↦ rw hit (
      (n, omega (arith, claim_rows_drawn (n + 1) ds), claimed_token n d),
      claim_rows_tokens (n + 1) ds,
    )
    | inr miss ↦ rw miss (claim_rows_tokens n ds)
  ]
