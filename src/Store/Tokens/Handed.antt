-- ===== src/Store/Tokens/Handed.antt =====
-- The tasks that `Claim` of internal/notification/postgres hands out are known from the start.
use feed_flow.Base.{
  All, All-mono, List, Option, String, [], arith, none, some, ℕ, ◌<◌, ◌||◌, ◌∷◌, ◌≡◌,
}
use feed_flow.Base.Int.{leb_ℤ, pos, ℤ}
use feed_flow.Contract.{Codec, Requested}
use feed_flow.Store.{
  ChannelRow, DeliveryRow, InboxRow, Result, Session, Tables, err, invalid_limit, ok, throw,
}
use feed_flow.Store.Claim.{
  ClaimedRow, Task, add_task, claim, claim_statement, join_claimed, join_row, lift, read_tasks,
}
use feed_flow.Store.Invariant.{Inv}
use feed_flow.Store.Keeps.Owners.{IsOwner, TasksMeet, claim_triple}
use feed_flow.Store.Tokens.{IsKnown}
use feed_flow.Store.Tokens.Statements.{WasDrawn, claim_rows_tokens}
use feed_flow.Store.Triples.{
  Always, Outcome, Triple, run_triple, triple, triple_bind, triple_exec, triple_if, triple_throw,
}

-- The tokens of the claimed rows were drawn.
abbrev IsDrawn : (ℕ → ℕ) → ℕ → ℕ → Type 0
IsDrawn gen_uuid last token = (k : ℕ) × (k < last) × (token ≡ gen_uuid k)

module _ (gen_uuid : ℕ → ℕ) where
  join_row-IsDrawn :
      (last : ℕ) (e : DeliveryRow) (o : Option ℕ) (oc : Option ChannelRow) (oi : Option InboxRow)
      (rest : List ClaimedRow)
      → WasDrawn gen_uuid last (record e { claim_token = o })
      → All (λ r. IsDrawn gen_uuid last r.token) rest
      → All (λ r. IsDrawn gen_uuid last r.token) (join_row e o oc oi rest)
  join_row-IsDrawn last e (some token) (some c) (some i) rest (k, below, own) h =
      ((k, below, cc), h)
  join_row-IsDrawn last e _ _ _ rest known h = h

  join_claimed-IsDrawn :
      (last : ℕ) (t : Tables) (es : List DeliveryRow)
      → All (WasDrawn gen_uuid last) es
      → All (λ r. IsDrawn gen_uuid last r.token) (join_claimed t es)
  unfolding join_claimed
  join_claimed-IsDrawn last t [] h = tt
  join_claimed-IsDrawn last t (e ∷ es) h =
      join_row-IsDrawn last e e.claim_token _ _ _ h.0 (join_claimed-IsDrawn last t es h.1)

  add_task-IsDrawn :
      (last : ℕ) (r : ClaimedRow) (o : Option Requested) (rest : Result (List Task))
      → IsDrawn gen_uuid last r.token
      → TasksMeet (λ task. IsDrawn gen_uuid last task.claim_token) rest
      → TasksMeet (λ task. IsDrawn gen_uuid last task.claim_token) (add_task r o rest)
  add_task-IsDrawn last r none rest h k = tt
  add_task-IsDrawn last r (some event) (err e) h k = tt
  add_task-IsDrawn last r (some event) (ok tasks) h k = (h, k)

  read_tasks-IsDrawn :
      (codec : Codec) (last : ℕ) (rs : List ClaimedRow)
      → All (λ r. IsDrawn gen_uuid last r.token) rs
      → TasksMeet (λ task. IsDrawn gen_uuid last task.claim_token) (read_tasks codec rs)
  unfolding read_tasks
  read_tasks-IsDrawn codec last [] h = tt
  read_tasks-IsDrawn codec last (r ∷ rs) h =
      add_task-IsDrawn last r (codec.unmarshal_request r.payload) _ h.0
        (read_tasks-IsDrawn codec last rs h.1)

  lift_drawn :
      (codec : Codec) (rs : List ClaimedRow)
      → Triple
          (λ t. All (λ r. IsDrawn gen_uuid t.drawn r.token) rs)
          (lift (read_tasks codec rs))
          (λ tasks t. All (λ task. IsDrawn gen_uuid t.drawn task.claim_token) tasks)
          Always
  lift_drawn codec rs =
      triple (λ s p. read s (read_tasks codec rs) (read_tasks-IsDrawn codec s.tables.drawn rs p))
    where
      read :
          (s : Session) (r : Result (List Task))
          → TasksMeet (λ task. IsDrawn gen_uuid s.tables.drawn task.claim_token) r
          → Outcome
              (λ tasks t. All (λ (task : Task). IsDrawn gen_uuid t.drawn task.claim_token) tasks)
              Always
              (r, s)
      read s (ok tasks) h = h
      read s (err e) h = tt

  claim_drawn :
      (codec : Codec) (limit lease : ℤ) (kinds : List String)
      → Triple Always
          (claim codec gen_uuid limit lease kinds)
          (λ tasks t. All (λ task. IsDrawn gen_uuid t.drawn task.claim_token) tasks)
          Always
  unfolding claim claim_statement
  claim_drawn codec limit lease kinds =
      triple_if (leb_ℤ limit (pos 0) || leb_ℤ lease (pos 0)) Always (throw invalid_limit) _ _ Always
        (λ e. triple_throw Always invalid_limit _ Always (λ t v. v))
        (λ e.
          triple_bind (λ rs t. All (λ r. IsDrawn gen_uuid t.drawn r.token) rs)
            (triple_exec Always _ _ Always
              (λ s v.
                join_claimed-IsDrawn _ s.tables _
                  (claim_rows_tokens gen_uuid s.db_now _ _ s.tables.drawn s.tables.deliveries))
              (λ t v. v))
            (λ rs. lift_drawn codec rs))

  IsKnown-of_owner :
      (task : Task) (t : Tables)
      → IsOwner t task
      → IsDrawn gen_uuid t.drawn task.claim_token
      → IsKnown gen_uuid task t
  IsKnown-of_owner task t owner drawn =
      (All-mono _ _ t.deliveries (λ d f held. (f (ground arith)).1) owner, drawn)

  IsKnown-of_owners :
      (t : Tables) (tasks : List Task)
      → All (IsOwner t) tasks
      → All (λ task. IsDrawn gen_uuid t.drawn task.claim_token) tasks
      → All (λ task. IsKnown gen_uuid task t) tasks
  IsKnown-of_owners t [] h k = tt
  IsKnown-of_owners t (task ∷ tasks) h k =
      (IsKnown-of_owner task t h.0 k.0, IsKnown-of_owners t tasks h.1 k.1)

  IsKnown-of_outcomes :
      (r : Result (List Task) × Session)
      → Outcome (λ tasks t. Inv t × All (IsOwner t) tasks) Inv r
      → Outcome (λ tasks t. All (λ task. IsDrawn gen_uuid t.drawn task.claim_token) tasks) Always r
      → TasksMeet (λ task. IsKnown gen_uuid task r.1.tables) r.0
  IsKnown-of_outcomes (ok tasks, s) owned drawn = IsKnown-of_owners s.tables tasks owned.1 drawn
  IsKnown-of_outcomes (err e, s) owned drawn = tt

  -- The tasks of a claim are known of the tables that the claim leaves.
  pub claim-IsKnown :
      (codec : Codec) (limit lease : ℤ) (kinds : List String) (s : Session)
      → Inv s.tables
      → TasksMeet
          (λ task. IsKnown gen_uuid task (claim codec gen_uuid limit lease kinds s).1.tables)
          (claim codec gen_uuid limit lease kinds s).0
  claim-IsKnown codec limit lease kinds s v =
      IsKnown-of_outcomes (claim codec gen_uuid limit lease kinds s)
        (run_triple (claim_triple codec gen_uuid limit lease kinds) s v)
        (run_triple (claim_drawn codec limit lease kinds) s tt)
