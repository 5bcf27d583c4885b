-- ===== src/Store/Tokens.antt =====
-- Claim tokens of internal/notification/postgres over time: a task that was handed out stays
-- genuine under every later call, since a token is never given twice.
pub mod Statements
pub mod Calls
pub mod Claims
pub mod Handed
use feed_flow.Base.{Bool, false, if◌then◌else◌, true, ℕ, ◌<◌, ◌≡◌}
use feed_flow.Store.{
  M, Result, Session, StoreError, Tables, err, exec, ok, return, throw, transaction, ◌>>=◌,
}
use feed_flow.Store.Claim.{Task}
use feed_flow.Store.Keeps.{one_row_triple}
use feed_flow.Store.Keeps.Failed.{IsGenuine}
use feed_flow.Store.Outcomes.{one_row}
use feed_flow.Store.Triples.{
  Always, Outcome, StatementMeets, Triple, run_triple, triple_bind, triple_exec, triple_mono,
  triple_return, triple_throw, triple_transaction,
}

-- The UUIDs that the database makes differ from one another.
abbrev pub DrawsApart : (ℕ → ℕ) → Type 0
DrawsApart gen_uuid = (m n : ℕ) → gen_uuid m ≡ gen_uuid n → m ≡ n

-- The task's token was drawn, and rows that hold it count the task's attempts.
abbrev pub IsKnown : (ℕ → ℕ) → Task → Tables → Type 0
IsKnown gen_uuid task t =
    IsGenuine task t × ((k : ℕ) × (k < t.drawn) × (task.claim_token ≡ gen_uuid k))

module _ (gen_uuid : ℕ → ℕ) (task : Task) where
  -- A call that leaves the task known.
  abbrev pub Stable {ℓ} : {A : Type ℓ} → M A → Type ℓ
  Stable m =
      Triple (IsKnown gen_uuid task) m (λ _ t. IsKnown gen_uuid task t) (IsKnown gen_uuid task)

  abbrev pub StatementStable {ℓ} : {A : Type ℓ} → (Session → Result A × Tables) → Type 0
  StatementStable statement =
      (s : Session) → IsKnown gen_uuid task s.tables → IsKnown gen_uuid task (statement s).1

  statement_meets {ℓ} :
      {A : Type ℓ} (r : Result A × Tables)
      → IsKnown gen_uuid task r.1
      → StatementMeets (λ _ t. IsKnown gen_uuid task t) (IsKnown gen_uuid task) r
  statement_meets (ok a, t) h = h
  statement_meets (err e, t) h = h

  pub Stable-exec {ℓ} :
      {A : Type ℓ} (statement : Session → Result A × Tables)
      → StatementStable statement
      → Stable (exec statement)
  Stable-exec statement h =
      triple_exec _ statement _ _ (λ s k. statement_meets (statement s) (h s k)) (λ t k. k)

  pub Stable-return {ℓ} : {A : Type ℓ} (a : A) → Stable (return a)
  Stable-return a = triple_return _ a _ _ (λ t k. k)

  pub Stable-throw {ℓ} : {A : Type ℓ} (e : StoreError) → Stable (throw {A = A} e)
  Stable-throw e = triple_throw _ e _ _ (λ t k. k)

  pub Stable-bind {ℓ κ} :
      {A : Type ℓ} {B : Type κ} (m : M A) (f : A → M B)
      → Stable m
      → ((a : A) → Stable (f a))
      → Stable (m >>= f)
  Stable-bind m f h k = triple_bind (λ _ t. IsKnown gen_uuid task t) h k

  pub Stable-transaction {ℓ} : {A : Type ℓ} (body : M A) → Stable body → Stable (transaction body)
  Stable-transaction body h =
      triple_transaction (IsKnown gen_uuid task) body _ _ (λ t k. k) (λ _ t k. k)
        (triple_mono _ (λ _ t. IsKnown gen_uuid task t) (IsKnown gen_uuid task) Always (λ a t k. k)
          (λ t k. tt) h)

  pub Stable-one_row : (n : ℕ) → Stable (one_row n)
  Stable-one_row n = one_row_triple _ n _ _ (λ t k. k) (λ t k. k)

  pub Stable-if {ℓ} :
      {A : Type ℓ} (b : Bool) (m k : M A) → Stable m → Stable k → Stable (if b then m else k)
  Stable-if true m k h i = h
  Stable-if false m k h i = i

IsKnown-Outcome {ℓ} :
    {A : Type ℓ} (gen_uuid : ℕ → ℕ) (task : Task) (r : Result A × Session)
    → Outcome (λ _ t. IsKnown gen_uuid task t) (IsKnown gen_uuid task) r
    → IsKnown gen_uuid task r.1.tables
IsKnown-Outcome gen_uuid task (ok a, s) h = h
IsKnown-Outcome gen_uuid task (err e, s) h = h

pub IsKnown-run {ℓ} :
    {A : Type ℓ} (gen_uuid : ℕ → ℕ) (task : Task) (m : M A)
    → Stable gen_uuid task m
    → (s : Session) → IsKnown gen_uuid task s.tables
    → IsKnown gen_uuid task (m s).1.tables
IsKnown-run gen_uuid task m stable s k = IsKnown-Outcome gen_uuid task (m s) (run_triple stable s k)
