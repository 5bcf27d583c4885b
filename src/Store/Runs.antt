-- ===== src/Store/Runs.antt =====
-- Runs of the database calls of internal/notification/postgres, one statement after the other.
use feed_flow.Base.{Bool, ap, ℕ, ◌≡◌}
use feed_flow.Store.{
  M, Result, Session, StoreError, Tables, calm, close_transaction, commit_body, err, exec, ok,
  transaction, ◌>>=◌,
}

-- What `>>=` does with the first call's result.
abbrev then_run {ℓ κ} :
    {A : Type ℓ} {B : Type κ} → (A → M B) → Result A × Session → Result B × Session
then_run f r = elim r.0 [ ok a ↦ f a r.1 | err e ↦ (err e, r.1) ]

pub bind_ok {ℓ κ} :
    {A : Type ℓ} {B : Type κ} (m : M A) (f : A → M B) {s s' : Session} {a : A}
    → m s ≡ (ok a, s')
    → (m >>= f) s ≡ f a s'
bind_ok m f e = ap (then_run f) e

pub bind_err {ℓ κ} :
    {A : Type ℓ} {B : Type κ} (m : M A) (f : A → M B) {s s' : Session} {x : StoreError}
    → m s ≡ (err x, s')
    → (m >>= f) s ≡ (err x, s')
bind_err m f e = ap (then_run f) e

module _ (db_now clock_now : ℕ) (locked : ℕ → Bool) where
  abbrev pub Calm : Tables → Session
  Calm t = calm t db_now clock_now locked

  -- A statement on a connection on which every call works.
  pub exec-calm {ℓ} :
      {A : Type ℓ} (statement : Session → Result A × Tables) (t : Tables) {r : Result A}
      {t' : Tables}
      → statement (Calm t) ≡ (r, t')
      → exec statement (Calm t) ≡ (r, Calm t')
  unfolding exec
  exec-calm statement t e = ap (λ r. (r.0, Calm r.1)) e

  -- A transaction whose body works commits, and one whose body fails leaves no trace.
  pub transaction-calm_ok {ℓ} :
      {A : Type ℓ} (body : M A) (t t' : Tables) {a : A}
      → body (Calm t) ≡ (ok a, Calm t')
      → transaction body (Calm t) ≡ (ok a, Calm t')
  unfolding transaction close_transaction commit_body exec
  transaction-calm_ok body t t' e = ap (λ r. close_transaction t r) e

  pub transaction-calm_err {ℓ} :
      {A : Type ℓ} (body : M A) (t t' : Tables) {x : StoreError}
      → body (Calm t) ≡ (err x, Calm t')
      → transaction body (Calm t) ≡ (err x, Calm t)
  unfolding transaction close_transaction commit_body exec
  transaction-calm_err body t t' e = ap (λ r. close_transaction t r) e
