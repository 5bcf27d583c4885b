-- ===== src/Store/Keeps.antt =====
-- The calls of internal/notification/postgres keep the invariant of the tables, whatever fault the
-- driver meets on the way.
pub mod Sent
pub mod Lookups
pub mod Inbox
pub mod Accept
pub mod Owed
pub mod Failed
pub mod RecoveredRows
pub mod Recovered
pub mod Claimed
pub mod Owners
pub mod Channels
pub mod Disabled
pub mod Deleted
use feed_flow.Base.{Bool, Bool-cases, inl, inr, true, ℕ, ◌==◌, ◌≡◌}
use feed_flow.Store.{DeliveryRow, M, Result, Session, Tables, err, exec, ok, stale_claim}
use feed_flow.Store.Invariant.{Inv, KeepsKeys, RowOk, update-Inv}
use feed_flow.Store.Outcomes.{one_row, update_deliveries}
use feed_flow.Store.Triples.{Outcome, Triple, run_triple, triple_exec, triple_return, triple_throw}

-- A call that keeps the invariant, whether it succeeds or fails.
abbrev pub Keeps {ℓ} : {A : Type ℓ} → M A → Type ℓ
Keeps m = Triple Inv m (λ _ t. Inv t) Inv

pub Outcome-Inv {ℓ} :
    {A : Type ℓ} (r : Result A × Session) → Outcome (λ _ t. Inv t) Inv r → Inv r.1.tables
Outcome-Inv (ok a, s) h = h
Outcome-Inv (err e, s) h = h

pub Keeps-run {ℓ} :
    {A : Type ℓ} (m : M A) → Keeps m → (s : Session) → Inv s.tables → Inv (m s).1.tables
Keeps-run m k s v = Outcome-Inv (m s) (run_triple k s v)

pub one_row_triple :
    (P : Tables → Type 0) (n : ℕ) (Q : Unit {0} → Tables → Type 0) (E : Tables → Type 0)
    → ((t : Tables) → P t → Q tt t)
    → ((t : Tables) → P t → E t)
    → Triple P (one_row n) Q E
one_row_triple P n Q E good bad = elim (Bool-cases (n == 1)) [
  | inl e ↦ rw e (triple_return P tt Q E good)
  | inr e ↦ rw e (triple_throw P stale_claim Q E bad)
]

-- An `UPDATE` of the deliveries that returns its count.
pub exec_update-Keeps :
    (test : DeliveryRow → Bool) (change : Session → DeliveryRow → DeliveryRow)
    → ((s : Session) → KeepsKeys (change s))
    → ((s : Session) (d : DeliveryRow)
        → RowOk s.tables.channels s.tables.inbox s.tables.dispatch d
        → test d ≡ true
        → RowOk s.tables.channels s.tables.inbox s.tables.dispatch (change s d))
    → Keeps (exec (λ s. update_deliveries test (change s) s))
unfolding update_deliveries
exec_update-Keeps test change k right =
    triple_exec Inv _ _ Inv (λ s v. update-Inv test (change s) (k s) s.tables (right s) v)
      (λ t v. v)
