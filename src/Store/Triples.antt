-- ===== src/Store/Triples.antt =====
-- Pre- and postconditions of the database calls of internal/notification/postgres.
use feed_flow.Base.{
  Bool, List, Option, [], false, if◌then◌else◌, length, none, refl, some, true, ◌∷◌, ◌≡◌,
}
use feed_flow.Store.{
  DbFault, M, Result, Session, StoreError, Tables, close_transaction, commit_body, driver, err,
  exec, ok, return, round_trip, throw, transaction, ◌>>=◌,
}

-- What holds of the tables after a call: `Q` with its value, or `E` after an error.
abbrev pub Outcome {ℓ} :
    {A : Type ℓ} → (A → Tables → Type 0) → (Tables → Type 0) → Result A × Session → Type 0
Outcome Q E (ok a, s) = Q a s.tables
Outcome Q E (err e, s) = E s.tables

pub data Triple {ℓ} {A : Type ℓ} (P : Tables → Type 0) (m : M A) (Q : A → Tables → Type 0)
    (E : Tables → Type 0) : Type ℓ where
  triple : ((s : Session) → P s.tables → Outcome Q E (m s)) → Triple P m Q E

pub run_triple {ℓ} :
    {A : Type ℓ} {P : Tables → Type 0} {m : M A} {Q : A → Tables → Type 0} {E : Tables → Type 0}
    → Triple P m Q E
    → (s : Session) → P s.tables
    → Outcome Q E (m s)
run_triple (triple h) = h

abbrev pub Always : Tables → Type 0
Always t = Unit

abbrev pub StatementMeets {ℓ} :
    {A : Type ℓ} → (A → Tables → Type 0) → (Tables → Type 0) → Result A × Tables → Type 0
StatementMeets Q E (ok a, t) = Q a t
StatementMeets Q E (err e, t) = E t

-- A statement runs on the tables that it meets, or the driver fails and they stay.
exec-Outcome {ℓ} :
    {A : Type ℓ} (Q : A → Tables → Type 0) (E : Tables → Type 0) (s : Session)
    (faults : List (Option DbFault)) (r : Result A × Tables)
    → StatementMeets Q E r
    → E s.tables
    → Outcome Q E (elim faults [
      | [] ↦ (r.0, record s { tables = r.1 })
      | some f ∷ rest ↦ (err (driver f), record s { faults = rest })
      | none ∷ rest ↦ (r.0, record s { tables = r.1; faults = rest })
    ])
exec-Outcome Q E s [] (ok a, t) h e = h
exec-Outcome Q E s [] (err x, t) h e = h
exec-Outcome Q E s (some f ∷ rest) r h e = e
exec-Outcome Q E s (none ∷ rest) (ok a, t) h e = h
exec-Outcome Q E s (none ∷ rest) (err x, t) h e = h

pub triple_exec {ℓ} :
    {A : Type ℓ} (P : Tables → Type 0) (statement : Session → Result A × Tables)
    (Q : A → Tables → Type 0) (E : Tables → Type 0)
    → ((s : Session) → P s.tables → StatementMeets Q E (statement s))
    → ((t : Tables) → P t → E t)
    → Triple P (exec statement) Q E
unfolding exec
triple_exec P statement Q E h e =
    triple (λ s p. exec-Outcome Q E s s.faults (statement s) (h s p) (e s.tables p))

bind-Outcome {ℓ κ} :
    {A : Type ℓ} {B : Type κ} (R : A → Tables → Type 0) (Q : B → Tables → Type 0)
    (E : Tables → Type 0) (f : A → M B) (r : Result A × Session)
    → Outcome R E r
    → ((a : A) → Triple (R a) (f a) Q E)
    → Outcome Q E (elim r.0 [ ok a ↦ f a r.1 | err e ↦ (err e, r.1) ])
bind-Outcome R Q E f (ok a, s) h k = run_triple (k a) s h
bind-Outcome R Q E f (err e, s) h k = h

pub triple_bind {ℓ κ} :
    {A : Type ℓ} {B : Type κ} {P : Tables → Type 0} {m : M A} (R : A → Tables → Type 0)
    {f : A → M B} {Q : B → Tables → Type 0} {E : Tables → Type 0}
    → Triple P m R E
    → ((a : A) → Triple (R a) (f a) Q E)
    → Triple P (m >>= f) Q E
triple_bind R {f = f} {Q = Q} {E = E} h k =
    triple (λ s p. bind-Outcome R Q E f _ (run_triple h s p) k)

pub triple_return {ℓ} :
    {A : Type ℓ} (P : Tables → Type 0) (a : A) (Q : A → Tables → Type 0) (E : Tables → Type 0)
    → ((t : Tables) → P t → Q a t)
    → Triple P (return a) Q E
triple_return P a Q E h = triple (λ s p. h s.tables p)

pub triple_throw {ℓ} :
    {A : Type ℓ} (P : Tables → Type 0) (e : StoreError) (Q : A → Tables → Type 0)
    (E : Tables → Type 0)
    → ((t : Tables) → P t → E t)
    → Triple P (throw {A = A} e) Q E
triple_throw P e Q E h = triple (λ s p. h s.tables p)

commit-Outcome {ℓ} :
    {A : Type ℓ} (Q : A → Tables → Type 0) (E : Tables → Type 0) (before : Tables) (a : A)
    (s : Session)
    → Q a s.tables
    → E s.tables
    → E before
    → Outcome Q E (commit_body before a s)
unfolding commit_body exec
commit-Outcome Q E before a s q done old = met s.faults
  where
    lost_answer : (lost : Bool) → E (if lost then s.tables else before)
    lost_answer true = done
    lost_answer false = old

    met :
        (faults : List (Option DbFault))
        → Outcome Q E (commit_body before a (record s { faults = faults }))
    met [] = q
    met (none ∷ rest) = q
    met (some f ∷ rest) = lost_answer (s.lost (length rest))

close-Outcome {ℓ} :
    {A : Type ℓ} (Q : A → Tables → Type 0) (E : Tables → Type 0) (before : Tables)
    (r : Result A × Session)
    → Outcome Q Always r
    → E before
    → ((a : A) (t : Tables) → Q a t → E t)
    → Outcome Q E (close_transaction before r)
unfolding close_transaction
close-Outcome Q E before (ok a, s) h e k = commit-Outcome Q E before a s h (k a s.tables h) e
close-Outcome Q E before (err x, s) h e k = e

-- A transaction needs no promise about its body's errors: the tables are put back. After an error
-- of its commit there is either what was before, or what the body has left.
pub triple_transaction {ℓ} :
    {A : Type ℓ} (P : Tables → Type 0) (body : M A) (Q : A → Tables → Type 0) (E : Tables → Type 0)
    → ((t : Tables) → P t → E t)
    → ((a : A) (t : Tables) → Q a t → E t)
    → Triple P body Q Always
    → Triple P (transaction body) Q E
unfolding transaction
triple_transaction {A} P body Q E old done h =
    triple (λ s p. close-Outcome Q E s.tables _ (run_triple whole s p) (old s.tables p) done)
  where
    pass : Triple P round_trip (λ _ t. P t) Always
    pass = triple_exec P (λ s. (ok tt, s.tables)) (λ _ t. P t) Always (λ s p. p) (λ t p. tt)

    whole : Triple P (do _ ← round_trip; body) Q Always
    whole = triple_bind (λ _ t. P t) pass (λ _. h)

pub triple_if {ℓ} :
    {A : Type ℓ} (b : Bool) (P : Tables → Type 0) (m k : M A) (Q : A → Tables → Type 0)
    (E : Tables → Type 0)
    → (b ≡ true → Triple P m Q E)
    → (b ≡ false → Triple P k Q E)
    → Triple P (if b then m else k) Q E
triple_if true P m k Q E good bad = good refl
triple_if false P m k Q E good bad = bad refl

-- A weaker postcondition, or none after an error.
pub triple_mono {ℓ} :
    {A : Type ℓ} {P : Tables → Type 0} {m : M A} (Q Q' : A → Tables → Type 0)
    (E E' : Tables → Type 0)
    → ((a : A) (t : Tables) → Q a t → Q' a t)
    → ((t : Tables) → E t → E' t)
    → Triple P m Q E
    → Triple P m Q' E'
triple_mono {A} {m = m} Q Q' E E' good bad h = triple (λ s p. go (m s) (run_triple h s p))
  where
    go : (r : Result A × Session) → Outcome Q E r → Outcome Q' E' r
    go (ok a, s) o = good a s.tables o
    go (err e, s) o = bad s.tables o

pub triple_pre {ℓ} :
    {A : Type ℓ} (P P' : Tables → Type 0) {m : M A} {Q : A → Tables → Type 0} {E : Tables → Type 0}
    → ((t : Tables) → P' t → P t)
    → Triple P m Q E
    → Triple P' m Q E
triple_pre P P' weaken h = triple (λ s p. run_triple h s (weaken s.tables p))
