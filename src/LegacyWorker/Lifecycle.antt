-- ===== src/LegacyWorker/Lifecycle.antt =====
-- The life of a delivery under the older worker, and that every turn of
-- internal/notification/worker/worker.go keeps to it.
use feed_flow.Base.{
  All, Bool, Bool-cases, List, [], inl, inr, refl, true, update, ℕ, ◌++◌, ◌+◌, ◌∙◌, ◌∷◌, ◌≡◌,
}
use feed_flow.LegacyWorker.Tables.{LegacyRow}
use feed_flow.Store.{DeliveryStatus, failed, pending, processing, sent}

-- What a delivery is to its user: its status, and how often it was tried.
pub data Life : Type 0 where
  lives : DeliveryStatus → ℕ → Life

abbrev pub life_of : LegacyRow → Life
life_of d = lives d.status d.attempts

-- The moves: a delivery is taken, which is an attempt, and then is sent, fails or waits again.
pub data Move : Life → Life → Type 0 where
  taken : (n : ℕ) → Move (lives pending n) (lives processing (n + 1))
  delivered : (n : ℕ) → Move (lives processing n) (lives sent n)
  dropped : (n : ℕ) → Move (lives processing n) (lives failed n)
  put_back : (n : ℕ) → Move (lives processing n) (lives pending n)

pub data Moves (a : Life) : Life → Type 0 where
  rests : Moves a a
  goes : {b c : Life} → Moves a b → Move b c → Moves a c

Moves-trans : {a b c : Life} → Moves a b → Moves b c → Moves a c
Moves-trans p rests = p
Moves-trans p (goes q m) = goes (Moves-trans p q) m

abbrev pub SameTarget : LegacyRow → LegacyRow → Type 0
SameTarget d d' =
    (d'.id ≡ d.id)
    × (d'.user_id ≡ d.user_id)
    × (d'.post_id ≡ d.post_id)
    × (d'.channel_id ≡ d.channel_id)

-- A row has made moves, and is the same delivery.
pub record Lived (d d' : LegacyRow) : Type 0 where
  pub same : SameTarget d d'
  pub moves : Moves (life_of d) (life_of d')

-- The rows after are those before, each after some moves, and new ones that began as pending rows
-- that were never tried.
abbrev pub Evolves : List LegacyRow → List LegacyRow → Type 0
Evolves [] new = All (λ d. Moves (lives pending 0) (life_of d)) new
Evolves (d ∷ ds) [] = ⊥
Evolves (d ∷ ds) (d' ∷ ds') = Lived d d' × Evolves ds ds'

Lived-refl : (d : LegacyRow) → Lived d d
Lived-refl d = record { same = (refl, refl, refl, refl); moves = rests }

Lived-trans : {a b c : LegacyRow} → Lived a b → Lived b c → Lived a c
Lived-trans p q = record {
  same = (q.same.0 ∙ p.same.0, q.same.1 ∙ p.same.1, q.same.2 ∙ p.same.2, q.same.3 ∙ p.same.3);
  moves = Moves-trans p.moves q.moves;
}

pub Evolves-refl : (ds : List LegacyRow) → Evolves ds ds
Evolves-refl [] = tt
Evolves-refl (d ∷ ds) = (Lived-refl d, Evolves-refl ds)

new_rows-evolve :
    (bs cs : List LegacyRow)
    → All (λ d. Moves (lives pending 0) (life_of d)) bs
    → Evolves bs cs
    → All (λ d. Moves (lives pending 0) (life_of d)) cs
new_rows-evolve [] cs h k = k
new_rows-evolve (b ∷ bs) [] h k = absurd k
new_rows-evolve (b ∷ bs) (c ∷ cs) h k = (Moves-trans h.0 k.0.moves, new_rows-evolve bs cs h.1 k.1)

pub Evolves-trans : (ds bs cs : List LegacyRow) → Evolves ds bs → Evolves bs cs → Evolves ds cs
Evolves-trans [] bs cs h k = new_rows-evolve bs cs h k
Evolves-trans (a ∷ ds) [] cs h k = absurd h
Evolves-trans (a ∷ ds) (b ∷ bs) [] h k = absurd k
Evolves-trans (a ∷ ds) (b ∷ bs) (c ∷ cs) h k = (Lived-trans h.0 k.0, Evolves-trans ds bs cs h.1 k.1)

-- An update whose change is a move.
pub Evolves-update :
    (p : LegacyRow → Bool) (f : LegacyRow → LegacyRow) (ds : List LegacyRow)
    → All (λ d. p d ≡ true → Lived d (f d)) ds
    → Evolves ds (update p f ds)
Evolves-update p f [] h = tt
Evolves-update p f (d ∷ ds) h = elim (Bool-cases (p d)) [
  | inl e ↦ rw e (h.0 e, Evolves-update p f ds h.1)
  | inr e ↦ rw e (Lived-refl d, Evolves-update p f ds h.1)
]

pub Evolves-append :
    (ds : List LegacyRow) (d : LegacyRow) → life_of d ≡ lives pending 0 → Evolves ds (ds ++ d ∷ [])
Evolves-append [] d h = (rw h rests, tt)
Evolves-append (x ∷ xs) d h = (Lived-refl x, Evolves-append xs d h)
