-- ===== src/Relay/Order.antt =====
-- Which row a round of internal/notification/relay/relay.go takes.
use feed_flow.Base.{
  All, All-mono, All-sort_by, Any, Bool, Bool-cases, List, Option, [], arith, false, inl, inr,
  insert_by, is_some, none, not, refl, select, select-passes, some, sort_by, subst, true, ℕ, ◌<◌,
  ◌||◌, ◌∷◌, ◌≡◌, ◌≤◌, ◌⊎◌,
}
use feed_flow.Relay.{
  OutboxRow, Source, dispatches, first, is_due, next_row, published_before, requests,
}

module _ (le : OutboxRow → OutboxRow → Bool)
    (total : (a b : OutboxRow) → le a b ≡ false → le b a ≡ true)
    (trans : (a b c : OutboxRow) → le a b ≡ true → le b c ≡ true → le a c ≡ true) where
  abbrev IsLeast : List OutboxRow → Option OutboxRow → Type 0
  IsLeast xs none = Unit
  IsLeast xs (some r) = All (λ x. le r x ≡ true) xs

  le_refl : (x : OutboxRow) → le x x ≡ true
  le_refl x = elim (Bool-cases (le x x)) [ inl e ↦ e | inr e ↦ total x x e ]

  insert_first :
      (x : OutboxRow) (ys xs : List OutboxRow)
      → IsLeast xs (first ys)
      → (ys ≡ [] → xs ≡ [])
      → IsLeast (x ∷ xs) (first (insert_by le x ys))
  insert_first x [] xs h nil = rw (nil refl) (le_refl x, tt)
  insert_first x (y ∷ ys) xs h nil = elim (Bool-cases (le x y)) [
    | inl e ↦ rw e (le_refl x, All-mono _ _ xs (λ z l. trans x y z e l) h)
    | inr e ↦ rw e (total x y e, h)
  ]

  insert_not_nil : (x : OutboxRow) (ys : List OutboxRow) → insert_by le x ys ≡ [] → ⊥
  insert_not_nil x [] h = cc
  insert_not_nil x (y ∷ ys) h = elim (Bool-cases (le x y)) [
    | inl e ↦ cc (rw e at h)
    | inr e ↦ cc (rw e at h)
  ]

  pub sort_nil : (xs : List OutboxRow) → sort_by le xs ≡ [] → xs ≡ []
  unfolding sort_by
  sort_nil [] h = refl
  sort_nil (x ∷ xs) h = absurd (insert_not_nil x (sort_by le xs) h)

  sort_first : (xs : List OutboxRow) → IsLeast xs (first (sort_by le xs))
  unfolding sort_by
  sort_first [] = tt
  sort_first (x ∷ xs) = insert_first x (sort_by le xs) xs (sort_first xs) (sort_nil xs)

pub first-All :
    (P : OutboxRow → Type 0) (xs : List OutboxRow) (r : OutboxRow)
    → All P xs
    → first xs ≡ some r
    → P r
first-All P [] r h e = cc
first-All P (x ∷ xs) r h e = subst (λ o. elim o [ none ↦ Unit | some y ↦ P y ]) e h.0

select-guarded :
    (p q : OutboxRow → Bool) (xs : List OutboxRow)
    → All (λ x. q x ≡ true) (select p xs)
    → All (λ x. (not (p x) || q x) ≡ true) xs
select-guarded p q [] h = tt
select-guarded p q (x ∷ xs) h = elim (Bool-cases (p x)) [
  | inl e ↦ let k = rw e at h in (rw (e, k.0) refl, select-guarded p q xs k.1)
  | inr e ↦ (rw e refl, select-guarded p q xs (rw e at h))
]

pub before_total :
    (source : Source) (a b : OutboxRow)
    → published_before source a b ≡ false
    → published_before source b a ≡ true
unfolding published_before
before_total requests a b h = ground arith
before_total dispatches a b h = ground arith

pub before_trans :
    (source : Source) (a b c : OutboxRow)
    → published_before source a b ≡ true
    → published_before source b c ≡ true
    → published_before source a c ≡ true
unfolding published_before
before_trans requests a b c h k = ground arith
before_trans dispatches a b c h k = ground arith

-- A row that the relay may take: not published, with a topic, its time come and held by nobody.
pub record MayBeTaken (db_now : ℕ) (locked : ℕ → Bool) (r : OutboxRow) : Type 0 where
  pub unpublished : r.published_at ≡ none
  pub has_topic : is_some r.target_topic ≡ true
  pub time_come : r.available_at ≤ db_now
  pub is_free : locked r.id ≡ false

is_due-MayBeTaken :
    (source : Source) (db_now : ℕ) (locked : ℕ → Bool) (r : OutboxRow)
    → is_due source db_now locked r ≡ true
    → MayBeTaken db_now locked r
unfolding is_due
is_due-MayBeTaken source db_now locked r h = record {
  unpublished = unset r.published_at (ground arith);
  has_topic = ground arith;
  time_come = ground arith;
  is_free = ground arith;
}
  where
    unset : (o : Option ℕ) → is_some o ≡ false → o ≡ none
    unset none e = refl
    unset (some n) e = cc

MayBeTaken-is_due :
    (source : Source) (db_now : ℕ) (locked : ℕ → Bool) (r : OutboxRow)
    → MayBeTaken db_now locked r
    → is_due source db_now locked r ≡ true
unfolding is_due
MayBeTaken-is_due source db_now locked r m =
    rw (m.unpublished, m.has_topic, m.is_free) (ground (arith, m.time_come))

-- Older, or as old and with a UUID that is not larger.
abbrev pub IsOlder : OutboxRow → OutboxRow → Type 0
IsOlder r x = (r.created_at < x.created_at) ⊎ ((r.created_at ≡ x.created_at) × (r.id ≤ x.id))

-- Whose turn comes first: requests go by their age, and dispatches by the time from which they are
-- available, then by their age.
abbrev pub ComesFirst : Source → OutboxRow → OutboxRow → Type 0
ComesFirst requests r x = IsOlder r x
ComesFirst dispatches r x =
    (r.available_at < x.available_at) ⊎ ((r.available_at ≡ x.available_at) × IsOlder r x)

before-ComesFirst :
    (source : Source) (r x : OutboxRow) → published_before source r x ≡ true → ComesFirst source r x
unfolding published_before
before-ComesFirst requests r x h = ground arith
before-ComesFirst dispatches r x h = ground arith

All-Any :
    (P : OutboxRow → Type 0) (xs : List OutboxRow) (x : OutboxRow)
    → All P xs
    → Any (λ y. y ≡ x) xs
    → P x
All-Any P [] x h listed = elim listed [ ]
All-Any P (y ∷ ys) x h (inl same) = subst P same h.0
All-Any P (y ∷ ys) x h (inr later) = All-Any P ys x h.1 later

-- The row that a round takes may be taken, and comes first among all rows of the outbox that may:
-- requests in the order of their creation, dispatches in the order in which they become available.
pub next_row-IsFirst :
    (source : Source) (db_now : ℕ) (locked : ℕ → Bool) (rows : List OutboxRow) (r x : OutboxRow)
    → next_row source db_now locked rows ≡ some r
    → Any (λ y. y ≡ x) rows
    → MayBeTaken db_now locked x
    → MayBeTaken db_now locked r × ComesFirst source r x
unfolding next_row
next_row-IsFirst source db_now locked rows r x h listed due =
    let le = published_before source in
    let candidates = select (is_due source db_now locked) rows in
    let guarded =
      All-Any (λ y. (not (is_due source db_now locked y) || le r y) ≡ true) rows x
        (select-guarded _ _ rows
          (rw h at (sort_first le (before_total source) (before_trans source) candidates)))
        listed in
    (
      is_due-MayBeTaken source db_now locked r (
          first-All _ (sort_by le candidates) r
            (All-sort_by _ le candidates (select-passes (is_due source db_now locked) rows)) h),
      before-ComesFirst source r x (rw (MayBeTaken-is_due source db_now locked x due) at guarded),
    )
