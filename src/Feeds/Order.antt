-- ===== src/Feeds/Order.antt =====
-- Feeds in the order of their ids: what `ORDER BY id ASC` and `WHERE id > $1` of
-- internal/database/storage give together.
use feed_flow.Base.{
  All, All-insert_by, All-mono, All-select, All-sort_by, Bool, Bool-cases, Distinct, List, Option,
  [], any, ap, arith, false, if◌then◌else◌, inl, inr, insert_by, length, none, refl, select, some,
  sort_by, suc, sym, take, true, zero, ℕ, ◌<◌, ◌==◌, ◌∙◌, ◌∷◌, ◌≡◌, ◌≢◌, ◌≤◌,
}
use feed_flow.FeedApi.{last_id}
use feed_flow.Feeds.{FeedRow}
use feed_flow.Feeds.Reading.{drop, feed_le, is_after}

-- Each id is below all that follow.
abbrev pub Ascending : List FeedRow → Type 0
Ascending [] = Unit
Ascending (f ∷ fs) = All (λ g. f.id < g.id) fs × Ascending fs

abbrev pub same_feed : FeedRow → FeedRow → Bool
same_feed f g = f.id == g.id

-- The primary key: no two feeds have one id.
abbrev pub DistinctIds : List FeedRow → Type 0
DistinctIds = Distinct same_feed

others :
    (f : FeedRow) (fs : List FeedRow) → any (same_feed f) fs ≡ false → All (λ g. f.id ≢ g.id) fs
others f [] h = tt
others f (g ∷ gs) h = (λ e. ground arith, others f gs (ground arith))

insert-Ascending :
    (f : FeedRow) (fs : List FeedRow)
    → All (λ g. f.id ≢ g.id) fs
    → Ascending fs
    → Ascending (insert_by feed_le f fs)
insert-Ascending f [] h k = (tt, tt)
insert-Ascending f (g ∷ gs) h k = elim (Bool-cases (feed_le f g)) [
  | inl e ↦ rw e ((ground arith, All-mono _ _ gs (λ x l. ground arith) k.0), k)
  | inr e ↦ rw e (
    All-insert_by (λ x. g.id < x.id) feed_le f gs (ground arith) k.0,
    insert-Ascending f gs h.1 k.1,
  )
]

pub sort-Ascending : (fs : List FeedRow) → DistinctIds fs → Ascending (sort_by feed_le fs)
unfolding sort_by
sort-Ascending [] h = tt
sort-Ascending (f ∷ fs) h =
    insert-Ascending f (sort_by feed_le fs)
      (All-sort_by (λ g. f.id ≢ g.id) feed_le fs (others f fs h.0)) (sort-Ascending fs h.1)

insert_front :
    (f : FeedRow) (fs : List FeedRow) → All (λ g. f.id ≤ g.id) fs → insert_by feed_le f fs ≡ f ∷ fs
insert_front f [] h = refl
insert_front f (g ∷ gs) h = ground arith

module _ (p : FeedRow → Bool) where
  pub select-Ascending : (fs : List FeedRow) → Ascending fs → Ascending (select p fs)
  select-Ascending [] h = tt
  select-Ascending (f ∷ fs) h = elim (Bool-cases (p f)) [
    | inl e ↦ rw e (All-select (λ g. f.id < g.id) p fs h.0, select-Ascending fs h.1)
    | inr e ↦ rw e (select-Ascending fs h.1)
  ]

  select-insert :
      (f : FeedRow) (fs : List FeedRow)
      → Ascending fs
      → select p (insert_by feed_le f fs)
        ≡ (if p f then insert_by feed_le f (select p fs) else select p fs)
  select-insert f [] h = refl
  select-insert f (g ∷ gs) h = elim (Bool-cases (feed_le f g)) [
    | inl e ↦ rw e (
        ground (
          arith,
          insert_front f (select p (g ∷ gs)) (
              All-select (λ x. f.id ≤ x.id) p (g ∷ gs)
                (ground arith, All-mono _ _ gs (λ x l. ground arith) h.0)),
        ))
    | inr e ↦ rw e (ground (arith, select-insert f gs h.1))
  ]

  -- Selecting and sorting may be done in either order.
  pub sort-select :
      (fs : List FeedRow)
      → DistinctIds fs
      → sort_by feed_le (select p fs) ≡ select p (sort_by feed_le fs)
  unfolding sort_by
  sort-select [] h = refl
  sort-select (f ∷ fs) h =
      let inserted = select-insert f (sort_by feed_le fs) (sort-Ascending fs h.1) in
      elim (Bool-cases (p f)) [
        | inl e ↦ rw e (ap (insert_by feed_le f) (sort-select fs h.1) ∙ sym (rw e at inserted))
        | inr e ↦ rw e (sort-select fs h.1 ∙ sym (rw e at inserted))
      ]

-- Of what a narrower test keeps, nothing is lost by a wider one.
pub select-select :
    (p q : FeedRow → Bool) (fs : List FeedRow)
    → ((f : FeedRow) → q f ≡ true → p f ≡ true)
    → select q (select p fs) ≡ select q fs
select-select p q [] h = refl
select-select p q (f ∷ fs) h = ground (arith, h f, select-select p q fs h)

-- A fact about each id holds of the last.
pub All-last_id :
    (P : ℕ → Type 0) (n : ℕ) (fs : List FeedRow)
    → 0 < length fs
    → All (λ f. P f.id) fs
    → P (last_id (take (suc n) fs))
unfolding last_id
All-last_id P n [] h k = absurd (omega arith)
All-last_id P zero (f ∷ fs) h k = k.0
All-last_id P (suc n) (f ∷ []) h k = k.0
All-last_id P (suc n) (f ∷ g ∷ gs) h k = All-last_id P n (g ∷ gs) (omega arith) k.1

select-above :
    (c : ℕ) (fs : List FeedRow) → All (λ g. c < g.id) fs → select (is_after (some c)) fs ≡ fs
unfolding is_after
select-above c [] h = refl
select-above c (f ∷ fs) h = ground (arith, select-above c fs h.1)

skip_head :
    (c : ℕ) (f : FeedRow) (fs : List FeedRow)
    → f.id ≤ c
    → select (is_after (some c)) (f ∷ fs) ≡ select (is_after (some c)) fs
unfolding is_after
skip_head c f fs h = ground arith

-- What comes after the last feed of a page is what the page has left.
pub select-after_page :
    (n : ℕ) (fs : List FeedRow)
    → n < length fs
    → Ascending fs
    → select (is_after (some (last_id (take (suc n) fs)))) fs ≡ drop (suc n) fs
unfolding last_id
select-after_page n [] h k = absurd (omega arith)
select-after_page zero (f ∷ fs) h k = skip_head f.id f fs (omega arith) ∙ select-above f.id fs k.0
select-after_page (suc n) (f ∷ []) h k = absurd (omega arith)
select-after_page (suc n) (f ∷ g ∷ gs) h k =
    let c = last_id (take (suc n) (g ∷ gs)) in
    let above : f.id < c = All-last_id (λ i. f.id < i) n (g ∷ gs) (omega arith) k.0 in
    skip_head c f (g ∷ gs) (omega arith) ∙ select-after_page n (g ∷ gs) (omega arith) k.1

passed : (a : ℕ) (fs : List FeedRow) → All (λ f. a < f.id) (select (is_after (some a)) fs)
unfolding is_after
passed a [] = tt
passed a (f ∷ fs) = ground (arith, passed a fs)

passes_both :
    (a c : ℕ) (f : FeedRow) → a < c → is_after (some c) f ≡ true → is_after (some a) f ≡ true
unfolding is_after
passes_both a c f h k = ground arith

pub select-none : (fs : List FeedRow) → select (is_after none) fs ≡ fs
unfolding is_after
select-none [] = refl
select-none (f ∷ fs) = ap (λ gs. f ∷ gs) (select-none fs)

-- What a page of a cursor leaves is what its last feed leaves.
pub after_page :
    (after : Option ℕ) (n : ℕ) (fs : List FeedRow)
    → 0 < n
    → n < length (select (is_after after) fs)
    → Ascending fs
    → select (is_after (some (last_id (take n (select (is_after after) fs))))) fs
      ≡ drop n (select (is_after after) fs)
after_page after zero fs positive h k = absurd (omega arith)
after_page none (suc n) fs positive h k =
    let longer : suc n < length fs = rw (select-none fs) at h in
    rw (select-none fs) (select-after_page n fs (omega arith) k)
after_page (some a) (suc n) fs positive h k =
    let rest = select (is_after (some a)) fs in
    let c = last_id (take (suc n) rest) in
    let above : a < c = All-last_id (λ i. a < i) n rest (omega arith) (passed a fs) in
    sym (select-select (is_after (some a)) (is_after (some c)) fs (λ f. passes_both a c f above))
    ∙ select-after_page n rest (omega arith) (select-Ascending (is_after (some a)) fs k)
