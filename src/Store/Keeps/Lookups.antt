-- ===== src/Store/Keeps/Lookups.antt =====
-- What the look-ups of internal/notification/postgres/pipeline.go find: the row of a UUID, the
-- channel of a row, the dispatch row of a key.
use feed_flow.Base.{
  All, All-mono, Bool, Bool-cases, Distinct, List, Option, Option-cases, [], any, any-append, arith,
  false, find, inl, inr, none, refl, some, subst, true, ℕ, ◌∷◌, ◌≡◌,
}
use feed_flow.Store.{ChannelRow, DeliveryRow, DispatchRow, Tables, exec}
use feed_flow.Store.Invariant.{clash_id}
use feed_flow.Store.Outcomes.{active_row, channel_active}
use feed_flow.Store.Rows.{add_dispatch, delivers_to, has_id, has_live_channel, same_dispatch}
use feed_flow.Store.Triples.{Always, Triple, triple_exec}

none_same :
    (d0 : DeliveryRow) (ds : List DeliveryRow)
    → any (clash_id d0) ds ≡ false
    → All (λ x. has_id d0.id x ≡ true → x ≡ d0) ds
none_same d0 [] h = tt
none_same d0 (d ∷ ds) h = (λ e. ground arith, none_same d0 ds (ground arith))

-- The row that `find` gives for a UUID is the only one with it.
pub find-same_row :
    (i : ℕ) (ds : List DeliveryRow) (d0 : DeliveryRow)
    → Distinct clash_id ds
    → find (has_id i) ds ≡ some d0
    → All (λ x. has_id i x ≡ true → x ≡ d0) ds
find-same_row i [] d0 u h = tt
find-same_row i (d ∷ ds) d0 u h = elim (Bool-cases (has_id i d)) [
  | inl hit ↦
      let same : d ≡ d0 = ground arith in
      let key : d.id ≡ i = ground arith in
      (
        λ e. same,
        subst (λ y. All (λ x. has_id i x ≡ true → x ≡ y) ds) same
            (subst (λ j. All (λ x. has_id j x ≡ true → x ≡ d) ds) key (none_same d ds u.0)),
      )
  | inr miss ↦ (λ e. ground arith, find-same_row i ds d0 u.1 (ground arith))
]

pub find-serves :
    (d : DeliveryRow) (channels : List ChannelRow) (c : ChannelRow)
    → find (delivers_to d) channels ≡ some c
    → c.enabled ≡ true
    → has_live_channel channels d ≡ true
find-serves d [] c h e = cc
find-serves d (x ∷ xs) c h e = ground (arith, find-serves d xs c)

active_rows_some :
    (d0 : DeliveryRow) (channels : List ChannelRow)
    → active_row (some d0) channels ≡ true
    → has_live_channel channels d0 ≡ true
active_rows_some d0 channels h = elim (Option-cases (find (delivers_to d0) channels)) [
  | inl e ↦ ground (arith, e)
  | inr (c, e) ↦ find-serves d0 channels c e (ground (arith, e))
]

-- The channel of every row with a UUID is live.
abbrev pub IsActive : ℕ → Tables → Type 0
IsActive i t = All (λ d. has_id i d ≡ true → has_live_channel t.channels d ≡ true) t.deliveries

abbrev pub Answers : ℕ → Bool → Tables → Type 0
Answers i true t = IsActive i t
Answers i false t = Unit

active_Answers :
    (i : ℕ) (t : Tables) (o : Option DeliveryRow) (b : Bool)
    → Distinct clash_id t.deliveries
    → find (has_id i) t.deliveries ≡ o
    → active_row o t.channels ≡ b
    → Answers i b t
active_Answers i t none true u f h = cc
active_Answers i t (some d0) true u f h =
    All-mono _ _ t.deliveries (λ x same e. rw (same e) (active_rows_some d0 t.channels h))
      (find-same_row i t.deliveries d0 u f)
active_Answers i t o false u f h = tt

-- `channelActive` answers yes only where the row's channel is live.
pub channel_active_triple :
    (i : ℕ) (P : Tables → Type 0)
    → ((t : Tables) → P t → Distinct clash_id t.deliveries)
    → Triple P (exec (channel_active i)) (λ b t. P t × Answers i b t) Always
unfolding channel_active
channel_active_triple i P unique =
    triple_exec P (channel_active i) _ Always
      (λ s p. (p, active_Answers i s.tables _ _ (unique s.tables p) refl refl)) (λ t p. tt)

pub add_dispatch_mono :
    (p : DispatchRow → Bool) (o : DispatchRow) (os : List DispatchRow)
    → any p os ≡ true
    → any p (add_dispatch o os) ≡ true
add_dispatch_mono p o os h = ground (arith, any-append p os (o ∷ []))

pub add_dispatch-has :
    (o : DispatchRow) (os : List DispatchRow)
    → any (same_dispatch o.delivery_id o.kind o.attempt_no) (add_dispatch o os) ≡ true
add_dispatch-has o os =
    ground (arith, any-append (same_dispatch o.delivery_id o.kind o.attempt_no) os (o ∷ []))
