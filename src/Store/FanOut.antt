-- ===== src/Store/FanOut.antt =====
-- The deliveries that `AcceptRequest` of internal/notification/postgres/pipeline.go makes.
pub mod Accepted
use feed_flow.Base.{
  All, Bool, Bool-cases, List, [], any, any-append, arith, inl, inr, not, refl, true, ℕ, ◌&&◌, ◌==◌,
  ◌||◌, ◌∙◌, ◌∷◌, ◌≡◌,
}
use feed_flow.Contract.{Requested}
use feed_flow.Store.{ChannelRow, DeliveryRow, Result, Tables, err, ok}
use feed_flow.Store.Inbox.{add_deliveries, add_delivery, new_delivery}
use feed_flow.Store.Rows.{has_id, same_target}

-- The channel is not to get the event, or has a delivery of it.
abbrev pub is_served : Requested → Tables → ChannelRow → Bool
is_served event t c =
    not (c.user_id == event.user_id && c.enabled)
    || any (same_target event.event_id c.id) t.deliveries

-- Rows are added and none is taken away, in tables whose channels and inbox stay.
pub record Grows (t t' : Tables) : Type 0 where
  pub same_channels : t'.channels ≡ t.channels
  pub same_inbox : t'.inbox ≡ t.inbox
  pub grows : (p : DeliveryRow → Bool) → any p t.deliveries ≡ true → any p t'.deliveries ≡ true

Grows-refl : (t : Tables) → Grows t t
Grows-refl t = record { same_channels = refl; same_inbox = refl; grows = λ p h. h }

Grows-trans : (a b c : Tables) → Grows a b → Grows b c → Grows a c
Grows-trans a b c g h = record {
  same_channels = h.same_channels ∙ g.same_channels;
  same_inbox = h.same_inbox ∙ g.same_inbox;
  grows = λ p e. h.grows p (g.grows p e);
}

is_served-Grows :
    (event : Requested) (t t' : Tables) (c : ChannelRow)
    → Grows t t'
    → is_served event t c ≡ true
    → is_served event t' c ≡ true
is_served-Grows event t t' c g h = ground (arith, g.grows (same_target event.event_id c.id))

module _ (gen_uuid : ℕ → ℕ) (now : ℕ) (event : Requested) where
  -- What one insertion does, where it reports no error.
  abbrev Adds : ChannelRow → Tables → Result (Unit {0}) × Tables → Type 0
  Adds c t r = Grows t r.1 × (r.0 ≡ ok tt → is_served event r.1 c ≡ true)

  add_delivery-Adds : (c : ChannelRow) (t : Tables) → Adds c t (add_delivery gen_uuid now event c t)
  unfolding add_delivery new_delivery
  add_delivery-Adds c t = elim (Bool-cases (is_served event t c)) [
    | inl skip ↦ rw skip (Grows-refl t, λ h. skip)
    | inr wanted ↦ rw wanted (elim (Bool-cases (any (has_id (gen_uuid t.drawn)) t.deliveries)) [
      | inl taken ↦ rw taken (Grows-refl t, λ h. cc)
      | inr fresh ↦ rw fresh (
        record {
          same_channels = refl;
          same_inbox = refl;
          grows = λ p h. any-append p t.deliveries _ ∙ rw h refl;
        },
        λ h. ground (
          arith,
          any-append (same_target event.event_id c.id) t.deliveries
              (new_delivery gen_uuid now event c t.drawn ∷ []),
        ),
      )
    ])
  ]

  abbrev pub AddsAll : List ChannelRow → Tables → Result (Unit {0}) × Tables → Type 0
  AddsAll cs t r = Grows t r.1 × (r.0 ≡ ok tt → All (λ c. is_served event r.1 c ≡ true) cs)

  then_rest :
      (c : ChannelRow) (cs : List ChannelRow) (t : Tables) (r : Result (Unit {0}) × Tables)
      → Adds c t r
      → ((t' : Tables) → AddsAll cs t' (add_deliveries gen_uuid now event cs t'))
      → AddsAll
          (c ∷ cs)
          t
          (elim r.0 [ ok _ ↦ add_deliveries gen_uuid now event cs r.1 | err e ↦ (err e, r.1) ])
  then_rest c cs t (ok tt, t') (g, served) rest = (
    Grows-trans t t' _ g (rest t').0,
    λ h. (is_served-Grows event t' _ c (rest t').0 (served refl), (rest t').1 h),
  )
  then_rest c cs t (err e, t') (g, served) rest = (g, λ h. cc)

  pub add_deliveries-AddsAll :
      (cs : List ChannelRow) (t : Tables) → AddsAll cs t (add_deliveries gen_uuid now event cs t)
  unfolding add_deliveries
  add_deliveries-AddsAll [] t = (Grows-refl t, λ h. tt)
  add_deliveries-AddsAll (c ∷ cs) t =
      then_rest c cs t (add_delivery gen_uuid now event c t) (add_delivery-Adds c t)
        (λ t'. add_deliveries-AddsAll cs t')
