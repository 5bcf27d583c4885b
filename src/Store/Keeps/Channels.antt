-- ===== src/Store/Keeps/Channels.antt =====
-- internal/notification/postgres/channels.go: the channel operations keep the invariant, and a
-- channel that is disabled or deleted leaves no delivery waiting.
use feed_flow.Base.{
  All, All-mono, Bool, Bool-cases, List, [], any, any-append, arith, false, inl, inr, not, refl,
  select, true, update, ℕ, ◌&&◌, ◌++◌, ◌==◌, ◌∷◌, ◌≡◌,
}
use feed_flow.Store.{
  ChannelRow, DeliveryRow, DispatchRow, InboxRow, M, Result, Session, Tables, err, ok,
}
use feed_flow.Store.Channels.{
  Channel, cancelled_row, classified_call, classify, create_channel, insert_channel, is_known_type,
  is_stored_destination, new_channel, owns, same_destination, store_channel, waits_on,
}
use feed_flow.Store.Invariant.{Inv, KeepsKeys, RowOk}
use feed_flow.Store.Keeps.{Keeps}
use feed_flow.Store.Rows.{has_live_channel, is_waiting, serves}
use feed_flow.Store.Triples.{Outcome, StatementMeets, Triple, run_triple, triple, triple_exec}

pub triple_classified {ℓ} :
    {A : Type ℓ} {P : Tables → Type 0} {m : M A} (Q : A → Tables → Type 0) (E : Tables → Type 0)
    → Triple P m Q E
    → Triple P (classified_call m) Q E
unfolding classified_call
triple_classified {A} {m = m} Q E h = triple (λ s p. go (m s) (run_triple h s p))
  where
    go :
        (r : Result A × Session)
        → Outcome Q E r
        → Outcome Q E (elim r.0 [ ok a ↦ (ok a, r.1) | err e ↦ (err (classify e), r.1) ])
    go (ok a, s) o = o
    go (err e, s) o = o

-- Rows stay right when every channel that serves a waiting row goes on serving it.
pub channels-RowOk :
    (old new : List ChannelRow) (inbox : List InboxRow) (dispatch : List DispatchRow)
    (d : DeliveryRow)
    → (is_waiting d.status ≡ true → has_live_channel old d ≡ true → has_live_channel new d ≡ true)
    → RowOk old inbox dispatch d
    → RowOk new inbox dispatch d
channels-RowOk old new inbox dispatch d keep r = record {
  consistent = r.consistent;
  reported = r.reported;
  deliverable = λ w. keep w (r.deliverable w);
  requested = r.requested;
}

pub channels-Inv :
    (t : Tables) (new : List ChannelRow)
    → ((d : DeliveryRow) → has_live_channel t.channels d ≡ true → has_live_channel new d ≡ true)
    → Inv t
    → Inv (record t { channels = new })
channels-Inv t new keep v = record {
  rows =
      All-mono _ _ t.deliveries
        (λ d r. channels-RowOk t.channels new t.inbox t.dispatch d (λ w h. keep d h) r) v.rows;
  unique_ids = v.unique_ids;
  unique_targets = v.unique_targets;
}

added_live :
    (c : ChannelRow) (d : DeliveryRow) (cs : List ChannelRow)
    → has_live_channel cs d ≡ true
    → has_live_channel (cs ++ c ∷ []) d ≡ true
added_live c d cs h = ground (arith, any-append (serves d) cs (c ∷ []))

-- The insert after its `CHECK` constraints.
stored_channel-Inv :
    (c : Channel) (s : Session)
    → Inv s.tables
    → StatementMeets (λ _ t. Inv t) Inv (store_channel c s)
unfolding store_channel
stored_channel-Inv c s v =
    elim (Bool-cases (any (λ (o : ChannelRow). o.id == c.id) s.tables.channels)) [
      | inl e ↦ rw e v
      | inr e ↦ rw e (elim (Bool-cases (any (same_destination c) s.tables.channels)) [
        | inl f ↦ rw f v
        | inr f ↦ rw f (
            channels-Inv s.tables _
              (λ d h. added_live (new_channel c s.db_now) d s.tables.channels h) v)
      ])
    ]

insert_channel-Inv :
    (c : Channel) (s : Session)
    → Inv s.tables
    → StatementMeets (λ _ t. Inv t) Inv (insert_channel c s)
unfolding insert_channel
insert_channel-Inv c s v = elim (Bool-cases (is_known_type c.channel_type)) [
  | inr e ↦ rw e v
  | inl e ↦ elim (Bool-cases (is_stored_destination c.destination)) [
    | inr f ↦ rw (e, f) v
    | inl f ↦ rw (e, f) (stored_channel-Inv c s v)
  ]
]

-- `CreateChannel` keeps the invariant.
pub create_channel-Keeps : (c : Channel) → Keeps (create_channel c)
unfolding create_channel
create_channel-Keeps c =
    triple_classified _ Inv
      (triple_exec Inv (insert_channel c) _ Inv (λ s v. insert_channel-Inv c s v) (λ t v. v))

-- The row goes to the channel of the user.
abbrev pub is_target : ℕ → ℕ → DeliveryRow → Bool
is_target user channel d = d.channel_id == channel && d.user_id == user

abbrev pub with_enabled : Bool → ChannelRow → ChannelRow
with_enabled b c = record c { enabled = b }

pub enabled_live :
    (user channel : ℕ) (d : DeliveryRow) (cs : List ChannelRow)
    → has_live_channel cs d ≡ true
    → has_live_channel (update (owns user channel) (with_enabled true) cs) d ≡ true
enabled_live user channel d [] h = h
enabled_live user channel d (c ∷ cs) h = ground (arith, enabled_live user channel d cs)

pub disabled_live :
    (user channel : ℕ) (d : DeliveryRow) (cs : List ChannelRow)
    → is_target user channel d ≡ false
    → has_live_channel cs d ≡ true
    → has_live_channel (update (owns user channel) (with_enabled false) cs) d ≡ true
disabled_live user channel d [] n h = h
disabled_live user channel d (c ∷ cs) n h = ground (arith, disabled_live user channel d cs n)

pub removed_live :
    (user channel : ℕ) (d : DeliveryRow) (cs : List ChannelRow)
    → is_target user channel d ≡ false
    → has_live_channel cs d ≡ true
    → has_live_channel (select (λ c. not (owns user channel c)) cs) d ≡ true
removed_live user channel d [] n h = h
removed_live user channel d (c ∷ cs) n h = ground (arith, removed_live user channel d cs n)

pub cancelled_row-KeepsKeys : (now : ℕ) → KeepsKeys (cancelled_row now)
unfolding cancelled_row
cancelled_row-KeepsKeys now = record {
  keeps_id = λ d. refl;
  keeps_event = λ d. refl;
  keeps_channel = λ d. refl;
}

-- Cancelling a waiting row needs no channel.
cancelled_row-RowOk :
    (user channel now : ℕ) (old new : List ChannelRow) (inbox : List InboxRow)
    (dispatch : List DispatchRow) (d : DeliveryRow)
    → RowOk old inbox dispatch d
    → waits_on user channel d ≡ true
    → RowOk new inbox dispatch (cancelled_row now d)
unfolding cancelled_row
cancelled_row-RowOk user channel now old new inbox dispatch d r h = ground arith

-- No delivery waits on the channel.
abbrev pub IsIdle : ℕ → ℕ → Tables → Type 0
IsIdle user channel t = All (λ d. waits_on user channel d ≡ false) t.deliveries

cancelled_row-idle :
    (user channel now : ℕ) (d : DeliveryRow) → waits_on user channel (cancelled_row now d) ≡ false
unfolding cancelled_row
cancelled_row-idle user channel now d = ground arith

pub cancel-IsIdle :
    (user channel now : ℕ) (ds : List DeliveryRow)
    → All
        (λ d. waits_on user channel d ≡ false)
        (update (waits_on user channel) (cancelled_row now) ds)
cancel-IsIdle user channel now [] = tt
cancel-IsIdle user channel now (d ∷ ds) =
    (ground (arith, cancelled_row-idle user channel now d), cancel-IsIdle user channel now ds)
