-- ===== src/Store/Keeps/Inbox.antt =====
-- `AcceptRequest` of internal/notification/postgres/pipeline.go.
use feed_flow.Base.{
  All, All-append, All-mono, Bool, Bool-cases, Distinct-append, List, String, [], any, any-append,
  arith, false, inl, inr, not, refl, true, ℕ, ◌&&◌, ◌++◌, ◌+◌, ◌==◌, ◌||◌, ◌∷◌, ◌≡◌,
}
use feed_flow.Contract.{Requested}
use feed_flow.Store.{ChannelRow, DeliveryRow, DispatchRow, InboxRow, Session, Tables}
use feed_flow.Store.Inbox.{add_delivery, inbox_row, insert_inbox, new_delivery}
use feed_flow.Store.Invariant.{Inv, RowOk, clash_id, clash_target}
use feed_flow.Store.Rows.{has_id, has_live_channel, same_target, serves}
use feed_flow.Store.Triples.{Always, StatementMeets}

-- A longer inbox keeps every row right.
inbox_row-RowOk :
    (channels : List ChannelRow) (inbox more : List InboxRow) (dispatch : List DispatchRow)
    (d : DeliveryRow)
    → RowOk channels inbox dispatch d
    → RowOk channels (inbox ++ more) dispatch d
inbox_row-RowOk channels inbox more dispatch d r =
    ground (arith, any-append (λ i. i.event_id == d.event_id && i.user_id == d.user_id) inbox more)

longer_inbox-Inv :
    (t : Tables) (row : InboxRow) → Inv t → Inv (record t { inbox = t.inbox ++ row ∷ [] })
longer_inbox-Inv t row v = record {
  rows =
      All-mono _ _ t.deliveries
        (λ d r. inbox_row-RowOk t.channels t.inbox (row ∷ []) t.dispatch d r) v.rows;
  unique_ids = v.unique_ids;
  unique_targets = v.unique_targets;
}

abbrev pub is_request : Requested → InboxRow → Bool
is_request event i = i.event_id == event.event_id && i.user_id == event.user_id

-- The inbox holds the request of the deliveries that are to be made.
abbrev pub Requesting : Requested → Tables → Type 0
Requesting event t = Inv t × (any (is_request event) t.inbox ≡ true)

any-append_last :
    (event : Requested) (payload : String) (inbox : List InboxRow)
    → any (is_request event) (inbox ++ inbox_row event payload ∷ []) ≡ true
any-append_last event payload inbox =
    ground (arith, any-append (is_request event) inbox (inbox_row event payload ∷ []))

-- After the insertion: the invariant, and the request's row if one was added.
abbrev pub Inserted : Requested → Bool → Tables → Type 0
Inserted event true t = Requesting event t
Inserted event false t = Inv t

pub insert_inbox-Inv :
    (event : Requested) (payload : String) (s : Session)
    → Inv s.tables
    → StatementMeets (Inserted event) Inv (insert_inbox event payload s)
unfolding insert_inbox
insert_inbox-Inv event payload s v =
    elim (Bool-cases (any (λ (i : InboxRow). i.event_id == event.event_id) s.tables.inbox)) [
      | inl e ↦ rw e v
      | inr e ↦ rw e (
        longer_inbox-Inv s.tables (inbox_row event payload) v,
        any-append_last event payload s.tables.inbox,
      )
    ]

-- A channel of the table serves what it serves.
abbrev pub IsListed : List ChannelRow → ChannelRow → Type 0
IsListed channels c = (d : DeliveryRow) → serves d c ≡ true → has_live_channel channels d ≡ true

IsListed-cons :
    (x : ChannelRow) (channels : List ChannelRow) (c : ChannelRow)
    → IsListed channels c
    → IsListed (x ∷ channels) c
IsListed-cons x channels c h d e = ground (arith, h d)

pub All-IsListed : (channels : List ChannelRow) → All (IsListed channels) channels
All-IsListed [] = tt
All-IsListed (c ∷ cs) =
    ((λ d e. ground arith), All-mono _ _ cs (λ x h. IsListed-cons c cs x h) (All-IsListed cs))

new_delivery-RowOk :
    (gen_uuid : ℕ → ℕ) (now : ℕ) (event : Requested) (c : ChannelRow) (drawn : ℕ) (t : Tables)
    → IsListed t.channels c
    → any (is_request event) t.inbox ≡ true
    → c.user_id ≡ event.user_id
    → c.enabled ≡ true
    → RowOk t.channels t.inbox t.dispatch (new_delivery gen_uuid now event c drawn)
unfolding new_delivery
new_delivery-RowOk gen_uuid now event c drawn t listed r u e = record {
  consistent = ground arith;
  reported = ground arith;
  deliverable = λ w. listed (new_delivery gen_uuid now event c drawn) (ground arith);
  requested = r;
}

append-Inv :
    (t : Tables) (d : DeliveryRow) (n : ℕ)
    → RowOk t.channels t.inbox t.dispatch d
    → any (clash_id d) t.deliveries ≡ false
    → any (clash_target d) t.deliveries ≡ false
    → Inv t
    → Inv (record t { deliveries = t.deliveries ++ d ∷ []; drawn = n })
append-Inv t d n r i g v = record {
  rows = All-append _ t.deliveries (d ∷ []) v.rows (r, tt);
  unique_ids = Distinct-append clash_id t.deliveries d (λ x. ground arith) i v.unique_ids;
  unique_targets =
      Distinct-append clash_target t.deliveries d (λ x. ground arith) g v.unique_targets;
}

pub add_delivery-Requesting :
    (gen_uuid : ℕ → ℕ) (now : ℕ) (event : Requested) (c : ChannelRow) (t : Tables)
    → IsListed t.channels c
    → Requesting event t
    → StatementMeets (λ _. Requesting event) Always (add_delivery gen_uuid now event c t)
      × ((add_delivery gen_uuid now event c t).1.channels ≡ t.channels)
unfolding add_delivery
add_delivery-Requesting gen_uuid now event c t live v =
    elim (Bool-cases (
      not (c.user_id == event.user_id && c.enabled)
      || any (same_target event.event_id c.id) t.deliveries)) [
        | inl skip ↦ rw skip (v, refl)
        | inr wanted ↦ elim (Bool-cases (any (has_id (gen_uuid t.drawn)) t.deliveries)) [
          | inl taken ↦ rw (wanted, taken) (tt, refl)
          | inr fresh ↦
              rw (wanted, fresh)
                (
                  (
                    append-Inv t (new_delivery gen_uuid now event c t.drawn) (t.drawn + 1)
                        (new_delivery-RowOk gen_uuid now event c t.drawn t live v.1 (ground arith)
                          (ground arith))
                        fresh (ground arith) v.0,
                    v.1,
                  ),
                  refl,
                )
        ]
      ]
