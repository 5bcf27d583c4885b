-- ===== src/ChannelApi/Isolation.antt =====
-- The channel operations of internal/notification/postgres/channels.go touch the rows of one user.
pub mod Requests
use feed_flow.Base.{
  Bool, Bool-cases, List, Option, [], any, arith, false, find, if◌then◌else◌, inl, inr, none, not,
  refl, select, some, true, update, ℕ, ◌++◌, ◌==◌, ◌∙◌, ◌∷◌, ◌≡◌,
}
use feed_flow.Store.{
  ChannelRow, DeliveryRow, M, Session, Tables, channel_not_found, err, exec, ok, return, throw,
}
use feed_flow.Store.Channels.{
  Channel, cancel_deliveries, cancelled_row, create_channel, delete_channel, get_channels,
  insert_channel, is_known_type, is_stored_destination, new_channel, owns, remove_channel,
  same_destination, scan_channel, select_channels, set_channel_enabled, store_channel,
  update_enabled, waits_on,
}
use feed_flow.Store.Keeps.Channels.{triple_classified, with_enabled}
use feed_flow.Store.Triples.{
  Always, StatementMeets, Triple, triple_bind, triple_exec, triple_if, triple_mono, triple_return,
  triple_throw, triple_transaction,
}

-- The channels and the deliveries of all other users.
abbrev pub others_channels : ℕ → Tables → List ChannelRow
others_channels user t = select (λ c. not (c.user_id == user)) t.channels

abbrev pub others_deliveries : ℕ → Tables → List DeliveryRow
others_deliveries user t = select (λ d. not (d.user_id == user)) t.deliveries

-- The other users' rows are those of the tables before.
abbrev pub SparesOthers : ℕ → Tables → Tables → Type 0
SparesOthers user before t =
    (others_channels user t ≡ others_channels user before)
    × (others_deliveries user t ≡ others_deliveries user before)

select-update {ℓ} :
    {A : Type ℓ} (q p : A → Bool) (f : A → A) (xs : List A)
    → ((x : A) → p x ≡ true → q x ≡ false)
    → ((x : A) → q (f x) ≡ q x)
    → select q (update p f xs) ≡ select q xs
select-update q p f [] out same = refl
select-update q p f (x ∷ xs) out same =
    ground (arith, out x, same x, select-update q p f xs out same)

select-select {ℓ} :
    {A : Type ℓ} (q p : A → Bool) (xs : List A)
    → ((x : A) → q x ≡ true → p x ≡ true)
    → select q (select p xs) ≡ select q xs
select-select q p [] wider = refl
select-select q p (x ∷ xs) wider = ground (arith, wider x, select-select q p xs wider)

select-append_last {ℓ} :
    {A : Type ℓ} (q : A → Bool) (xs : List A) (x : A)
    → q x ≡ false
    → select q (xs ++ x ∷ []) ≡ select q xs
select-append_last q [] x out = rw out refl
select-append_last q (y ∷ ys) x out = ground (arith, select-append_last q ys x out)

module _ (user : ℕ) (before : Tables) where
  abbrev Spares {ℓ} : {A : Type ℓ} → M A → Type ℓ
  Spares m =
      Triple (SparesOthers user before) m (λ _. SparesOthers user before) (SparesOthers user before)

  cancel-SparesOthers : (channel : ℕ) → Spares (exec (cancel_deliveries user channel))
  unfolding cancel_deliveries cancelled_row
  cancel-SparesOthers channel =
      triple_exec _ _ _ _
        (λ s h. (
          h.0,
          select-update (λ (d : DeliveryRow). not (d.user_id == user)) (waits_on user channel)
                (cancelled_row s.db_now) s.tables.deliveries (λ d w. ground arith) (λ d. refl)
              ∙ h.1,
        ))
        (λ t h. h)

  pub create-SparesOthers : (c : Channel) → c.user_id ≡ user → Spares (create_channel c)
  unfolding create_channel insert_channel store_channel
  create-SparesOthers c own =
      triple_classified _ _ (triple_exec _ _ _ _ (λ s h. created s h) (λ t h. h))
    where
      stored :
          (s : Session)
          → SparesOthers user before s.tables
          → StatementMeets
              (λ _. SparesOthers user before)
              (SparesOthers user before)
              (store_channel c s)
      stored s h = elim (Bool-cases (any (λ (o : ChannelRow). o.id == c.id) s.tables.channels)) [
        | inl known ↦ rw known h
        | inr fresh ↦ rw fresh (elim (Bool-cases (any (same_destination c) s.tables.channels)) [
          | inl known ↦ rw known h
          | inr free ↦ rw free (
            select-append_last (λ (x : ChannelRow). not (x.user_id == user)) s.tables.channels
                  (new_channel c s.db_now) (ground (arith, own))
                ∙ h.0,
            h.1,
          )
        ])
      ]

      created :
          (s : Session)
          → SparesOthers user before s.tables
          → StatementMeets
              (λ _. SparesOthers user before)
              (SparesOthers user before)
              (insert_channel c s)
      created s h = elim (Bool-cases (is_known_type c.channel_type)) [
        | inr e ↦ rw e h
        | inl e ↦ elim (Bool-cases (is_stored_destination c.destination)) [
          | inr f ↦ rw (e, f) h
          | inl f ↦ rw (e, f) (stored s h)
        ]
      ]

  pub get-SparesOthers : (u : ℕ) → Spares (get_channels u)
  unfolding get_channels select_channels
  get-SparesOthers u = triple_classified _ _ (triple_exec _ _ _ _ (λ s h. h) (λ t h. h))

  enable-SparesOthers : (channel : ℕ) (b : Bool) → Spares (exec (update_enabled user channel b))
  unfolding update_enabled
  enable-SparesOthers channel b =
      triple_exec _ _ _ _ (λ s h. found s h (find (owns user channel) s.tables.channels)) (λ t h. h)
    where
      found :
          (s : Session)
          → SparesOthers user before s.tables
          → (o : Option ChannelRow)
          → StatementMeets {A = Channel}
              (λ _. SparesOthers user before)
              (SparesOthers user before)
              (elim o [
                | none ↦ (err channel_not_found, s.tables)
                | some c ↦ (
                  ok (scan_channel (with_enabled b c)),
                  record s.tables {
                    channels = update (owns user channel) (with_enabled b) s.tables.channels;
                  },
                )
              ])
      found s h none = h
      found s h (some c) = (
        select-update (λ (x : ChannelRow). not (x.user_id == user)) (owns user channel)
              (with_enabled b) s.tables.channels (λ x o. ground arith) (λ x. refl)
            ∙ h.0,
        h.1,
      )

  pub switch-SparesOthers : (channel : ℕ) (b : Bool) → Spares (set_channel_enabled user channel b)
  unfolding set_channel_enabled
  switch-SparesOthers channel b = triple_classified _ _ (
      triple_transaction _ _ _ _ (λ t h. h) (λ _ t h. h)
        (triple_mono _ (λ _. SparesOthers user before) (SparesOthers user before) Always
          (λ _ t h. h) (λ t h. tt)
          (triple_bind _ (enable-SparesOthers channel b) (λ c.
            triple_bind (λ _. SparesOthers user before) (cancelling b)
              (λ _. triple_return _ c _ _ (λ t h. h))))))
    where
      cancelling :
          (b : Bool) → Spares (if b then return tt else exec (cancel_deliveries user channel))
      cancelling true = triple_return _ tt _ _ (λ t h. h)
      cancelling false = cancel-SparesOthers channel

  remove-SparesOthers : (channel : ℕ) → Spares (exec (remove_channel user channel))
  unfolding remove_channel
  remove-SparesOthers channel =
      triple_exec _ _ _ _
        (λ s h. (
          select-select (λ (x : ChannelRow). not (x.user_id == user))
                (λ (x : ChannelRow). not (owns user channel x)) s.tables.channels
                (λ x o. ground arith)
              ∙ h.0,
          h.1,
        ))
        (λ t h. h)

  pub delete-SparesOthers : (channel : ℕ) → Spares (delete_channel user channel)
  unfolding delete_channel
  delete-SparesOthers channel = triple_classified _ _ (
      triple_transaction _ _ _ _ (λ t h. h) (λ _ t h. h)
        (triple_mono _ (λ _. SparesOthers user before) (SparesOthers user before) Always
          (λ _ t h. h) (λ t h. tt)
          (triple_bind (λ _. SparesOthers user before) (cancel-SparesOthers channel)
            (λ _.
              triple_bind (λ _. SparesOthers user before) (remove-SparesOthers channel)
                (λ n.
                  triple_if (n == 1) _ (return tt) (throw channel_not_found) _ _
                    (λ e. triple_return _ tt _ _ (λ t h. h))
                    (λ e. triple_throw _ channel_not_found _ _ (λ t h. h)))))))
