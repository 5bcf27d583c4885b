-- ===== src/ChannelApi/Isolation/Requests.antt =====
-- The handlers of internal/notification/httpapi/handler.go act for the user of the request alone.
use feed_flow.Base.{
  Bool, Bool-cases, Option, String, false, inl, inr, map, none, refl, some, ℕ, ◌⊎◌,
}
use feed_flow.Base.Text.{trim_space}
use feed_flow.ChannelApi.{
  ChannelCall, NewChannel, answer, create_from, delete_channel_handler, for_channel,
  is_channel_type, is_destination, list_channels, lists, outcome_of, patch_channel, patches,
  post_channel, posts, remove_from, removes, request_channel_id, response_for, serve, switch_from,
}
use feed_flow.ChannelApi.Isolation.{
  SparesOthers, create-SparesOthers, delete-SparesOthers, get-SparesOthers, switch-SparesOthers,
}
use feed_flow.Http.{DecodeError, Reply, decode_json, empty_reply, value_reply}
use feed_flow.Store.{Result, Session, Tables, err, ok}
use feed_flow.Store.Channels.{delete_channel, get_channels, set_channel_enabled}
use feed_flow.Store.Triples.{Outcome, run_triple}

-- The handler's answer leaves the other users' rows alone.
data Spared (user : ℕ) (before : Tables) {A : Type 0} (x : Reply A × Session) : Type 0 where
  spared : SparesOthers user before x.1.tables → Spared user before x

module _ (user : ℕ) (before : Tables) where
  Spared-answer {ℓ} :
      {B : Type ℓ} {A : Type 0} (reply : B → Reply A) (r : Result B × Session)
      → Outcome (λ _. SparesOthers user before) (SparesOthers user before) r
      → Spared user before (answer reply r)
  Spared-answer reply (ok b, s) h = spared h
  Spared-answer reply (err e, s) h = spared h

  create-Spared :
      (ready : Bool) (new_id : ℕ) (o : DecodeError ⊎ NewChannel) (s : Session)
      → SparesOthers user before s.tables
      → Spared user before (create_from user ready new_id o s)
  unfolding create_from
  create-Spared ready new_id (inl e) s h = spared h
  create-Spared ready new_id (inr request) s h =
      let destination = trim_space request.destination in
      elim (Bool-cases (is_channel_type request.channel_type)) [
        | inr e ↦ rw e (spared h)
        | inl e ↦ rw e (elim (Bool-cases (is_destination destination)) [
          | inr d ↦ rw d (spared h)
          | inl d ↦ rw d (elim (Bool-cases ready) [
            | inr r ↦ rw r (spared h)
            | inl r ↦ rw r (
                Spared-answer (λ c. value_reply 201 (response_for c)) _
                  (run_triple
                    (create-SparesOthers user before
                      (record {
                        id = new_id;
                        user_id = user;
                        channel_type = request.channel_type;
                        destination = destination;
                        enabled = false;
                      })
                      refl)
                    s h))
          ])
        ])
      ]

  switch-Spared :
      (channel : ℕ) (ready : Bool) (o : DecodeError ⊎ Option Bool) (s : Session)
      → SparesOthers user before s.tables
      → Spared user before (switch_from user channel ready o s)
  unfolding switch_from
  switch-Spared channel ready (inl e) s h = spared h
  switch-Spared channel ready (inr none) s h = spared h
  switch-Spared channel ready (inr (some enabled)) s h = elim (Bool-cases ready) [
    | inr r ↦ rw r (spared h)
    | inl r ↦ rw r (
        Spared-answer (λ c. value_reply 200 (response_for c))
          (set_channel_enabled user channel enabled s)
          (run_triple (switch-SparesOthers user before channel enabled) s h))
  ]

  list-Spared :
      (ready : Bool) (s : Session)
      → SparesOthers user before s.tables
      → Spared user before (list_channels (some user) ready s)
  unfolding list_channels
  list-Spared ready s h = elim (Bool-cases ready) [
    | inr r ↦ rw r (spared h)
    | inl r ↦ rw r (
        Spared-answer (λ cs. value_reply 200 (map response_for cs)) (get_channels user s)
          (run_triple (get-SparesOthers user before user) s h))
  ]

  remove-Spared :
      (ready : Bool) (channel : ℕ) (s : Session)
      → SparesOthers user before s.tables
      → Spared user before (remove_from user ready channel s)
  unfolding remove_from
  remove-Spared ready channel s h = elim (Bool-cases ready) [
    | inr r ↦ rw r (spared h)
    | inl r ↦ rw r (
        Spared-answer (λ _. empty_reply 204) (delete_channel user channel s)
          (run_triple (delete-SparesOthers user before channel) s h))
  ]

  for_channel-Spared :
      {A : Type 0} (o : Option ℕ) (handle : ℕ → Session → Reply A × Session) (s : Session)
      → SparesOthers user before s.tables
      → ((channel : ℕ) → Spared user before (handle channel s))
      → Spared user before (for_channel o handle s)
  for_channel-Spared none handle s h k = spared h
  for_channel-Spared (some channel) handle s h k = k channel

  Spared-tables :
      {A : Type 0} (x : Reply A × Session)
      → Spared user before x
      → SparesOthers user before (outcome_of x).1.tables
  Spared-tables (r, s) (spared h) = h

-- No request changes a channel or a delivery of another user than the one that it is made for,
-- whatever the database does.
pub serve-SparesOthers :
    (decode_new : String → Option (NewChannel × Bool))
    (decode_switch : String → Option (Option Bool × Bool)) (user : ℕ) (ready : Bool)
    (call : ChannelCall) (s : Session)
    → SparesOthers user s.tables (serve decode_new decode_switch (some user) ready call s).1.tables
unfolding serve post_channel patch_channel delete_channel_handler
serve-SparesOthers decode_new decode_switch user ready (posts body new_id) s =
    Spared-tables user s.tables _
      (create-Spared user s.tables ready new_id (decode_json decode_new body) s (refl, refl))
serve-SparesOthers decode_new decode_switch user ready lists s =
    Spared-tables user s.tables _ (list-Spared user s.tables ready s (refl, refl))
serve-SparesOthers decode_new decode_switch user ready (patches path_id body) s =
    Spared-tables user s.tables _ (
      for_channel-Spared user s.tables (request_channel_id path_id)
        (λ channel. switch_from user channel ready (decode_json decode_switch body)) s (refl, refl)
        (λ channel.
          switch-Spared user s.tables channel ready (decode_json decode_switch body) s
            (refl, refl)))
serve-SparesOthers decode_new decode_switch user ready (removes path_id) s =
    Spared-tables user s.tables _ (
      for_channel-Spared user s.tables (request_channel_id path_id) (remove_from user ready) s
        (refl, refl) (λ channel. remove-Spared user s.tables ready channel s (refl, refl)))
