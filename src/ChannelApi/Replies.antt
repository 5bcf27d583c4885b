-- ===== src/ChannelApi/Replies.antt =====
-- What a reply of internal/notification/httpapi/handler.go tells of the tables.
use feed_flow.Base.{Bool, Option, String, arith, false, refl, some, true, ℕ, ◌==◌, ◌≡◌, ◌≢◌}
use feed_flow.ChannelApi.{
  NewChannel, answer, delete_channel_handler, outcome_of, remove_from, removes, request_channel_id,
  serve, storage_error_reply, storage_unavailable,
}
use feed_flow.Http.{empty_reply, status_of}
use feed_flow.Store.{
  Result, Session, StoreError, channel_conflict, channel_not_found, err, ok, unavailable,
}
use feed_flow.Store.Channels.{delete_channel}
use feed_flow.Store.Invariant.{Inv}
use feed_flow.Store.Keeps.Deleted.{Removed, deleted-Removed}

error_status_not_204 : (e : StoreError) → status_of (storage_error_reply {A = Unit {0}} e) ≢ 204
unfolding storage_error_reply storage_unavailable
error_status_not_204 channel_not_found h = omega (arith, h)
error_status_not_204 channel_conflict h = omega (arith, h)
error_status_not_204 unavailable h = omega (arith, h)
error_status_not_204 _ h = omega (arith, h)

Removed-of_answer :
    (user channel : ℕ) (r : Result (Unit {0}) × Session)
    → (r.0 ≡ ok tt → Removed user channel r.1.tables)
    → (outcome_of (answer {A = Unit {0}} (λ _. empty_reply 204) r)).0 ≡ 204
    → Removed user channel (outcome_of (answer {A = Unit {0}} (λ _. empty_reply 204) r)).1.tables
Removed-of_answer user channel (ok tt, s) h e = h refl
Removed-of_answer user channel (err x, s) h e = absurd (error_status_not_204 x e)

Removed-reply :
    (user : ℕ) (ready : Bool) (channel : ℕ) (s : Session)
    → Inv s.tables
    → (outcome_of (remove_from user ready channel s)).0 ≡ 204
    → Removed user channel (outcome_of (remove_from user ready channel s)).1.tables
unfolding remove_from storage_unavailable
Removed-reply user true channel s v e =
    Removed-of_answer user channel (delete_channel user channel s)
      (deleted-Removed user channel s v) e
Removed-reply user false channel s v e = absurd (omega (arith, e))

-- When the deletion of a channel is answered with 204, the channel has no row, no delivery to it
-- waits or is to be tried again, and the tables are consistent.
pub removes-Removed :
    (decode_new : String → Option (NewChannel × Bool))
    (decode_switch : String → Option (Option Bool × Bool)) (user channel : ℕ) (ready : Bool)
    (s : Session)
    → Inv s.tables
    → channel ≢ 0
    → (serve decode_new decode_switch (some user) ready (removes (some channel)) s).0 ≡ 204
    → Removed user channel
        (serve decode_new decode_switch (some user) ready (removes (some channel)) s).1.tables
unfolding serve delete_channel_handler request_channel_id
removes-Removed decode_new decode_switch user channel ready s v named e =
    let m : (channel == 0) ≡ false = ground (arith, named) in
    rw m (Removed-reply user ready channel s v (rw m at e))
