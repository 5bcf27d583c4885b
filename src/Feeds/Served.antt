-- ===== src/Feeds/Served.antt =====
-- The whole way of a post: internal/database/storage/save_post.go, internal/notification/relay,
-- internal/notification/pipeline/consumer.go and the inbox of internal/notification/postgres.
use feed_flow.Base.{
  Any, Any-append_right, Bool, List, String, [], arith, false, get_elem?, inl, inr, none, refl,
  some, subst, suc, true, zero, ℕ, ◌+◌, ◌∷◌, ◌≡◌, ◌≢◌,
}
use feed_flow.Base.Int.{ℤ}
use feed_flow.Contract.{Codec, Requested}
use feed_flow.Feeds.{EventRow, FeedDb, FollowRow, Outside, PostRow}
use feed_flow.Feeds.Announced.{IsAnnounceable, intent-Announces}
use feed_flow.Feeds.Posts.{intent_row, request_for, save_post}
use feed_flow.Feeds.Saved.{followers_of, intents, save_post_cases, stamped}
use feed_flow.Pipeline.Consumer.{
  DeadLetters, Handled, KafkaRecord, accept, answered, carry_out, process_record, publish_invalid,
  route,
}
use feed_flow.Pipeline.Consumer.RoundTrip.{received}
use feed_flow.Relay.{Record, record_of}
use feed_flow.Store.{Result, Session, err, identity_conflict, ok}
use feed_flow.Store.FanOut.Accepted.{AllServed, accepted-is_served}
use feed_flow.Store.Inbox.{accept_request}
use feed_flow.Store.Redelivery.{is_received}

nth_intent :
    (codec : Codec) (jsonb : Requested → String) (gen : ℕ → ℕ) (now : ℕ) (p : PostRow) (k i : ℕ)
    (fs : List FollowRow) (f : FollowRow)
    → get_elem? fs i ≡ some f
    → Any
        (λ e. e ≡ intent_row codec jsonb now (gen (k + i)) p f.user_id)
        (intents codec jsonb gen now p k fs)
unfolding intents
nth_intent codec jsonb gen now p k i [] f h = cc
nth_intent codec jsonb gen now p k zero (g ∷ gs) f h =
    let same : g ≡ f = cc in let end : k + 0 ≡ k = omega arith in inl (rw (same, end) refl)
nth_intent codec jsonb gen now p k (suc i) (g ∷ gs) f h =
    let next : suc k + i ≡ k + suc i = omega arith in
    inr (
      subst
        (λ n.
          Any (λ e. e ≡ intent_row codec jsonb now (gen n) p f.user_id)
            (intents codec jsonb gen now p (suc k) gs))
        next (nth_intent codec jsonb gen now p (suc k) i gs f h))

-- The record was handled without an error and without a dead letter.
unfoldable pub IsClean : Handled → Type 0
IsClean h = (h.outcome ≡ ok tt) × (h.letter ≡ none)

module _ (codec : Codec) (gen_uuid : ℕ → ℕ) (letters : DeadLetters) (publish : Record → Bool) where
  -- A request that was carried out, and not reported as a dead letter, was accepted.
  answered-accepted :
      (r : KafkaRecord) (a : Result (Unit {0}) × Session)
      → (answered codec gen_uuid letters publish r a).outcome ≡ ok tt
      → (answered codec gen_uuid letters publish r a).letter ≡ none
      → (a.0 ≡ ok tt) × ((answered codec gen_uuid letters publish r a).session ≡ a.1)
  unfolding answered publish_invalid
  answered-accepted r (ok _, s) h k = (refl, refl)
  answered-accepted r (err identity_conflict, s) h k = cc
  answered-accepted r (err _, s) h k = cc

  request-is_served :
      (r : KafkaRecord) (event : Requested) (s : Session)
      → route codec r ≡ accept event
      → is_received event s.tables ≡ false
      → IsClean (process_record codec gen_uuid letters publish (some r) s)
      → AllServed event (process_record codec gen_uuid letters publish (some r) s).session.tables
  unfolding process_record carry_out IsClean AllServed
  request-is_served r event s routed new (h, k) =
      let (done, same) =
        answered-accepted r (accept_request codec gen_uuid event r.value s) (rw routed at h)
          (rw routed at k) in
      rw (routed, same) (accepted-is_served codec gen_uuid event r.value s new done).1

module _ (codec : Codec) (jsonb : Requested → String) (o : Outside) (p : PostRow)
    (db : FeedDb) where
  -- The event of the i-th follow row, as it stands in the outbox and as the consumer reads it.
  abbrev pub follower_row : ℕ → FollowRow → EventRow
  follower_row i f = intent_row codec jsonb (o.clock db.calls) (o.gen_uuid db.calls i) p f.user_id

  abbrev pub follower_event : ℕ → FollowRow → Requested
  follower_event i f = request_for (o.clock db.calls) (o.gen_uuid db.calls i) p f.user_id

  abbrev pub follower_record : (ℤ → String) → ℕ → ℕ → ℕ → FollowRow → KafkaRecord
  follower_record int_string partition offset i f =
      received (record_of codec int_string (follower_row i f).outbox) partition offset

  written :
      (i : ℕ) (f : FollowRow)
      → (save_post codec jsonb o p db).0 ≡ inr true
      → get_elem? (followers_of p.feed_id db.tables) i ≡ some f
      → Any (λ e. e ≡ follower_row i f) (save_post codec jsonb o p db).1.tables.events
  unfolding intent_row request_for
  written i f saved nth = elim (save_post_cases codec jsonb o p db true saved) [
    | inr (wrong, _, _) ↦ cc
    | inl (_, _, same) ↦
        let start : 0 + i ≡ i = omega arith in
        rw same (
          Any-append_right _ db.tables.events _ (
            subst
              (λ n.
                Any
                  (λ e.
                    e
                    ≡ intent_row codec jsonb (o.clock db.calls) (o.gen_uuid db.calls n) p f.user_id)
                  (intents codec jsonb (o.gen_uuid db.calls) (o.clock db.calls)
                    (stamped codec jsonb o p db) 0 (followers_of p.feed_id db.tables)))
              start
              (nth_intent codec jsonb (o.gen_uuid db.calls) (o.clock db.calls)
                (stamped codec jsonb o p db) 0 i (followers_of p.feed_id db.tables) f nth)))
  ]

follower_routed :
    (codec : Codec) (jsonb : Requested → String) (int_string : ℤ → String) (o : Outside)
    (p : PostRow) (db : FeedDb) (partition offset i : ℕ) (f : FollowRow)
    → IsAnnounceable codec jsonb int_string (o.gen_uuid db.calls) (o.clock db.calls) p
    → f.user_id ≢ 0
    → route codec (follower_record codec jsonb o p db int_string partition offset i f)
      ≡ accept (follower_event codec jsonb o p db i f)
unfolding intent_row
follower_routed codec jsonb int_string o p db partition offset i f fit named =
    intent-Announces codec jsonb int_string (o.gen_uuid db.calls) (o.clock db.calls) p partition
      offset fit i f named

-- When SavePost reports a new post, the outbox has for the i-th follow row of its feed the event
-- with the i-th UUID of the statement; and when the consumer processes the record that the relay
-- makes of this event without an error and without a dead letter, and had not received it before,
-- each enabled channel of the follower has a delivery of it. It asks of the post and the encodings
-- what the contract wants, as for the announcement of a post.
pub saved-AllServed :
    (codec : Codec) (jsonb : Requested → String) (int_string : ℤ → String) (o : Outside)
    (p : PostRow) (db : FeedDb) (partition offset : ℕ) (gen_uuid : ℕ → ℕ) (letters : DeadLetters)
    (publish : Record → Bool) (i : ℕ) (f : FollowRow) (s : Session)
    → IsAnnounceable codec jsonb int_string (o.gen_uuid db.calls) (o.clock db.calls) p
    → (save_post codec jsonb o p db).0 ≡ inr true
    → get_elem? (followers_of p.feed_id db.tables) i ≡ some f
    → f.user_id ≢ 0
    → is_received (follower_event codec jsonb o p db i f) s.tables ≡ false
    → IsClean (
        process_record codec gen_uuid letters publish
          (some (follower_record codec jsonb o p db int_string partition offset i f))
          s)
    → Any
        (λ e. e ≡ follower_row codec jsonb o p db i f)
        (save_post codec jsonb o p db).1.tables.events
      × AllServed
          (follower_event codec jsonb o p db i f)
          (process_record codec gen_uuid letters publish
            (some (follower_record codec jsonb o p db int_string partition offset i f))
            s).session.tables
saved-AllServed codec jsonb int_string o p db partition offset gen_uuid letters publish i f s fit
      saved nth named new clean =
    (
      written codec jsonb o p db i f saved nth,
      request-is_served codec gen_uuid letters publish
          (follower_record codec jsonb o p db int_string partition offset i f)
          (follower_event codec jsonb o p db i f) s
          (follower_routed codec jsonb int_string o p db partition offset i f fit named) new clean,
    )
