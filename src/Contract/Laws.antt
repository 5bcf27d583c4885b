-- ===== src/Contract/Laws.antt =====
-- Which events internal/notification/contract/validate.go accepts.
use feed_flow.Base.{
  Bool, Option, String, ap, arith, false, if◌then◌else◌, inl, inr, none, not, refl, some,
  str_eq_iff, subst, sym, true, ◌↔◌, ◌∙◌, ◌≡◌, ◌≢◌,
}
use feed_flow.Base.Int.{eq_ℤ, negsuc, pos, ℤ, ◌≤ℤ◌}
use feed_flow.Base.Text.{is_empty, trim_space}
use feed_flow.Contract.{
  Codec, Headers, InvalidEvent, Requested, RetryEvent, checked_request, checked_retry,
  decode_requested, decode_retry, header, headers_match, incomplete_request, invalid_header,
  invalid_url, is_complete, is_web_url, notification_requested, requested_schema_v1,
  template_new_post, trailing_json, wanted_headers,
}

-- What a request must say, and what must stand beside it in the Kafka record.
pub record IsValidRequest (codec : Codec) (key : String) (headers : Headers) (payload : String)
    (event : Requested) : Type 0 where
  pub decoded : codec.decode_request payload ≡ some (event, true)
  pub identified : (event.event_id ≢ 0) × (event.notification_id ≡ event.event_id)
  pub for_user : (event.user_id ≢ 0) × (key ≡ codec.uuid_string event.user_id)
  pub of_type : (event.event_type ≡ notification_requested) × (event.template ≡ template_new_post)
  pub of_version : event.schema_version ≡ requested_schema_v1
  pub dated : (event.occurred_at ≢ 0) × (event.post.published_at ≢ 0)
  pub of_post : (event.post.post_id ≢ 0) × (event.post.feed_id ≢ 0)
  pub named :
      (is_empty (trim_space event.producer) ≡ false)
      × (is_empty (trim_space event.post.title) ≡ false)
  pub linked : is_web_url (codec.parse_url event.post.url) ≡ true
  pub headed :
      (header headers "event_id" ≡ codec.uuid_string event.event_id)
      × (header headers "event_type" ≡ notification_requested)
      × (header headers "schema_version" ≡ "1")
      × (header headers "content-type" ≡ "application/json")

eq_ℤ_iff : (a b : ℤ) → (eq_ℤ a b ≡ true) ↔ (a ≡ b)
eq_ℤ_iff (pos m) (pos n) = ground arith
eq_ℤ_iff (pos m) (negsuc n) = ground arith
eq_ℤ_iff (negsuc m) (pos n) = ground arith
eq_ℤ_iff (negsuc m) (negsuc n) = ground arith

-- The four checks in a row let an event through only if all of them pass.
gate :
    (a c u m : Bool) (x y : Requested)
    → (if not a
        then inl trailing_json
        else if not c
        then inl incomplete_request
        else if not u
        then inl invalid_url
        else if not m
        then inl invalid_header
        else inr x)
      ≡ inr y
    → (x ≡ y) × (a ≡ true) × (c ≡ true) × (u ≡ true) × (m ≡ true)
gate a c u m x y h = ground arith

retry_gate :
    (bad : Bool) (x y : RetryEvent)
    → (if bad then inl InvalidEvent.invalid_retry else inr x) ≡ inr y
    → (x ≡ y) × (bad ≡ false)
retry_gate bad x y h = ground arith

module _ (codec : Codec) (key : String) (headers : Headers) (payload : String)
    (event : Requested) where
  complete-of-valid :
      IsValidRequest codec key headers payload event → is_complete codec key event ≡ true
  unfolding is_complete
  complete-of-valid v = ground (
    arith,
    v.identified,
    v.for_user,
    v.of_type,
    v.of_version,
    v.dated,
    v.of_post,
    v.named,
    str_eq_iff event.event_type notification_requested,
    str_eq_iff event.template template_new_post,
    str_eq_iff key (codec.uuid_string event.user_id),
    eq_ℤ_iff event.schema_version requested_schema_v1,
  )

  headers_match_iff :
      (headers_match headers (wanted_headers codec event) ≡ true)
      ↔ (header headers "event_id" ≡ codec.uuid_string event.event_id)
        × (header headers "event_type" ≡ notification_requested)
        × (header headers "schema_version" ≡ "1")
        × (header headers "content-type" ≡ "application/json")
  unfolding headers_match
  headers_match_iff = ground (
    arith,
    str_eq_iff (header headers "event_id") (codec.uuid_string event.event_id),
    str_eq_iff (header headers "event_type") notification_requested,
    str_eq_iff (header headers "schema_version") "1",
    str_eq_iff (header headers "content-type") "application/json",
  )

  valid-of_complete :
      codec.decode_request payload ≡ some (event, true)
      → is_complete codec key event ≡ true
      → is_web_url (codec.parse_url event.post.url) ≡ true
      → headers_match headers (wanted_headers codec event) ≡ true
      → IsValidRequest codec key headers payload event
  unfolding is_complete
  valid-of_complete d c u h = record {
    decoded = d;
    identified = ground arith;
    for_user = ground (arith, str_eq_iff key (codec.uuid_string event.user_id));
    of_type = ground (
      arith,
      str_eq_iff event.event_type notification_requested,
      str_eq_iff event.template template_new_post,
    );
    of_version = ground (arith, eq_ℤ_iff event.schema_version requested_schema_v1);
    dated = ground arith;
    of_post = ground arith;
    named = ground arith;
    linked = u;
    headed = headers_match_iff.0 h;
  }

  checked_request_decoded :
      (o : Option (Requested × Bool))
      → checked_request codec key headers o ≡ inr event
      → (o ≡ some (event, true))
        × (is_complete codec key event ≡ true)
        × (is_web_url (codec.parse_url event.post.url) ≡ true)
        × (headers_match headers (wanted_headers codec event) ≡ true)
  checked_request_decoded none h = cc
  checked_request_decoded (some (event', at_end)) h =
      let (e, a, c, u, m) = gate at_end (is_complete codec key event') _ _ event' event h in
      (rw (e, a) refl, rw (sym e) c, rw (sym e) u, rw (sym e) m)

  -- `DecodeRequested` returns an event exactly when the payload is its encoding alone, the event
  -- is complete and the key and the headers of the record agree with it.
  pub decode_requested_accepts :
      (decode_requested codec key headers payload ≡ inr event)
      ↔ IsValidRequest codec key headers payload event
  unfolding decode_requested
  decode_requested_accepts = (
    λ h.
        let (d, c, u, m) = checked_request_decoded (codec.decode_request payload) h in
        valid-of_complete d c u m,
    λ v. rw v.decoded (ground (arith, complete-of-valid v, v.linked, headers_match_iff.1 v.headed)),
  )

-- What a retry event must say.
pub record IsValidRetry (codec : Codec) (key payload : String) (event : RetryEvent) : Type 0 where
  pub decoded : codec.unmarshal_retry payload ≡ some event
  pub identified : (event.delivery_id ≢ 0) × (event.event_id ≢ 0)
  pub for_user : (event.user_id ≢ 0) × (key ≡ codec.uuid_string event.user_id)
  pub attempted : pos 1 ≤ℤ event.attempt_no

module _ (codec : Codec) (key payload : String) (event : RetryEvent) where
  checked_retry_decoded :
      (o : Option RetryEvent)
      → checked_retry codec key o ≡ inr event
      → (o ≡ some event) × (checked_retry codec key (some event) ≡ inr event)
  checked_retry_decoded none h = cc
  checked_retry_decoded (some event') h =
      let (e, c) = retry_gate _ event' event h in
      (rw e refl, subst (λ x. checked_retry codec key (some x) ≡ inr x) e (h ∙ ap inr (sym e)))

  valid-of-checked :
      codec.unmarshal_retry payload ≡ some event
      → checked_retry codec key (some event) ≡ inr event
      → IsValidRetry codec key payload event
  valid-of-checked d h = record {
    decoded = d;
    identified = ground arith;
    for_user = ground (arith, str_eq_iff key (codec.uuid_string event.user_id));
    attempted = ground arith;
  }

  -- `DecodeRetry` returns an event exactly when the payload encodes it, its UUIDs are not nil, its
  -- attempt is positive and the key is its user.
  pub decode_retry_accepts :
      (decode_retry codec key payload ≡ inr event) ↔ IsValidRetry codec key payload event
  unfolding decode_retry
  decode_retry_accepts = (
    λ h.
        let (d, c) = checked_retry_decoded (codec.unmarshal_retry payload) h in
        valid-of-checked d c,
    λ v. rw v.decoded (
        ground (
          arith,
          v.identified,
          v.for_user,
          v.attempted,
          str_eq_iff key (codec.uuid_string event.user_id),
        )),
  )
