-- ===== src/Scenarios/Credentials.antt =====
-- A token that internal/auth/jwt.go issues for user 5, and a request without one.
use feed_flow.Auth.{
  AccessToken, Claims, Issuer, JwtLibrary, PrivateKey, PublicKey, Verifier, claims_of, header_of,
  issue, new_issuer, verify, whole_seconds,
}
use feed_flow.Auth.Issued.{IsReadBack, verify-issue}
use feed_flow.Auth.Middleware.{
  as_user, authorization_credential, credential_in, middleware, with_credential,
}
use feed_flow.Base.{
  Bool, List, Option, String, [], arith, if◌then◌else◌, inr, none, refl, some, str_eq, suc, true,
  zero, ℕ, ◌*◌, ◌+◌, ◌∷◌, ◌≡◌, ◌⊎◌,
}
use feed_flow.Base.Text.{byte_len, equal_fold, fields, trim_space}
use feed_flow.FeedApi.Router.{
  ApiCall, HasToken, IsRefused, adds_feed, feed_as, serve_api, serve_api-IsGuarded,
}
use feed_flow.FeedApi.Writes.{NewFeed, feed_from, feed_reply, post_feed}
use feed_flow.Feeds.{FeedDb, call_db}
use feed_flow.Feeds.Accounts.{add_feed}
use feed_flow.Http.{decode_json, sent_text}
use feed_flow.Retry.{second}
use feed_flow.Scenarios.Newsfeeds.{marks, outside}
use feed_flow.Scenarios.Pages.{cursor-read, cursor_of, shelf, two}

abbrev zeros : ℕ → List ℕ
zeros zero = []
zeros (suc n) = 0 ∷ zeros n

abbrev private_key : PrivateKey
private_key = zeros 64

abbrev public_key : PublicKey
public_key = zeros 32

abbrev the_issuer : Issuer
the_issuer = record {
  key = private_key;
  key_id = "k1";
  issuer = "feedflow";
  audiences = "feedflow-api" ∷ [];
  ttl = 900 * second;
}

abbrev the_verifier : Verifier
the_verifier = record {
  key = public_key;
  key_id = "k1";
  issuer = "feedflow";
  audience = "feedflow-api";
}

-- A library that knows one token: that of user 5, with the UUID 7, issued at 1000.
abbrev the_claims : Claims
the_claims = record {
  issuer = "feedflow";
  subject = marks 5 "";
  audience = "feedflow-api" ∷ [];
  token_id = marks 7 "";
  issued_at = some (whole_seconds 1000);
  not_before = some (whole_seconds 1000);
  expires_at = some (whole_seconds 1000 + 900 * second);
}

abbrev library : JwtLibrary
library = record {
  signed_string = λ key h body. some "token";
  parse_with_claims = λ v find_key value. some the_claims;
}

abbrev id_text : ℕ → String
id_text n = marks n ""

abbrev the_token : AccessToken
the_token = record { access_token = "token"; token_type = "Bearer"; expires_in = 900 }

issuer_made :
    new_issuer private_key "k1" "feedflow" ("feedflow-api" ∷ []) (900 * second) ≡ inr the_issuer
unfolding new_issuer trim_space
issuer_made = refl

library-IsReadBack :
    IsReadBack library private_key public_key
      (header_of library id_text cursor_of the_issuer)
      (claims_of library id_text cursor_of the_issuer 5 7 1000)
unfolding claims_of
library-IsReadBack = record { read_back = λ v find_key value made found meets. refl }

verify-issue_example :
    verify library id_text cursor_of the_verifier 2000 the_token.access_token ≡ some 5
unfolding issue whole_seconds byte_len
verify-issue_example =
    verify-issue library id_text cursor_of private_key "k1" "feedflow" ("feedflow-api" ∷ [])
      (900 * second) the_verifier 5 7 1000 2000 issuer_made
      (record { same_id = refl; same_issuer = refl; in_audience = refl }) library-IsReadBack
      (cursor-read 5, cursor-read 7) (omega arith) refl (omega arith, omega arith) (omega arith)
      (omega arith)

-- A request with a token that adds a feed.
abbrev feed_decoder : String → Option (NewFeed × Bool)
feed_decoder content =
    if str_eq content "{\"name\":\"A\"}"
    then some (record { name = "A"; url = "https://example.org/other" }, true)
    else none

abbrev feed_call : ApiCall
feed_call = adds_feed (sent_text " {\"name\":\"A\"} ") 99

abbrev bearer : List String
bearer = "Bearer abc" ∷ []

abbrev check_token : String → Option ℕ
check_token value = if str_eq value "abc" then some 5 else none

abbrev feed_served : ℕ × FeedDb
feed_served =
    serve_api two cursor_of (λ s. none) feed_decoder (λ s. none) none (some check_token) outside
      none (λ user limit offset. none) bearer feed_call shelf

feed_added : feed_served.0 ≡ 200
unfolding serve_api feed_as middleware with_credential authorization_credential credential_in
    as_user post_feed feed_from feed_reply decode_json trim_space add_feed call_db fields equal_fold
    byte_len
feed_added = refl

serve_api-IsGuarded_example :
    HasToken two cursor_of
      (λ s. none)
      feed_decoder
      (λ s. none)
      none
      (some check_token)
      outside
      none
      (λ user limit offset. none)
      bearer
    ⊎ IsRefused two cursor_of
        (λ s. none)
        feed_decoder
        (λ s. none)
        none
        (some check_token)
        outside
        none
        (λ user limit offset. none)
        shelf
        feed_served
serve_api-IsGuarded_example =
    serve_api-IsGuarded two cursor_of (λ s. none) feed_decoder (λ s. none) none (some check_token)
      outside none (λ user limit offset. none) bearer feed_call shelf refl
