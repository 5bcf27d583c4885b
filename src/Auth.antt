-- ===== src/Auth.antt =====
-- internal/auth: access tokens and the credentials of a request. The library golang-jwt, which
-- makes and reads the tokens, is a parameter; keys are their bytes, instants are nanoseconds.
pub mod Middleware
pub mod Issued
use feed_flow.Base.{
  Bool, List, Option, String, any, false, if◌then◌else◌, inl, inr, is_some, leb, length, ltb, none,
  not, some, str_eq, ℕ, ◌%◌, ◌*◌, ◌+◌, ◌-◌, ◌/◌, ◌==◌, ◌||◌, ◌⊎◌,
}
use feed_flow.Base.Text.{byte_len, is_empty, trim_space}
use feed_flow.Retry.{second}

abbrev pub max_access_token_ttl : ℕ
max_access_token_ttl = 3600 * second

abbrev pub access_token_type : String
access_token_type = "at+jwt"

abbrev pub private_key_size : ℕ
private_key_size = 64

abbrev pub public_key_size : ℕ
public_key_size = 32

abbrev pub PublicKey : Type 0
PublicKey = List ℕ

abbrev pub PrivateKey : Type 0
PrivateKey = List ℕ

pub record AccessToken : Type 0 where
  pub access_token : String
  pub token_type : String
  pub expires_in : ℕ

pub record Issuer : Type 0 where
  pub key : PrivateKey
  pub key_id : String
  pub issuer : String
  pub audiences : List String
  pub ttl : ℕ

pub record Verifier : Type 0 where
  pub key : PublicKey
  pub key_id : String
  pub issuer : String
  pub audience : String

-- The header of a token, where its fields are texts.
pub record TokenHeader : Type 0 where
  pub typ : Option String
  pub kid : Option String

-- `jwt.RegisteredClaims`.
pub record Claims : Type 0 where
  pub issuer : String
  pub subject : String
  pub audience : List String
  pub token_id : String
  pub issued_at : Option ℕ
  pub not_before : Option ℕ
  pub expires_at : Option ℕ

-- The options that `Verify` gives to the parser: the issuer and the audience that are wanted, and
-- the time. Only EdDSA is taken, and expiry, start and time of issue are checked.
pub record Validation : Type 0 where
  pub issuer : String
  pub audience : String
  pub now : ℕ

-- What the program uses of golang-jwt: `SignedString` with EdDSA, and `ParseWithClaims`, which
-- gives the claims of a token that it finds valid.
pub record JwtLibrary : Type 0 where
  pub signed_string : PrivateKey → TokenHeader → Claims → Option String
  pub parse_with_claims : Validation → (TokenHeader → Option PublicKey) → String → Option Claims

pub data AuthError : Type 0 where
  incomplete_issuer invalid_ttl no_audiences empty_audience : AuthError
  incomplete_verifier nil_subject no_token_id sign_error : AuthError

abbrev pub is_blank : String → Bool
is_blank s = is_empty (trim_space s)

unfoldable pub new_issuer : PrivateKey → String → String → List String → ℕ → AuthError ⊎ Issuer
new_issuer key key_id issuer audiences ttl =
    if not (length key == private_key_size) || is_blank key_id || is_blank issuer
    then inl incomplete_issuer
    else if ltb ttl second || ltb max_access_token_ttl ttl || not (ttl % second == 0)
    then inl invalid_ttl
    else if length audiences == 0
    then inl no_audiences
    else if any is_blank audiences
    then inl empty_audience
    else inr
        (record { key = key; key_id = key_id; issuer = issuer; audiences = audiences; ttl = ttl })

unfoldable pub new_verifier : PublicKey → String → String → String → AuthError ⊎ Verifier
new_verifier key key_id issuer audience =
    if not (length key == public_key_size)
      || is_blank key_id
      || is_blank issuer
      || is_blank audience
    then inl incomplete_verifier
    else inr (record { key = key; key_id = key_id; issuer = issuer; audience = audience })

-- `Truncate(time.Second)`.
unfoldable pub whole_seconds : ℕ → ℕ
whole_seconds t = t - t % second

module _ (lib : JwtLibrary) (uuid_string : ℕ → String) (uuid_parse : String → Option ℕ) where
  unfoldable pub claims_of : Issuer → ℕ → ℕ → ℕ → Claims
  unfolding whole_seconds
  claims_of i user id now = record {
    issuer = i.issuer;
    subject = uuid_string user;
    audience = i.audiences;
    token_id = uuid_string id;
    issued_at = some (whole_seconds now);
    not_before = some (whole_seconds now);
    expires_at = some (whole_seconds now + i.ttl);
  }

  abbrev pub header_of : Issuer → TokenHeader
  header_of i = record { typ = some access_token_type; kid = some i.key_id }

  unfoldable pub signed : Issuer → Option String → AuthError ⊎ AccessToken
  signed i none = inl sign_error
  signed i (some value) =
      inr (record { access_token = value; token_type = "Bearer"; expires_in = i.ttl / second })

  -- `Issuer.Issue`; `random` is `uuid.NewRandom()`.
  unfoldable pub issue : Issuer → ℕ → Option ℕ → ℕ → AuthError ⊎ AccessToken
  unfolding claims_of signed
  issue i user random now = if user == 0 then inl nil_subject else elim random [
    | none ↦ inl no_token_id
    | some id ↦ signed i (lib.signed_string i.key (header_of i) (claims_of i user id now))
  ]

  -- A header field that is a text and this one.
  abbrev pub is_text : Option String → String → Bool
  is_text none s = false
  is_text (some t) s = str_eq t s

  -- The key function of `Verify`.
  unfoldable pub key_for : Verifier → TokenHeader → Option PublicKey
  key_for v h =
      if not (is_text h.kid v.key_id) || not (is_text h.typ access_token_type)
      then none
      else some v.key

  -- The UUID in a text, unless it is nil.
  unfoldable pub uuid_of : String → Option ℕ
  uuid_of s = elim (uuid_parse s) [ none ↦ none | some u ↦ if u == 0 then none else some u ]

  -- The user of the claims, once their times are there and make sense.
  unfoldable pub claimed_user : Claims → Option ℕ → Option ℕ → Option ℕ → Option ℕ
  unfolding uuid_of
  claimed_user body none nbf exp = none
  claimed_user body (some iat) none exp = none
  claimed_user body (some iat) (some nbf) none = none
  claimed_user body (some iat) (some nbf) (some exp) =
      if leb exp iat || ltb max_access_token_ttl (exp - iat) || ltb exp nbf
      then none
      else if not (is_some (uuid_of body.token_id))
      then none
      else uuid_of body.subject

  unfoldable pub checked_claims : Option Claims → Option ℕ
  unfolding claimed_user
  checked_claims none = none
  checked_claims (some body) = claimed_user body body.issued_at body.not_before body.expires_at

  -- `Verifier.Verify`; its only error is `ErrInvalidToken`, here `none`.
  unfoldable pub verify : Verifier → ℕ → String → Option ℕ
  unfolding key_for checked_claims
  verify v now value =
      if byte_len value == 0 || ltb 8192 (byte_len value)
      then none
      else checked_claims (
          lib.parse_with_claims (record { issuer = v.issuer; audience = v.audience; now = now })
            (key_for v) value)
