-- ===== src/Auth/Issued.antt =====
-- Tokens that internal/auth/jwt.go issues and verifies.
use feed_flow.Auth.{
  AccessToken, Claims, Issuer, JwtLibrary, PrivateKey, PublicKey, TokenHeader, Validation, Verifier,
  access_token_type, checked_claims, claims_of, header_of, issue, key_for, max_access_token_ttl,
  new_issuer, signed, uuid_of, verify, whole_seconds,
}
use feed_flow.Base.{
  Bool-cases, List, Option, String, any, arith, false, inl, inr, leb, ltb, none, refl, some, str_eq,
  str_eq_iff, sym, true, ℕ, ◌+◌, ◌-◌, ◌<◌, ◌==◌, ◌||◌, ◌≡◌, ◌≢◌, ◌≤◌,
}
use feed_flow.Base.Text.{byte_len}
use feed_flow.Retry.{second}

-- What golang-jwt asks of the claims under the options of `Verify`.
pub record Meets (v : Validation) (body : Claims) : Type 0 where
  pub same_issuer : body.issuer ≡ v.issuer
  pub for_audience : any (λ a. str_eq a v.audience) body.audience ≡ true
  pub expires : (t : ℕ) × (body.expires_at ≡ some t) × (v.now < t)
  pub started : (t : ℕ) × (body.not_before ≡ some t) × (t ≤ v.now)
  pub issued : (t : ℕ) × (body.issued_at ≡ some t) × (t ≤ v.now)

-- What the program relies on of golang-jwt for a header and claims: once signed by the private key
-- of a pair they are read, where the key function gives the public key of the pair for the header
-- and the claims meet the options.
pub record IsReadBack (lib : JwtLibrary) (private : PrivateKey) (public : PublicKey)
    (h : TokenHeader) (body : Claims) : Type 0 where
  pub read_back :
      (v : Validation) (find_key : TokenHeader → Option PublicKey) (value : String)
      → lib.signed_string private h body ≡ some value
      → find_key h ≡ some public
      → Meets v body
      → lib.parse_with_claims v find_key value ≡ some body

-- A verifier with the public key, the key id, the issuer and one of the audiences of an issuer.
pub record Pairs (i : Issuer) (v : Verifier) : Type 0 where
  pub same_id : v.key_id ≡ i.key_id
  pub same_issuer : v.issuer ≡ i.issuer
  pub in_audience : any (λ a. str_eq a v.audience) i.audiences ≡ true

-- What NewIssuer asks of the time to live.
pub new_issuer_ttl :
    (key : PrivateKey) (key_id issuer : String) (audiences : List String) (ttl : ℕ) {i : Issuer}
    → new_issuer key key_id issuer audiences ttl ≡ inr i
    → (i ≡ record { key = key; key_id = key_id; issuer = issuer; audiences = audiences; ttl = ttl })
      × (second ≤ ttl)
      × (ttl ≤ max_access_token_ttl)
unfolding new_issuer
new_issuer_ttl key key_id issuer audiences ttl h = ground arith

whole_seconds-le : (t : ℕ) → whole_seconds t ≤ t
unfolding whole_seconds
whole_seconds-le t = omega arith

module _ (lib : JwtLibrary) (uuid_string : ℕ → String) (uuid_parse : String → Option ℕ) where
  signed_value :
      (i : Issuer) (value : Option String) {token : AccessToken}
      → signed lib uuid_string uuid_parse i value ≡ inr token
      → value ≡ some token.access_token
  unfolding signed
  signed_value i none h = cc
  signed_value i (some value) h = ground arith

  issued_value :
      (i : Issuer) (user id now : ℕ) {token : AccessToken}
      → issue lib uuid_string uuid_parse i user (some id) now ≡ inr token
      → (user ≢ 0)
        × (lib.signed_string i.key
              (header_of lib uuid_string uuid_parse i)
              (claims_of lib uuid_string uuid_parse i user id now)
            ≡ some token.access_token)
  unfolding issue
  issued_value i user id now h = elim (Bool-cases (user == 0)) [
    | inl e ↦ absurd (ground arith)
    | inr e ↦ (ground arith, signed_value i _ (rw e at h))
  ]

  key_for_lem :
      (i : Issuer) (v : Verifier)
      → Pairs i v
      → key_for lib uuid_string uuid_parse v (header_of lib uuid_string uuid_parse i) ≡ some v.key
  unfolding key_for
  key_for_lem i v pairs =
      rw pairs.same_id (
        ground
          (arith, str_eq_iff i.key_id i.key_id, str_eq_iff access_token_type access_token_type))

  uuid_of_lem :
      (n : ℕ)
      → uuid_parse (uuid_string n) ≡ some n
      → n ≢ 0
      → uuid_of lib uuid_string uuid_parse (uuid_string n) ≡ some n
  unfolding uuid_of
  uuid_of_lem n reads known = rw (reads, uuid_of) (ground arith)

  claims_meet :
      (i : Issuer) (v : Verifier) (user id now then_now : ℕ)
      → Pairs i v
      → now ≤ then_now
      → then_now < whole_seconds now + i.ttl
      → Meets
          (record { issuer = v.issuer; audience = v.audience; now = then_now })
          (claims_of lib uuid_string uuid_parse i user id now)
  unfolding claims_of
  claims_meet i v user id now then_now pairs later alive =
      let started = whole_seconds-le now in
      record {
        same_issuer = sym pairs.same_issuer;
        for_audience = pairs.in_audience;
        expires = (_, refl, alive);
        started = (_, refl, omega (arith, started));
        issued = (_, refl, omega (arith, started));
      }

  claims_checked :
      (i : Issuer) (user id now : ℕ)
      → (uuid_parse (uuid_string user) ≡ some user) × (uuid_parse (uuid_string id) ≡ some id)
      → user ≢ 0
      → id ≢ 0
      → 0 < i.ttl
      → i.ttl ≤ max_access_token_ttl
      → checked_claims lib uuid_string uuid_parse
          (some (claims_of lib uuid_string uuid_parse i user id now))
        ≡ some user
  unfolding checked_claims claims_of
  claims_checked i user id now reads named known low high =
      let w = whole_seconds now in
      let timed : (leb (w + i.ttl) w
            || ltb max_access_token_ttl (w + i.ttl - w)
            || ltb (w + i.ttl) w)
          ≡ false =
        ground arith in
      rw (timed, uuid_of_lem id reads.1 known) (uuid_of_lem user reads.0 named)

  -- A token that an issuer made by NewIssuer has issued verifies as the user that it was issued
  -- for, at each verifier that pairs with the issuer, until its time to live is over. It asks that
  -- golang-jwt reads back what it has signed with the keys of the pair, that the two UUIDs read back
  -- from their texts, that the UUID of the token is not nil and that the token has at most 8192 bytes.
  pub verify-issue :
      (key : PrivateKey) (key_id issuer : String) (audiences : List String) (ttl : ℕ) (v : Verifier)
      (user id now then_now : ℕ) {i : Issuer} {token : AccessToken}
      → new_issuer key key_id issuer audiences ttl ≡ inr i
      → Pairs i v
      → IsReadBack lib key v.key
          (header_of lib uuid_string uuid_parse i)
          (claims_of lib uuid_string uuid_parse i user id now)
      → (uuid_parse (uuid_string user) ≡ some user) × (uuid_parse (uuid_string id) ≡ some id)
      → id ≢ 0
      → issue lib uuid_string uuid_parse i user (some id) now ≡ inr token
      → (0 < byte_len token.access_token) × (byte_len token.access_token ≤ 8192)
      → now ≤ then_now
      → then_now < whole_seconds now + ttl
      → verify lib uuid_string uuid_parse v then_now token.access_token ≡ some user
  unfolding verify
  verify-issue key key_id issuer audiences ttl v user id now then_now {i} {token} made pairs sound
        reads known issued size later alive =
      let (same, low, high) = new_issuer_ttl key key_id issuer audiences ttl made in
      let (named, value) = issued_value i user id now issued in
      let same_key : i.key ≡ key = rw same refl in
      let same_ttl : i.ttl ≡ ttl = rw same refl in
      let body = claims_of lib uuid_string uuid_parse i user id now in
      let signed_token : lib.signed_string key (header_of lib uuid_string uuid_parse i) body
          ≡ some token.access_token =
        rw (← same_key) value in
      let read =
        sound.read_back _ (key_for lib uuid_string uuid_parse v) token.access_token signed_token
          (key_for_lem i v pairs)
          (claims_meet i v user id now then_now pairs later (rw same_ttl alive)) in
      let sized : (byte_len token.access_token == 0 || ltb 8192 (byte_len token.access_token))
          ≡ false =
        ground (arith, size) in
      rw (sized, read)
        (claims_checked i user id now reads named known (omega (arith, same_ttl))
          (omega (arith, same_ttl)))
