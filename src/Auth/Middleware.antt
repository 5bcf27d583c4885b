-- ===== src/Auth/Middleware.antt =====
-- internal/auth/middleware.go: the credential of a request, and the handlers that need a user.
use feed_flow.Base.{
  Bool-cases, List, Option, String, [], arith, if◌then◌else◌, inl, inr, leb, ltb, none, not, refl,
  some, true, ℕ, ◌==◌, ◌||◌, ◌∷◌, ◌≡◌, ◌≢◌,
}
use feed_flow.Base.Text.{byte_len, equal_fold, fields}
use feed_flow.Http.{Reply, error_reply, status_of}

-- `AuthorizationCredential`; `values` are the Authorization headers.
unfoldable pub credential_in : List String → String → Option String
credential_in (name ∷ value ∷ []) scheme =
    if not (equal_fold name scheme) || ltb 8192 (byte_len value) then none else some value
credential_in _ scheme = none

unfoldable pub authorization_credential : List String → String → Option String
unfolding credential_in
authorization_credential (value ∷ []) scheme = credential_in (fields value) scheme
authorization_credential _ scheme = none

unfoldable pub invalid_token : {A S : Type 0} → S → Reply A × S
invalid_token s = (error_reply 401 "invalid_token" "invalid access token", s)

-- The handler behind the verifier's answer; a user of 0 is refused as an error is.
unfoldable pub as_user : {A S : Type 0} → (ℕ → S → Reply A × S) → Option ℕ → S → Reply A × S
unfolding invalid_token
as_user next none s = invalid_token s
as_user next (some user) s = if user == 0 then invalid_token s else next user s

-- `Middleware` around a handler, with the credential as given; `check` is `Verify`, where there is
-- a verifier.
unfoldable pub with_credential :
    {A S : Type 0}
    → Option (String → Option ℕ)
    → (ℕ → S → Reply A × S)
    → Option String
    → S
    → Reply A × S
unfolding as_user
with_credential verifier next none s =
    (error_reply 401 "unauthorized" "Bearer access token is required", s)
with_credential none next (some value) s =
    (error_reply 503 "authentication_unavailable" "authentication unavailable", s)
with_credential (some check) next (some value) s = as_user next (check value) s

unfoldable pub middleware :
    {A S : Type 0}
    → Option (String → Option ℕ)
    → (ℕ → S → Reply A × S)
    → List String
    → S
    → Reply A × S
unfolding with_credential
middleware verifier next headers s =
    with_credential verifier next (authorization_credential headers "Bearer") s

module _ {A S : Type 0} (next : ℕ → S → Reply A × S) where
  -- What became of a request: the handler ran as a user whom the verifier had found in the
  -- credential, or nothing changed and the reply is an error.
  pub data Guarded (verifier : Option (String → Option ℕ)) (credential : Option String) (s : S)
      (r : Reply A × S) : Type 0 where
    served :
        (check : String → Option ℕ) (value : String) (user : ℕ)
        → verifier ≡ some check
        → credential ≡ some value
        → check value ≡ some user
        → user ≢ 0
        → r ≡ next user s
        → Guarded verifier credential s r
    refused : r.1 ≡ s → leb 400 (status_of r.0) ≡ true → Guarded verifier credential s r

  as_user-IsGuarded :
      (check : String → Option ℕ) (value : String) (s : S) (found : Option ℕ)
      → check value ≡ found
      → Guarded (some check) (some value) s (as_user next found s)
  unfolding as_user invalid_token
  as_user-IsGuarded check value s none h = refused refl refl
  as_user-IsGuarded check value s (some user) h = elim (Bool-cases (user == 0)) [
    | inl e ↦ rw e (refused refl refl)
    | inr e ↦ rw e (served check value user refl refl h (λ zero_user. ground arith) refl)
  ]

  with_credential-IsGuarded :
      (verifier : Option (String → Option ℕ)) (credential : Option String) (s : S)
      → Guarded verifier credential s (with_credential verifier next credential s)
  unfolding with_credential
  with_credential-IsGuarded verifier none s = refused refl refl
  with_credential-IsGuarded none (some value) s = refused refl refl
  with_credential-IsGuarded (some check) (some value) s =
      as_user-IsGuarded check value s (check value) refl

  -- A handler behind the middleware runs only for a request whose one Bearer credential the
  -- verifier accepts, and as the user that it names, who is not nil; every other request changes
  -- nothing and gets an error.
  pub middleware-IsGuarded :
      (verifier : Option (String → Option ℕ)) (headers : List String) (s : S)
      → Guarded verifier
          (authorization_credential headers "Bearer")
          s
          (middleware verifier next headers s)
  unfolding middleware
  middleware-IsGuarded verifier headers s =
      with_credential-IsGuarded verifier (authorization_credential headers "Bearer") s
