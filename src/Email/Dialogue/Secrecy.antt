-- ===== src/Email/Dialogue/Secrecy.antt =====
-- What the dialogue of internal/notification/email/sender.go sends in the clear.
use feed_flow.Base.{
  Bool, Bool-cases, List, Option, String, [], arith, false, inl, inr, none, not, refl, some, true,
  ◌&&◌, ◌||◌, ◌∷◌, ◌≡◌, ◌≢◌,
}
use feed_flow.Email.{SmtpMailer, TlsMode, implicit, no_tls, starttls}
use feed_flow.Email.Dialogue.{
  Run, Server, Step, authentication, client_creation, connecting, data_finish, data_start,
  data_write, deadline_setting, recipient_naming, sender_naming, smtp_send, submit, take_step,
  tls_handshake, tls_start, upgrade, wrap_connection,
}
use feed_flow.Errors.{ErrorChain}

-- A step that shows credentials, addresses or text.
abbrev pub is_sensitive : Step → Bool
is_sensitive authentication = true
is_sensitive sender_naming = true
is_sensitive (recipient_naming r) = true
is_sensitive data_start = true
is_sensitive data_write = true
is_sensitive data_finish = true
is_sensitive _ = false

abbrev pub is_encrypting : Step → Bool
is_encrypting tls_handshake = true
is_encrypting tls_start = true
is_encrypting _ = false

-- No sensitive step is taken before the connection is encrypted.
abbrev pub is_discreet : Bool → List Step → Bool
is_discreet encrypted [] = true
is_discreet encrypted (s ∷ ss) =
    (not (is_sensitive s) || encrypted) && is_discreet (encrypted || is_encrypting s) ss

encrypted_is_discreet : (ss : List Step) → is_discreet true ss ≡ true
encrypted_is_discreet [] = refl
encrypted_is_discreet (s ∷ ss) = ground (arith, encrypted_is_discreet ss)

step_discreet :
    (operation : String) (s : Step) (a : Option ErrorChain) (rest : Run) (encrypted : Bool)
    → (not (is_sensitive s) || encrypted) ≡ true
    → is_discreet (encrypted || is_encrypting s) rest.1 ≡ true
    → is_discreet encrypted (take_step operation s a rest).1 ≡ true
unfolding take_step
step_discreet operation s (some cause) rest encrypted h k = ground (arith, h)
step_discreet operation s none rest encrypted h k = ground (arith, h, k)

upgraded_discreet :
    (server : Server) (mode : TlsMode) (rest : Run) (encrypted : Bool)
    → mode ≢ no_tls
    → (mode ≡ implicit → encrypted ≡ true)
    → is_discreet encrypted (upgrade server mode rest).1 ≡ true
unfolding upgrade
upgraded_discreet server starttls rest encrypted some_tls wrapped =
    elim (Bool-cases server.offers_starttls) [
      | inr e ↦ rw e refl
      | inl e ↦ rw e (
          step_discreet "STARTTLS" tls_start server.start_tls rest encrypted refl
            (ground (arith, encrypted_is_discreet rest.1)))
    ]
upgraded_discreet server implicit rest encrypted some_tls wrapped =
    rw (wrapped refl) (encrypted_is_discreet rest.1)
upgraded_discreet server no_tls rest encrypted some_tls wrapped = absurd (some_tls refl)

wrapped_discreet :
    (server : Server) (mode : TlsMode) (rest : Run)
    → ((encrypted : Bool)
        → (mode ≡ implicit → encrypted ≡ true)
        → is_discreet encrypted rest.1 ≡ true)
    → is_discreet false (wrap_connection server mode rest).1 ≡ true
unfolding wrap_connection
wrapped_discreet server implicit rest h =
    step_discreet "TLS handshake" tls_handshake server.handshake rest false refl
      (h true (λ e. refl))
wrapped_discreet server starttls rest h = h false (λ e. cc)
wrapped_discreet server no_tls rest h = h false (λ e. cc)

-- Unless the configuration turns encryption off, neither credentials nor addresses nor the text of
-- a message are sent before the connection is encrypted, whatever the server answers.
pub smtp_send-is_discreet :
    (server : Server) (m : SmtpMailer) (ended : Option ErrorChain) (recipients : List String)
    → m.tls_mode ≢ no_tls
    → is_discreet false (smtp_send server m ended recipients).1 ≡ true
unfolding smtp_send
smtp_send-is_discreet server m (some e) recipients some_tls = refl
smtp_send-is_discreet server m none [] some_tls = refl
smtp_send-is_discreet server m none (r ∷ rs) some_tls =
    step_discreet "connect" connecting server.connect _ false refl (
      step_discreet "set deadline" deadline_setting server.set_deadline _ false refl (
        wrapped_discreet server m.tls_mode _ (λ encrypted wrapped.
          step_discreet "create client" client_creation server.new_client _ encrypted refl (
            ground (
              arith,
              upgraded_discreet server m.tls_mode (submit server m (r ∷ rs)) encrypted some_tls
                  wrapped,
            )))))
