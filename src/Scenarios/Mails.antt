-- ===== src/Scenarios/Mails.antt =====
-- A dialogue of internal/notification/email/sender.go with a server that refuses credentials.
use feed_flow.Base.{[], false, none, some, true, ◌*◌, ◌∷◌, ◌≡◌}
use feed_flow.Email.{SmtpMailer, starttls}
use feed_flow.Email.Dialogue.{Server, smtp_send}
use feed_flow.Email.Dialogue.Secrecy.{is_discreet, smtp_send-is_discreet}
use feed_flow.Errors.{protocol_error}
use feed_flow.Retry.{second}

abbrev server : Server
server = record {
  connect = none;
  set_deadline = none;
  handshake = none;
  new_client = none;
  offers_starttls = true;
  start_tls = none;
  authenticate = some (protocol_error 535 ∷ []);
  set_sender = none;
  set_recipient = λ r. none;
  start_data = none;
  write_data = none;
  finish_data = none;
}

abbrev mailer : SmtpMailer
mailer = record {
  host = "mail.example.org";
  port = 587;
  username = "feedflow";
  password = "secret";
  tls_mode = starttls;
  timeout = 10 * second;
}

smtp_send-is_discreet_example :
    is_discreet false (smtp_send server mailer none ("a@example.org" ∷ [])).1 ≡ true
smtp_send-is_discreet_example =
    smtp_send-is_discreet server mailer none ("a@example.org" ∷ []) (λ e. cc)
