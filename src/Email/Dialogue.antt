-- ===== src/Email/Dialogue.antt =====
-- internal/notification/email/sender.go: `SMTPMailer.Send`, step by step.
pub mod Secrecy
use feed_flow.Base.{Bool, List, Option, String, [], if◌then◌else◌, none, some, ◌∷◌}
use feed_flow.Base.Text.{is_empty}
use feed_flow.Email.{SmtpMailer, TlsMode, implicit, starttls}
use feed_flow.Errors.{ErrorChain, smtp_error, text}

-- What the network and the server answer to each step: none is success.
pub record Server : Type 0 where
  pub connect : Option ErrorChain
  pub set_deadline : Option ErrorChain
  pub handshake : Option ErrorChain
  pub new_client : Option ErrorChain
  pub offers_starttls : Bool
  pub start_tls : Option ErrorChain
  pub authenticate : Option ErrorChain
  pub set_sender : Option ErrorChain
  pub set_recipient : String → Option ErrorChain
  pub start_data : Option ErrorChain
  pub write_data : Option ErrorChain
  pub finish_data : Option ErrorChain

pub data Step : Type 0 where
  connecting deadline_setting tls_handshake client_creation tls_start : Step
  authentication sender_naming : Step
  recipient_naming : String → Step
  data_start data_write data_finish : Step

-- The error, and the steps that were taken.
abbrev pub Run : Type 0
Run = Option ErrorChain × List Step

-- One step: its failure ends the dialogue with an `SMTPError` of the operation.
unfoldable pub take_step : String → Step → Option ErrorChain → Run → Run
take_step operation step (some cause) rest = (some (smtp_error operation ∷ cause), step ∷ [])
take_step operation step none rest = (rest.0, step ∷ rest.1)

unfoldable pub name_recipients : Server → List String → Run → Run
unfolding take_step
name_recipients server [] rest = rest
name_recipients server (r ∷ rs) rest =
    take_step "set recipient" (recipient_naming r) (server.set_recipient r)
      (name_recipients server rs rest)

abbrev pub finished : Run
finished = (none, [])

unfoldable pub send_data : Server → Run
unfolding take_step
send_data server = take_step "start message body" data_start server.start_data (
    take_step "write message body" data_write server.write_data
      (take_step "finish message body" data_finish server.finish_data finished))

-- From the credentials on.
unfoldable pub submit : Server → SmtpMailer → List String → Run
unfolding name_recipients send_data
submit server m recipients =
    let envelope =
      take_step "set sender" sender_naming server.set_sender
        (name_recipients server recipients (send_data server)) in
    if is_empty m.username
    then envelope
    else take_step "authenticate" authentication server.authenticate envelope

-- The encryption that the mode asks for, once there is a client.
unfoldable pub upgrade : Server → TlsMode → Run → Run
upgrade server starttls rest =
    if server.offers_starttls
    then take_step "STARTTLS" tls_start server.start_tls rest
    else (some (smtp_error "STARTTLS" ∷ text "server does not advertise STARTTLS" ∷ []), [])
upgrade server _ rest = rest

unfoldable pub wrap_connection : Server → TlsMode → Run → Run
wrap_connection server implicit rest = take_step "TLS handshake" tls_handshake server.handshake rest
wrap_connection server _ rest = rest

-- `SMTPMailer.Send`; `ended` is the error of a context that has ended.
unfoldable pub smtp_send : Server → SmtpMailer → Option ErrorChain → List String → Run
unfolding submit upgrade wrap_connection
smtp_send server m (some ended) recipients = (some ended, [])
smtp_send server m none [] = (some (text "email recipients must not be empty" ∷ []), [])
smtp_send server m none (r ∷ rs) = take_step "connect" connecting server.connect (
    take_step "set deadline" deadline_setting server.set_deadline (
      wrap_connection server m.tls_mode (
        take_step "create client" client_creation server.new_client
          (upgrade server m.tls_mode (submit server m (r ∷ rs))))))
