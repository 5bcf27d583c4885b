-- ===== src/Email.antt =====
-- internal/notification/email/sender.go: the sender of e-mails. `net/mail`, `mime` and the SMTP
-- server are parameters.
pub mod Dialogue
use Prim.Native.Char.{code}
use feed_flow.Base.{
  Bool, List, Option, String, [], false, if◌then◌else◌, inl, inr, none, not, some, str_eq, ℕ, ◌&&◌,
  ◌*◌, ◌==◌, ◌||◌, ◌∷◌, ◌⊎◌,
}
use feed_flow.Base.Int.{eq_ℤ, leb_ℤ, ltb_ℤ, pos, pos_part, ℤ}
use feed_flow.Base.Text.{is_empty, trim_space}
use feed_flow.Errors.{ErrorChain, text}
use feed_flow.Pipeline.Senders.{Sender}
use feed_flow.Retry.{second}
use feed_flow.Store.Claim.{Message}
use feed_flow.Telegram.{join_parts, joined, trimmed_parts}

-- `mail.Address`.
pub record Address : Type 0 where
  pub name : String
  pub address : String

pub data TlsMode : Type 0 where
  starttls implicit no_tls : TlsMode

-- `containsNewline`.
unfoldable pub contains_newline : String → Bool
contains_newline String.[] = false
contains_newline (String.◌∷◌ c s) = code c == 13 || code c == 10 || contains_newline s

-- `strings.ContainsAny(host, "\r\n\t ")`.
unfoldable pub contains_blank : String → Bool
contains_blank String.[] = false
contains_blank (String.◌∷◌ c s) =
    code c == 13 || code c == 10 || code c == 9 || code c == 32 || contains_blank s

-- `parseSingleAddress`; `parse` is `mail.ParseAddress`.
unfoldable pub parse_single_address : (String → Option Address) → String → Option Address
unfolding contains_newline
parse_single_address parse value =
    let trimmed = trim_space value in
    if is_empty trimmed then none else if contains_newline trimmed then none else parse trimmed

-- `Config`, with the mode as it is written.
pub record MailConfig : Type 0 where
  pub host : String
  pub port : ℤ
  pub username : String
  pub password : String
  pub from_address : String
  pub from_name : String
  pub tls_mode : String
  pub timeout : ℤ

pub record SmtpMailer : Type 0 where
  pub host : String
  pub port : ℕ
  pub username : String
  pub password : String
  pub tls_mode : TlsMode
  pub timeout : ℕ

pub data MailConfigError : Type 0 where
  no_host bad_host bad_port half_credentials bad_tls_mode negative_timeout : MailConfigError
  nil_mailer bad_sender_name bad_sender_address : MailConfigError

unfoldable pub read_tls_mode : String → Option TlsMode
read_tls_mode mode =
    if is_empty mode
    then some starttls
    else if str_eq mode "starttls"
    then some starttls
    else if str_eq mode "implicit"
    then some implicit
    else if str_eq mode "none"
    then some no_tls
    else none

-- A timeout of zero stands for ten seconds.
abbrev pub mail_timeout : ℤ → ℕ
mail_timeout timeout = if eq_ℤ timeout (pos 0) then 10 * second else pos_part timeout

abbrev pub with_mode : MailConfig → String → Option TlsMode → MailConfigError ⊎ SmtpMailer
with_mode c host none = inl bad_tls_mode
with_mode c host (some mode) =
    if ltb_ℤ c.timeout (pos 0)
    then inl negative_timeout
    else inr (record {
      host = host;
      port = pos_part c.port;
      username = c.username;
      password = c.password;
      tls_mode = mode;
      timeout = mail_timeout c.timeout;
    })

-- `NewSMTPMailer`.
unfoldable pub new_smtp_mailer : MailConfig → MailConfigError ⊎ SmtpMailer
unfolding contains_blank read_tls_mode
new_smtp_mailer c =
    let host = trim_space c.host in
    if is_empty host
    then inl no_host
    else if contains_blank host
    then inl bad_host
    else if leb_ℤ c.port (pos 0) || ltb_ℤ (pos 65535) c.port
    then inl bad_port
    else if not (is_empty c.username && is_empty c.password)
        && (is_empty c.username || is_empty c.password)
    then inl half_credentials
    else with_mode c host (read_tls_mode c.tls_mode)

-- `NewSenderWithMailer`: the address that messages come from.
unfoldable pub new_mail_sender :
    (String → Option Address) → Bool → String → String → MailConfigError ⊎ Address
unfolding parse_single_address
new_mail_sender parse has_mailer from_address from_name =
    if not has_mailer
    then inl nil_mailer
    else if contains_newline from_name
    then inl bad_sender_name
    else elim (parse_single_address parse from_address) [
      | none ↦ inl bad_sender_address
      | some from ↦ inr (record from { name = trim_space from_name })
    ]

-- `buildBody`.
unfoldable pub build_body : Message → String
unfolding trimmed_parts join_parts
build_body message = join_parts (trimmed_parts (message.title ∷ message.body ∷ message.url ∷ []))

-- `mail.Address.String`, `mime.QEncoding.Encode`, the date of the message and the quoted-printable
-- encoding.
pub record MailEncoding : Type 0 where
  pub address_string : Address → String
  pub encode_word : String → String
  pub date : String
  pub quoted_printable : String → String

unfoldable pub header_lines : List String → String
unfolding joined
header_lines [] = ""
header_lines (h ∷ hs) = joined h (joined "\r\n" (header_lines hs))

-- `buildMIMEMessage`; writing to a buffer does not fail.
unfoldable pub build_mime_message : MailEncoding → Address → Address → String → String → String
unfolding header_lines joined
build_mime_message encoding from to subject body =
    joined
      (header_lines (
        joined "From: " (encoding.address_string from)
        ∷ joined "To: " (encoding.address_string to)
        ∷ joined "Subject: " (encoding.encode_word subject)
        ∷ joined "Date: " encoding.date
        ∷ "MIME-Version: 1.0"
        ∷ "Content-Type: text/plain; charset=UTF-8"
        ∷ "Content-Transfer-Encoding: quoted-printable"
        ∷ []))
      (joined "\r\n" (encoding.quoted_printable body))

abbrev pub subject_of : Message → String
subject_of message =
    let subject = trim_space message.title in
    if is_empty subject then "New publication" else subject

-- `Sender.Send`; `deliver` is the mailer.
unfoldable pub send_email :
    (String → Option Address)
    → MailEncoding
    → (String → List String → String → Option ErrorChain)
    → Address
    → Sender
unfolding parse_single_address build_body build_mime_message
send_email parse encoding deliver from message =
    elim (parse_single_address parse message.recipient) [
      | none ↦ some (text "invalid email recipient" ∷ [])
      | some recipient ↦
          if contains_newline (subject_of message)
          then some (text "email subject contains a newline" ∷ [])
          else if is_empty (build_body message)
          then some (text "email message must not be empty" ∷ [])
          else deliver from.address (recipient.address ∷ [])
              (build_mime_message encoding from recipient (subject_of message) (build_body message))
    ]
