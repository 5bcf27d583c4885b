-- ===== src/Telegram.antt =====
-- internal/notification/telegram/sender.go: the sender of Telegram messages. The HTTP client is a
-- parameter: what it makes of the recipient and the text that are posted to it. Status and error
-- codes are not negative.
pub mod RateLimit
use feed_flow.Base.{
  Bool, List, Option, String, [], if◌then◌else◌, leb, ltb, none, not, some, suc, zero, ℕ, ◌*◌, ◌-◌,
  ◌==◌, ◌^◌, ◌||◌, ◌∷◌,
}
use feed_flow.Base.Int.{negsuc, pos, ℤ}
use feed_flow.Base.Text.{is_empty, trim_space}
use feed_flow.Errors.{ErrorChain, api_error, text, transport_error}
use feed_flow.Pipeline.Senders.{Sender}
use feed_flow.Retry.{second, wrap_int64}
use feed_flow.Store.Claim.{Message}

-- `string(runes[:n])`, where the string is longer.
unfoldable pub take_runes : ℕ → String → String
take_runes zero s = String.[]
take_runes (suc n) String.[] = String.[]
take_runes (suc n) (String.◌∷◌ c s) = String.◌∷◌ c (take_runes n s)

unfoldable pub rune_count : String → ℕ
rune_count String.[] = 0
rune_count (String.◌∷◌ c s) = suc (rune_count s)

unfoldable pub joined : String → String → String
joined String.[] t = t
joined (String.◌∷◌ c s) t = String.◌∷◌ c (joined s t)

-- The parts that are not blank, trimmed.
unfoldable pub trimmed_parts : List String → List String
trimmed_parts [] = []
trimmed_parts (p ∷ ps) =
    let part = trim_space p in
    let rest = trimmed_parts ps in if is_empty part then rest else part ∷ rest

-- `strings.Join(parts, "\n\n")`.
unfoldable pub join_parts : List String → String
unfolding joined
join_parts [] = ""
join_parts (p ∷ []) = p
join_parts (p ∷ q ∷ rest) = joined p (joined "\n\n" (join_parts (q ∷ rest)))

abbrev pub max_message_runes : ℕ
max_message_runes = 4096

abbrev pub cut_message : String → String
cut_message s = if ltb max_message_runes (rune_count s) then take_runes max_message_runes s else s

abbrev pub formatted : List String → Option String
formatted [] = none
formatted (p ∷ ps) = some (cut_message (join_parts (p ∷ ps)))

-- `formatMessage`; none is the error of an empty message.
unfoldable pub format_message : Message → Option String
unfolding trimmed_parts join_parts take_runes rune_count
format_message message = formatted (trimmed_parts (message.title ∷ message.body ∷ message.url ∷ []))

-- `sendMessageResponse`.
pub record SendMessageResponse : Type 0 where
  pub accepted : Bool
  pub error_code : ℕ
  pub retry_after : ℤ

-- What is read of a response's body.
pub data ResponseBody : Type 0 where
  read_failed : ErrorChain → ResponseBody
  over_limit : ResponseBody
  not_json : ResponseBody
  decoded : SendMessageResponse → ResponseBody

-- What the request to Telegram ends with: it cannot be built, or what `client.Do` returns.
pub data HttpAnswer : Type 0 where
  not_built request_failed : ErrorChain → HttpAnswer
  nil_response : HttpAnswer
  responded : ℕ → ResponseBody → HttpAnswer

-- An int64 from its 64 bits.
abbrev pub signed_int64 : ℕ → ℤ
signed_int64 m = if ltb m (2 ^ 63) then pos m else negsuc (2 ^ 64 - 1 - m)

-- `time.Duration(n) * time.Second`.
unfoldable pub seconds : ℤ → ℤ
seconds (pos n) = signed_int64 (wrap_int64 (n * second))
seconds (negsuc n) = signed_int64 (wrap_int64 (2 ^ 64 - wrap_int64 (suc n * second)))

-- What becomes of a decoded response.
unfoldable pub judged : ℕ → SendMessageResponse → Option ErrorChain
unfolding seconds
judged status r =
    if ltb status 200 || leb 300 status || not r.accepted
    then some (
        api_error (record {
          http_status = status;
          code = if r.error_code == 0 then status else r.error_code;
          retry_after = seconds r.retry_after;
        })
        ∷ [])
    else none

unfoldable pub judge_answer : HttpAnswer → Option ErrorChain
unfolding judged
judge_answer (not_built cause) = some (text "create telegram sendMessage request" ∷ cause)
judge_answer (request_failed cause) = some (transport_error ∷ cause)
judge_answer nil_response = some (text "telegram returned a nil HTTP response" ∷ [])
judge_answer (responded status (read_failed cause)) = some (text "read telegram response" ∷ cause)
judge_answer (responded status over_limit) = some (text "telegram response exceeds the limit" ∷ [])
judge_answer (responded status not_json) = some (text "decode telegram response" ∷ [])
judge_answer (responded status (decoded r)) = judged status r

abbrev pub post_text : (String → String → HttpAnswer) → String → Option String → Option ErrorChain
post_text client recipient none = some (text "telegram message must not be empty" ∷ [])
post_text client recipient (some content) = judge_answer (client recipient content)

-- `Sender.Send`.
unfoldable pub send_telegram : (String → String → HttpAnswer) → Sender
unfolding format_message judge_answer
send_telegram client message =
    let recipient = trim_space message.recipient in
    if is_empty recipient
    then some (text "telegram recipient must not be empty" ∷ [])
    else post_text client recipient (format_message message)
