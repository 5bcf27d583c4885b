-- ===== src/Errors.antt =====
-- The error values that the notification code classifies (internal/notification/telegram,
-- internal/notification/email, internal/notification/sender): a Go error chain is the list of its
-- layers, the outermost first, as `errors.As` and `errors.Is` walk it.
use feed_flow.Base.{
  Bool, List, Option, String, [], any, false, leb, ltb, none, some, true, ℕ, ◌&&◌, ◌==◌, ◌||◌, ◌∷◌,
}
use feed_flow.Base.Int.{ℤ}

-- `telegram.APIError`; the retry delay is Go's `time.Duration`, in nanoseconds.
pub record ApiError : Type 0 where
  pub http_status : ℕ
  pub code : ℕ
  pub retry_after : ℤ

-- `net_error` stands for any layer that implements `net.Error`.
pub data Layer : Type 0 where
  text : String → Layer
  api_error : ApiError → Layer
  transport_error : Layer
  smtp_error : String → Layer
  protocol_error : ℕ → Layer
  net_error : Layer
  eof unexpected_eof : Layer
  sender_not_registered : Layer

abbrev pub ErrorChain : Type 0
ErrorChain = List Layer

abbrev pub is_net_error : Layer → Bool
is_net_error net_error = true
is_net_error _ = false

abbrev pub is_eof : Layer → Bool
is_eof eof = true
is_eof unexpected_eof = true
is_eof _ = false

-- `APIError.Retryable`.
unfoldable pub api_error_retryable : ApiError → Bool
api_error_retryable e =
    e.http_status == 429 || leb 500 e.http_status || e.code == 429 || leb 500 e.code

-- The code of the first `textproto.Error` of a chain.
unfoldable pub find_protocol_error : ErrorChain → Option ℕ
find_protocol_error [] = none
find_protocol_error (protocol_error c ∷ rest) = some c
find_protocol_error (_ ∷ rest) = find_protocol_error rest

-- A connection that failed below the protocol.
unfoldable pub is_transient : ErrorChain → Bool
is_transient failure = any is_net_error failure || any is_eof failure

-- `SMTPError.Retryable`, on the chain that the error wraps.
unfoldable pub smtp_error_retryable : ErrorChain → Bool
unfolding find_protocol_error is_transient
smtp_error_retryable wrapped = elim (find_protocol_error wrapped) [
  | some c ↦ leb 400 c && ltb c 500
  | none ↦ is_transient wrapped
]
