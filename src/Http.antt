-- ===== src/Http.antt =====
-- internal/httpapi/response.go: the replies of the HTTP APIs and the reading of JSON bodies.
use feed_flow.Base.{
  Bool, Option, String, if◌then◌else◌, inl, inr, leb, ltb, none, not, some, starts_with, ℕ, ◌&&◌,
  ◌⊎◌,
}
use feed_flow.Base.Text.{trim_space}

-- A reply: an error with its code and message, a JSON value, or a status alone.
pub data Reply (A : Type 0) : Type 0 where
  error_reply : ℕ → String → String → Reply A
  value_reply : ℕ → A → Reply A
  empty_reply : ℕ → Reply A

abbrev pub status_of : {A : Type 0} → Reply A → ℕ
status_of (error_reply status code message) = status
status_of (value_reply status value) = status
status_of (empty_reply status) = status

-- Whether the request was carried out.
abbrev pub is_success : {A : Type 0} → Reply A → Bool
is_success reply = leb 200 (status_of reply) && ltb (status_of reply) 300

-- What `io.ReadAll` finds behind `http.MaxBytesReader`.
pub data RequestBody : Type 0 where
  too_large broken : RequestBody
  sent_text : String → RequestBody

pub data DecodeError : Type 0 where
  body_too_large invalid_body : DecodeError

-- A first byte of `{`.
abbrev pub is_object : String → Bool
is_object content = starts_with content "{"

-- The decoder's answer: no value of the type, or one and whether the text ends there.
abbrev pub single_value : {B : Type 0} → Option (B × Bool) → DecodeError ⊎ B
single_value none = inl invalid_body
single_value (some (b, at_end)) = if at_end then inr b else inl invalid_body

-- `DecodeJSON`; `decode` is a `json.Decoder` that allows no unknown field.
unfoldable pub decode_json :
    {B : Type 0} → (String → Option (B × Bool)) → RequestBody → DecodeError ⊎ B
decode_json decode too_large = inl body_too_large
decode_json decode broken = inl invalid_body
decode_json decode (sent_text content) =
    let trimmed = trim_space content in
    if not (is_object trimmed) then inl invalid_body else single_value (decode trimmed)

-- `WriteDecodeError`.
unfoldable pub decode_error_reply : {A : Type 0} → DecodeError → Reply A
decode_error_reply body_too_large = error_reply 413 "request_too_large" "request body is too large"
decode_error_reply invalid_body = error_reply 400 "invalid_request" "invalid request payload"
