-- ===== src/Telegram/RateLimit.antt =====
-- What a delivery makes of the answers of internal/notification/telegram/sender.go.
use feed_flow.Base.{
  Bool-cases, List, String, [], arith, false, if◌then◌else◌, inl, inr, ltb, refl, some, subst, suc,
  true, zero, ℕ, ◌*◌, ◌<◌, ◌==◌, ◌^◌, ◌∷◌, ◌≡◌, ◌≤◌,
}
use feed_flow.Base.Int.{pos}
use feed_flow.Errors.{ErrorChain, api_error, api_error_retryable}
use feed_flow.Pipeline.Delivery.{failure_delay}
use feed_flow.Retry.{
  Float64, Policy, classified, is_retryable, next_delay, retry_delay, second, suggested_delay,
  wrap_int64,
}
use feed_flow.Store.Claim.{Message, Task}
use feed_flow.Telegram.{
  cut_message, decoded, format_message, formatted, join_parts, judge_answer, judged,
  max_message_runes, responded, rune_count, seconds, take_runes,
}

rune_count-take_runes : (n : ℕ) (s : String) → rune_count (take_runes n s) ≤ n
unfolding rune_count take_runes
rune_count-take_runes zero s = omega arith
rune_count-take_runes (suc n) String.[] = omega arith
rune_count-take_runes (suc n) (String.◌∷◌ c s) = omega (arith, rune_count-take_runes n s)

cut_le : (s : String) → rune_count (cut_message s) ≤ max_message_runes
cut_le s = elim (Bool-cases (ltb max_message_runes (rune_count s))) [
  | inl e ↦ rw e (rune_count-take_runes max_message_runes s)
  | inr e ↦ rw e (ground (arith, e))
]

option_path : (a b : String) → some a ≡ some b → a ≡ b
option_path a b h = cc

chain_path : (a b : ErrorChain) → some a ≡ some b → a ≡ b
chain_path a b h = cc

formatted_le :
    (parts : List String) (content : String)
    → formatted parts ≡ some content
    → rune_count content ≤ max_message_runes
formatted_le [] content h = cc
formatted_le (p ∷ ps) content h =
    subst (λ x. rune_count x ≤ max_message_runes) (option_path _ _ h) (cut_le (join_parts (p ∷ ps)))

-- No text is longer than Telegram allows.
pub format_message_le :
    (message : Message) (content : String)
    → format_message message ≡ some content
    → rune_count content ≤ max_message_runes
unfolding format_message
format_message_le message content h = formatted_le _ content h

seconds_exact : (n : ℕ) → n * second < 2 ^ 63 → seconds (pos n) ≡ pos (n * second)
unfolding seconds
seconds_exact n small =
    let same : wrap_int64 (n * second) ≡ n * second = omega (arith, small) in
    let below : ltb (n * second) (2 ^ 63) ≡ true = ground (arith, small) in rw (same, below) refl

abbrev limited : ℕ → ℕ → ErrorChain
limited code wait =
    api_error (record { http_status = 429; code = code; retry_after = pos wait }) ∷ []

limited_delay :
    (fl : Float64) (p : Policy fl) (task : Task) (code wait draw : ℕ)
    → 0 < task.attempts
    → task.attempts < p.attempts_limit
    → wait ≤ failure_delay fl (some p) task (limited code wait) draw
unfolding failure_delay next_delay suggested_delay retry_delay is_retryable classified
    api_error_retryable
limited_delay fl p task code wait draw tried again = ground arith

-- A delivery that Telegram turns down with a rate limit is tried again, and not before the number
-- of seconds that Telegram asks for, as long as the policy allows one more attempt.
pub rate_limit-respected :
    (fl : Float64) (p : Policy fl) (task : Task) (code : ℕ) (n draw : ℕ) (failure : ErrorChain)
    → n * second < 2 ^ 63
    → 0 < task.attempts
    → task.attempts < p.attempts_limit
    → judge_answer (
        responded 429
          (decoded (record { accepted = false; error_code = code; retry_after = pos n })))
      ≡ some failure
    → n * second ≤ failure_delay fl (some p) task failure draw
unfolding judge_answer judged seconds failure_delay next_delay suggested_delay retry_delay
    is_retryable classified api_error_retryable
rate_limit-respected fl p task code n draw failure small tried again h =
    subst (λ x. n * second ≤ failure_delay fl (some p) task x draw)
      (chain_path _ _ (rw (seconds_exact n small) at h))
      (limited_delay fl p task (if code == 0 then 429 else code) (n * second) draw tried again)
