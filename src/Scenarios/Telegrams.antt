-- ===== src/Scenarios/Telegrams.antt =====
-- Messages and answers of internal/notification/telegram/sender.go.
use feed_flow.Base.{[], arith, false, refl, some, ◌*◌, ◌∷◌, ◌≡◌, ◌≤◌}
use feed_flow.Base.Int.{pos}
use feed_flow.Base.Text.{trim_space}
use feed_flow.Errors.{ErrorChain, api_error}
use feed_flow.Pipeline.Delivery.{failure_delay}
use feed_flow.Retry.{second}
use feed_flow.Scenarios.{busy_task}
use feed_flow.Scenarios.Policies.{policy, whole}
use feed_flow.Store.Claim.{Message}
use feed_flow.Telegram.{
  decoded, format_message, join_parts, joined, judge_answer, judged, responded, rune_count, seconds,
  trimmed_parts,
}
use feed_flow.Telegram.RateLimit.{rate_limit-respected}

abbrev titled : Message
titled = record {
  recipient = "chat";
  title = " A title";
  body = " ";
  url = "https://example.org/a";
}

formatted_title : format_message titled ≡ some "A title\n\nhttps://example.org/a"
unfolding format_message trimmed_parts trim_space join_parts joined rune_count
formatted_title = refl

abbrev limit_answer : ErrorChain
limit_answer =
    api_error (record { http_status = 429; code = 429; retry_after = pos 7_000_000_000 }) ∷ []

answer_judged :
    judge_answer
      (responded 429 (decoded (record { accepted = false; error_code = 0; retry_after = pos 7 })))
    ≡ some limit_answer
unfolding judge_answer judged seconds
answer_judged = refl

rate_limit-respected_example :
    7 * second ≤ failure_delay whole (some policy) busy_task limit_answer 0
rate_limit-respected_example =
    rate_limit-respected whole policy busy_task 0 7 0 limit_answer (omega arith) (omega arith)
      (omega arith) answer_judged
