-- ===== src/Pipeline/Delivery.antt =====
-- internal/notification/pipeline/worker.go: one delivery and one round of the worker.
pub mod Codes
pub mod Settled
pub mod Outcome
pub mod Rounds
use feed_flow.Base.{
  Bool, List, Option, String, [], any, false, if◌then◌else◌, leb, length, ltb, none, some, true, ℕ,
  ◌&&◌, ◌+◌, ◌==◌, ◌∷◌,
}
use feed_flow.Base.Int.{pos}
use feed_flow.Contract.{Codec}
use feed_flow.Errors.{
  ApiError, ErrorChain, Layer, api_error, find_protocol_error, sender_not_registered, smtp_error,
  transport_error,
}
use feed_flow.Pipeline.Senders.{Registry, try_send}
use feed_flow.Retry.{Float64, Policy, minute, next_delay}
use feed_flow.Store.{M, Result, Session, context_cancelled, err, ok, throw}
use feed_flow.Store.Claim.{Task, claim}
use feed_flow.Store.Outcomes.{mark_failed, mark_sent}
use feed_flow.Store.Recovery.{recover_expired}

unfoldable pub find_api_error : ErrorChain → Option ApiError
find_api_error [] = none
find_api_error (api_error e ∷ rest) = some e
find_api_error (_ ∷ rest) = find_api_error rest

abbrev pub is_transport : Layer → Bool
is_transport transport_error = true
is_transport _ = false

abbrev pub is_smtp : Layer → Bool
is_smtp (smtp_error op) = true
is_smtp _ = false

abbrev pub is_unregistered : Layer → Bool
is_unregistered sender_not_registered = true
is_unregistered _ = false

abbrev pub api_code : ApiError → String
api_code e =
    if e.code == 429
    then "telegram_rate_limited"
    else if leb 500 e.code
    then "telegram_server_error"
    else "telegram_rejected"

abbrev pub smtp_code : Option ℕ → String
smtp_code none = "smtp_transport_error"
smtp_code (some c) = if leb 400 c && ltb c 500 then "smtp_transient_error" else "smtp_rejected"

-- `safeErrorCode`: what a failure is stored as.
unfoldable pub safe_error_code : ErrorChain → String
unfolding find_api_error find_protocol_error
safe_error_code failure = elim (find_api_error failure) [
  | some e ↦ api_code e
  | none ↦
      if any is_transport failure
      then "telegram_transport_error"
      else if any is_smtp failure
      then smtp_code (find_protocol_error failure)
      else if any is_unregistered failure
      then "sender_unconfigured"
      else "provider_error"
]

-- The delay that `Process` hands to `MarkFailed`: 0 where there is to be no retry.
unfoldable pub failure_delay : (fl : Float64) → Option (Policy fl) → Task → ErrorChain → ℕ → ℕ
failure_delay fl policy task failure draw =
    let (delay, again) = next_delay fl policy true (pos task.attempts) (some failure) draw in
    if again then delay else 0

abbrev pub or_empty : Result (List Task) → List Task
or_empty (ok tasks) = tasks
or_empty (err e) = []

module _ (codec : Codec) (gen_uuid : ℕ → ℕ) (fl : Float64) where
  unfoldable pub settle : Option (Policy fl) → Bool → ℕ → Task → Option ErrorChain → M (Unit {0})
  settle policy cancelled_after draw task none = mark_sent task
  settle policy cancelled_after draw task (some failure) =
      if cancelled_after
      then throw context_cancelled
      else mark_failed codec gen_uuid task (failure_delay fl policy task failure draw)
          (safe_error_code failure)

  -- `Worker.Process`; `cancelled_after` says whether the context has ended when `Send` returns.
  unfoldable pub process : Registry → Option (Policy fl) → Bool → ℕ → Task → M (Unit {0})
  unfolding settle try_send
  process senders policy cancelled_after draw task =
      settle policy cancelled_after draw task (try_send senders task)

  -- The loop over the claimed tasks; an error is logged and the loop goes on. `ended k` says
  -- whether the context has ended when it is looked at for the k-th time: before a task, which
  -- ends the loop, and after its `Send`.
  unfoldable pub process_each :
      Registry → Option (Policy fl) → (ℕ → Bool) → ℕ → List Task → Session → Session
  process_each senders policy ended k [] s = s
  process_each senders policy ended k (task ∷ tasks) s =
      let s' = (process senders policy (ended (k + 1)) k task s).1 in
      let rest = process_each senders policy ended (k + 2) tasks s' in if ended k then s else rest

  -- One round of `Run`: a recovery if its ticker has fired, a claim of one task under a lease of a
  -- minute, and its delivery. True asks for the next round at once.
  unfoldable pub work_round :
      Registry → Option (Policy fl) → List String → Bool → (ℕ → Bool) → Session → Session × Bool
  unfolding process_each
  work_round senders policy kinds recovery_due ended s =
      let s1 = if recovery_due then (recover_expired codec gen_uuid (pos 100) (pos 8) s).1 else s in
      let (r, s2) = claim codec gen_uuid (pos 1) (pos minute) kinds s1 in
      (process_each senders policy ended 0 (or_empty r) s2, length (or_empty r) == 1)
