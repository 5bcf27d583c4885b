-- ===== src/Pipeline/Delivery/Rounds.antt =====
-- A round of `Worker.Run` in internal/notification/pipeline/worker.go keeps the tables consistent.
use feed_flow.Base.{
  All, All-mono, Bool, Bool-cases, List, Option, String, [], false, if◌then◌else◌, inl, inr, none,
  some, true, ℕ, ◌+◌, ◌∷◌,
}
use feed_flow.Base.Int.{pos}
use feed_flow.Contract.{Codec}
use feed_flow.Errors.{ErrorChain}
use feed_flow.Pipeline.Delivery.{or_empty, process, process_each, settle, work_round}
use feed_flow.Pipeline.Senders.{Registry, try_send}
use feed_flow.Retry.{Float64, Policy, minute}
use feed_flow.Store.{Result, Session, context_cancelled, err, ok}
use feed_flow.Store.Claim.{Task, claim}
use feed_flow.Store.Invariant.{Inv}
use feed_flow.Store.Keeps.{Keeps-run}
use feed_flow.Store.Keeps.Failed.{IsGenuine, mark_failed-Inv}
use feed_flow.Store.Keeps.Owners.{TasksMeet, claim-Keeps}
use feed_flow.Store.Keeps.Recovered.{recover_expired-Keeps}
use feed_flow.Store.Keeps.Sent.{mark_sent-Keeps}
use feed_flow.Store.Recovery.{recover_expired}
use feed_flow.Store.Tokens.{IsKnown, Stable, IsKnown-run, Stable-throw}
use feed_flow.Store.Tokens.Calls.{mark_failed-Stable, mark_sent-Stable}
use feed_flow.Store.Tokens.Handed.{claim-IsKnown}

module _ (codec : Codec) (gen_uuid : ℕ → ℕ) (fl : Float64) (senders : Registry)
    (policy : Option (Policy fl)) where
  settle-Stable :
      (known other : Task) (ended : Bool) (draw : ℕ) (answer : Option ErrorChain)
      → Stable gen_uuid known (settle codec gen_uuid fl policy ended draw other answer)
  unfolding settle
  settle-Stable known other ended draw none = mark_sent-Stable gen_uuid known other
  settle-Stable known other true draw (some failure) = Stable-throw gen_uuid known context_cancelled
  settle-Stable known other false draw (some failure) =
      mark_failed-Stable codec gen_uuid known other _ _

  process-Stable :
      (known other : Task) (ended : Bool) (draw : ℕ)
      → Stable gen_uuid known (process codec gen_uuid fl senders policy ended draw other)
  unfolding process
  process-Stable known other ended draw =
      settle-Stable known other ended draw (try_send senders other)

  settle-Inv :
      (task : Task) (ended : Bool) (draw : ℕ) (answer : Option ErrorChain) (s : Session)
      → Inv s.tables
      → IsGenuine task s.tables
      → Inv (settle codec gen_uuid fl policy ended draw task answer s).1.tables
  unfolding settle
  settle-Inv task ended draw none s v g = Keeps-run _ (mark_sent-Keeps task) s v
  settle-Inv task true draw (some failure) s v g = v
  settle-Inv task false draw (some failure) s v g = mark_failed-Inv codec gen_uuid task _ _ s v g

  process-Inv :
      (task : Task) (ended : Bool) (draw : ℕ) (s : Session)
      → Inv s.tables
      → IsGenuine task s.tables
      → Inv (process codec gen_uuid fl senders policy ended draw task s).1.tables
  unfolding process
  process-Inv task ended draw s v g = settle-Inv task ended draw (try_send senders task) s v g

  process_each-Inv :
      (ended : ℕ → Bool) (k : ℕ) (tasks : List Task) (s : Session)
      → Inv s.tables
      → All (λ task. IsKnown gen_uuid task s.tables) tasks
      → Inv (process_each codec gen_uuid fl senders policy ended k tasks s).tables
  unfolding process_each
  process_each-Inv ended k [] s v known = v
  process_each-Inv ended k (task ∷ tasks) s v known = elim (Bool-cases (ended k)) [
    | inl e ↦ rw e v
    | inr e ↦ rw e (
        process_each-Inv ended (k + 2) tasks _ (process-Inv task (ended (k + 1)) k s v known.0.0) (
          All-mono _ _ tasks
            (λ other. IsKnown-run gen_uuid other _ (process-Stable other task (ended (k + 1)) k) s)
            known.1))
  ]

  claimed-IsKnown :
      (r : Result (List Task) × Session)
      → TasksMeet (λ task. IsKnown gen_uuid task r.1.tables) r.0
      → All (λ task. IsKnown gen_uuid task r.1.tables) (or_empty r.0)
  claimed-IsKnown (ok tasks, s) h = h
  claimed-IsKnown (err e, s) h = tt

  recovered-Inv :
      (due : Bool) (s : Session)
      → Inv s.tables
      → Inv (if due then (recover_expired codec gen_uuid (pos 100) (pos 8) s).1 else s).tables
  recovered-Inv true s v = Keeps-run _ (recover_expired-Keeps codec gen_uuid (pos 100) (pos 8)) s v
  recovered-Inv false s v = v

  -- A round of the worker, with or without a recovery, keeps the tables consistent, whatever the
  -- database, the senders and the context do.
  pub work_round-Inv :
      (kinds : List String) (recovery_due : Bool) (ended : ℕ → Bool) (s : Session)
      → Inv s.tables
      → Inv (work_round codec gen_uuid fl senders policy kinds recovery_due ended s).0.tables
  unfolding work_round
  work_round-Inv kinds recovery_due ended s v =
      let s1 = if recovery_due then (recover_expired codec gen_uuid (pos 100) (pos 8) s).1 else s in
      let v1 = recovered-Inv recovery_due s v in
      process_each-Inv ended 0 _ _
        (Keeps-run _ (claim-Keeps codec gen_uuid (pos 1) (pos minute) kinds) s1 v1)
        (claimed-IsKnown (claim codec gen_uuid (pos 1) (pos minute) kinds s1)
          (claim-IsKnown gen_uuid codec (pos 1) (pos minute) kinds s1 v1))
