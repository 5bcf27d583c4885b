-- ===== src/Store/History/Sound.antt =====
-- Every history keeps the tables of internal/notification/postgres consistent.
use feed_flow.Base.{
  All, All-append, All-mono, Bool-cases, List, Option, [], inl, inr, none, some, ℕ, ◌-◌, ◌==◌, ◌∷◌,
}
use feed_flow.Contract.{Codec}
use feed_flow.Store.{M, Result, Session, Tables, err, ok}
use feed_flow.Store.Claim.{Task, claim}
use feed_flow.Store.History.{
  Call, Env, World, accepts, claims, creates, deletes, fails, handed, perform, recovers, resumes,
  run_history, run_in, sends, session_of, settle_task, switches, task_at,
}
use feed_flow.Store.Invariant.{Inv}
use feed_flow.Store.Keeps.{Keeps, Keeps-run}
use feed_flow.Store.Keeps.Accept.{accept_request-Keeps}
use feed_flow.Store.Keeps.Channels.{create_channel-Keeps}
use feed_flow.Store.Keeps.Deleted.{delete_channel-Keeps}
use feed_flow.Store.Keeps.Disabled.{set_channel_enabled-Keeps}
use feed_flow.Store.Keeps.Failed.{mark_failed-Inv}
use feed_flow.Store.Keeps.Owners.{TasksMeet, claim-Keeps}
use feed_flow.Store.Keeps.Recovered.{recover_expired-Keeps}
use feed_flow.Store.Keeps.Sent.{mark_sent-Keeps, resume_retry-Keeps}
use feed_flow.Store.Outcomes.{mark_sent}
use feed_flow.Store.Tokens.{DrawsApart, IsKnown, Stable, IsKnown-run}
use feed_flow.Store.Tokens.Calls.{
  accept_request-Stable, create_channel-Stable, delete_channel-Stable, mark_failed-Stable,
  mark_sent-Stable, resume_retry-Stable, set_channel_enabled-Stable,
}
use feed_flow.Store.Tokens.Claims.{claim-Stable, recover_expired-Stable}
use feed_flow.Store.Tokens.Handed.{claim-IsKnown}

abbrev SomeMeets : (Task → Type 0) → Option Task → Type 0
SomeMeets P none = Unit
SomeMeets P (some task) = P task

module _ (codec : Codec) (gen_uuid : ℕ → ℕ) where
  -- The tables are consistent, and every task that was handed out is known of them.
  pub record IsSound (w : World) : Type 0 where
    pub tables_Inv : Inv w.tables
    pub tasks_known : All (λ task. IsKnown gen_uuid task w.tables) w.tasks

  Sound_run_in {ℓ} :
      {A : Type ℓ} (m : M A) (env : Env) (w : World)
      → Inv (run_in m env w).tables
      → ((task : Task) → Stable gen_uuid task m)
      → IsSound w
      → IsSound (run_in m env w)
  Sound_run_in m env w v stable sound = record {
    tables_Inv = v;
    tasks_known =
        All-mono _ _ w.tasks
          (λ task k. IsKnown-run gen_uuid task m (stable task) (session_of env w.tables) k)
          sound.tasks_known;
  }

  Keeps-Sound {ℓ} :
      {A : Type ℓ} (m : M A) (env : Env) (w : World)
      → Keeps m
      → ((task : Task) → Stable gen_uuid task m)
      → IsSound w
      → IsSound (run_in m env w)
  Keeps-Sound m env w keeps stable sound =
      Sound_run_in m env w (Keeps-run m keeps (session_of env w.tables) sound.tables_Inv) stable
        sound

  task_at-IsKnown :
      (i : ℕ) (t : Tables) (tasks : List Task)
      → All (λ task. IsKnown gen_uuid task t) tasks
      → SomeMeets (λ task. IsKnown gen_uuid task t) (task_at i tasks)
  task_at-IsKnown i t [] h = tt
  task_at-IsKnown i t (task ∷ tasks) h = elim (Bool-cases (i == 0)) [
    | inl e ↦ rw e h.0
    | inr e ↦ rw e (task_at-IsKnown (i - 1) t tasks h.1)
  ]

  settle_Sound :
      (m : Task → M (Unit {0})) (env : Env) (w : World) (o : Option Task)
      → ((task : Task) → IsKnown gen_uuid task w.tables → Inv (run_in (m task) env w).tables)
      → ((other task : Task) → Stable gen_uuid task (m other))
      → SomeMeets (λ task. IsKnown gen_uuid task w.tables) o
      → IsSound w
      → IsSound (settle_task o m env w)
  settle_Sound m env w none keeps stable known sound = sound
  settle_Sound m env w (some task) keeps stable known sound =
      Sound_run_in (m task) env w (keeps task known) (stable task) sound

  handed_Sound :
      (w : World) (r : Result (List Task) × Session)
      → Inv r.1.tables
      → All (λ task. IsKnown gen_uuid task r.1.tables) w.tasks
      → TasksMeet (λ task. IsKnown gen_uuid task r.1.tables) r.0
      → IsSound (handed w r)
  handed_Sound w (ok tasks, s) v known new = record {
    tables_Inv = v;
    tasks_known = All-append _ w.tasks tasks known new;
  }
  handed_Sound w (err e, s) v known new = record { tables_Inv = v; tasks_known = known }

  module _ (apart : DrawsApart gen_uuid) where
    perform-IsSound :
        (env : Env) (call : Call) (w : World)
        → IsSound w
        → IsSound (perform codec gen_uuid env call w)
    unfolding perform
    perform-IsSound env (accepts event payload) w sound =
        Keeps-Sound _ env w (accept_request-Keeps codec gen_uuid event payload)
          (λ task. accept_request-Stable codec gen_uuid task event payload) sound
    perform-IsSound env (resumes event) w sound =
        Keeps-Sound _ env w (resume_retry-Keeps event)
          (λ task. resume_retry-Stable gen_uuid task event) sound
    perform-IsSound env (claims limit lease kinds) w sound =
        let s = session_of env w.tables in
        handed_Sound w (claim codec gen_uuid limit lease kinds s)
          (Keeps-run _ (claim-Keeps codec gen_uuid limit lease kinds) s sound.tables_Inv)
          (All-mono _ _ w.tasks
            (λ task k.
              IsKnown-run gen_uuid task _ (claim-Stable codec gen_uuid task apart limit lease kinds)
                s k)
            sound.tasks_known)
          (claim-IsKnown gen_uuid codec limit lease kinds s sound.tables_Inv)
    perform-IsSound env (sends i) w sound =
        settle_Sound mark_sent env w (task_at i w.tasks)
          (λ task k. Keeps-run _ (mark_sent-Keeps task) (session_of env w.tables) sound.tables_Inv)
          (λ other task. mark_sent-Stable gen_uuid task other)
          (task_at-IsKnown i w.tables w.tasks sound.tasks_known) sound
    perform-IsSound env (fails i delay code) w sound =
        settle_Sound _ env w (task_at i w.tasks)
          (λ task k.
            mark_failed-Inv codec gen_uuid task delay code (session_of env w.tables)
              sound.tables_Inv k.0)
          (λ other task. mark_failed-Stable codec gen_uuid task other delay code)
          (task_at-IsKnown i w.tables w.tasks sound.tasks_known) sound
    perform-IsSound env (recovers limit max_attempts) w sound =
        Keeps-Sound _ env w (recover_expired-Keeps codec gen_uuid limit max_attempts)
          (λ task. recover_expired-Stable codec gen_uuid task limit max_attempts) sound
    perform-IsSound env (creates c) w sound =
        Keeps-Sound _ env w (create_channel-Keeps c) (λ task. create_channel-Stable gen_uuid task c)
          sound
    perform-IsSound env (switches user channel b) w sound =
        Keeps-Sound _ env w (set_channel_enabled-Keeps user channel b)
          (λ task. set_channel_enabled-Stable gen_uuid task user channel b) sound
    perform-IsSound env (deletes user channel) w sound =
        Keeps-Sound _ env w (delete_channel-Keeps user channel)
          (λ task. delete_channel-Stable gen_uuid task user channel) sound

    -- Whatever calls run, in whatever order, with whatever clocks, locks, faults and late or
    -- repeated settlements: the tables stay consistent and every task handed out stays known.
    pub run_history-IsSound :
        (calls : List (Env × Call)) (w : World)
        → IsSound w
        → IsSound (run_history codec gen_uuid calls w)
    unfolding run_history
    run_history-IsSound [] w sound = sound
    run_history-IsSound ((env, call) ∷ rest) w sound =
        run_history-IsSound rest (perform codec gen_uuid env call w)
          (perform-IsSound env call w sound)
