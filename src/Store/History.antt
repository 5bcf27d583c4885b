-- ===== src/Store/History.antt =====
-- Histories of internal/notification/postgres: the calls of the consumer and of the workers, in
-- any order, each in an environment of its own, with the tasks that were handed out so far.
pub mod Sound
pub mod Settled
use feed_flow.Base.{
  Bool, List, Option, String, [], if◌then◌else◌, none, some, ℕ, ◌++◌, ◌-◌, ◌==◌, ◌∷◌,
}
use feed_flow.Base.Int.{ℤ}
use feed_flow.Contract.{Codec, Requested, RetryEvent}
use feed_flow.Store.{DbFault, M, Result, Session, Tables, err, ok}
use feed_flow.Store.Channels.{Channel, create_channel, delete_channel, set_channel_enabled}
use feed_flow.Store.Claim.{Task, claim}
use feed_flow.Store.Inbox.{accept_request, resume_retry}
use feed_flow.Store.Outcomes.{mark_failed, mark_sent}
use feed_flow.Store.Recovery.{recover_expired}

-- What the outside decides for one call: the clocks, the rows that others hold locked, the faults.
pub record Env : Type 0 where
  pub db_now : ℕ
  pub clock_now : ℕ
  pub locked : ℕ → Bool
  pub faults : List (Option DbFault)
  pub lost : ℕ → Bool

-- One call; a settlement names a task by its place among those handed out, and a task may be
-- settled late or more than once.
pub data Call : Type 0 where
  accepts : Requested → String → Call
  resumes : RetryEvent → Call
  claims : ℤ → ℤ → List String → Call
  sends : ℕ → Call
  fails : ℕ → ℕ → String → Call
  recovers : ℤ → ℤ → Call
  creates : Channel → Call
  switches : ℕ → ℕ → Bool → Call
  deletes : ℕ → ℕ → Call

pub record World : Type 0 where
  pub tables : Tables
  pub tasks : List Task

abbrev pub session_of : Env → Tables → Session
session_of env t = record {
  tables = t;
  db_now = env.db_now;
  clock_now = env.clock_now;
  locked = env.locked;
  faults = env.faults;
  lost = env.lost;
}

abbrev pub run_in {ℓ} : {A : Type ℓ} → M A → Env → World → World
run_in m env w = record w { tables = (m (session_of env w.tables)).1.tables }

-- The tasks that a claim handed out join the others.
abbrev pub handed : World → Result (List Task) × Session → World
handed w (ok tasks, s) = record { tables = s.tables; tasks = w.tasks ++ tasks }
handed w (err e, s) = record w { tables = s.tables }

abbrev pub settle_task : Option Task → (Task → M (Unit {0})) → Env → World → World
settle_task none m env w = w
settle_task (some task) m env w = run_in (m task) env w

abbrev pub task_at : ℕ → List Task → Option Task
task_at i [] = none
task_at i (task ∷ tasks) = if i == 0 then some task else task_at (i - 1) tasks

module _ (codec : Codec) (gen_uuid : ℕ → ℕ) where
  unfoldable pub perform : Env → Call → World → World
  perform env (accepts event payload) w = run_in (accept_request codec gen_uuid event payload) env w
  perform env (resumes event) w = run_in (resume_retry event) env w
  perform env (claims limit lease kinds) w =
      handed w (claim codec gen_uuid limit lease kinds (session_of env w.tables))
  perform env (sends i) w = settle_task (task_at i w.tasks) mark_sent env w
  perform env (fails i delay code) w =
      settle_task (task_at i w.tasks) (λ task. mark_failed codec gen_uuid task delay code) env w
  perform env (recovers limit max_attempts) w =
      run_in (recover_expired codec gen_uuid limit max_attempts) env w
  perform env (creates c) w = run_in (create_channel c) env w
  perform env (switches user channel b) w = run_in (set_channel_enabled user channel b) env w
  perform env (deletes user channel) w = run_in (delete_channel user channel) env w

  unfoldable pub run_history : List (Env × Call) → World → World
  unfolding perform
  run_history [] w = w
  run_history ((env, call) ∷ rest) w = run_history rest (perform env call w)
