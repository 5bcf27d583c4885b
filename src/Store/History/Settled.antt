-- ===== src/Store/History/Settled.antt =====
-- A settlement in a history of internal/notification/postgres is for good.
use feed_flow.Base.{
  All, List, Option, [], arith, count, none, refl, some, true, ℕ, ◌<◌, ◌∷◌, ◌≡◌, ◌≢◌,
}
use feed_flow.Contract.{Codec}
use feed_flow.Store.{DeliveryRow, M, Result, Session, Tables, err, ok}
use feed_flow.Store.Claim.{Task}
use feed_flow.Store.History.{
  Call, Env, World, accepts, claims, creates, deletes, fails, handed, perform, recovers, resumes,
  run_history, run_in, sends, session_of, settle_task, switches, task_at,
}
use feed_flow.Store.Outcomes.{holds_claim, mark_sent}
use feed_flow.Store.Settlement.{
  IsSettled, Settlement, settle-IsSettled, settle_with, settled-refuses,
}
use feed_flow.Store.Tokens.{DrawsApart, IsKnown, Stable, IsKnown-run}
use feed_flow.Store.Tokens.Calls.{
  accept_request-Stable, create_channel-Stable, delete_channel-Stable, mark_failed-Stable,
  mark_sent-Stable, resume_retry-Stable, set_channel_enabled-Stable,
}
use feed_flow.Store.Tokens.Claims.{claim-Stable, recover_expired-Stable}

module _ (codec : Codec) (gen_uuid : ℕ → ℕ) (apart : DrawsApart gen_uuid) (task : Task) where
  settle-IsKnown :
      (m : Task → M (Unit {0})) (env : Env) (w : World) (o : Option Task)
      → ((other : Task) → Stable gen_uuid task (m other))
      → IsKnown gen_uuid task w.tables
      → IsKnown gen_uuid task (settle_task o m env w).tables
  settle-IsKnown m env w none stable k = k
  settle-IsKnown m env w (some other) stable k =
      IsKnown-run gen_uuid task (m other) (stable other) (session_of env w.tables) k

  handed-IsKnown :
      (w : World) (r : Result (List Task) × Session)
      → IsKnown gen_uuid task r.1.tables
      → IsKnown gen_uuid task (handed w r).tables
  handed-IsKnown w (ok tasks, s) k = k
  handed-IsKnown w (err e, s) k = k

  run_in-IsKnown {ℓ} :
      {A : Type ℓ} (m : M A) (env : Env) (w : World)
      → Stable gen_uuid task m
      → IsKnown gen_uuid task w.tables
      → IsKnown gen_uuid task (run_in m env w).tables
  run_in-IsKnown m env w stable k = IsKnown-run gen_uuid task m stable (session_of env w.tables) k

  -- Every call leaves the task known, be it one that was handed out or not.
  perform-IsKnown :
      (env : Env) (call : Call) (w : World)
      → IsKnown gen_uuid task w.tables
      → IsKnown gen_uuid task (perform codec gen_uuid env call w).tables
  unfolding perform
  perform-IsKnown env (accepts event payload) w k =
      run_in-IsKnown _ env w (accept_request-Stable codec gen_uuid task event payload) k
  perform-IsKnown env (resumes event) w k =
      run_in-IsKnown _ env w (resume_retry-Stable gen_uuid task event) k
  perform-IsKnown env (claims limit lease kinds) w k = handed-IsKnown w _ (
      IsKnown-run gen_uuid task _ (claim-Stable codec gen_uuid task apart limit lease kinds)
        (session_of env w.tables) k)
  perform-IsKnown env (sends i) w k =
      settle-IsKnown mark_sent env w (task_at i w.tasks)
        (λ other. mark_sent-Stable gen_uuid task other) k
  perform-IsKnown env (fails i delay code) w k =
      settle-IsKnown _ env w (task_at i w.tasks)
        (λ other. mark_failed-Stable codec gen_uuid task other delay code) k
  perform-IsKnown env (recovers limit max_attempts) w k =
      run_in-IsKnown _ env w (recover_expired-Stable codec gen_uuid task limit max_attempts) k
  perform-IsKnown env (creates c) w k =
      run_in-IsKnown _ env w (create_channel-Stable gen_uuid task c) k
  perform-IsKnown env (switches user channel b) w k =
      run_in-IsKnown _ env w (set_channel_enabled-Stable gen_uuid task user channel b) k
  perform-IsKnown env (deletes user channel) w k =
      run_in-IsKnown _ env w (delete_channel-Stable gen_uuid task user channel) k

  pub run_history-IsKnown :
      (calls : List (Env × Call)) (w : World)
      → IsKnown gen_uuid task w.tables
      → IsKnown gen_uuid task (run_history codec gen_uuid calls w).tables
  unfolding run_history
  run_history-IsKnown [] w k = k
  run_history-IsKnown ((env, call) ∷ rest) w k =
      run_history-IsKnown rest (perform codec gen_uuid env call w) (perform-IsKnown env call w k)

-- A settled task is one that is known with every number of attempts at once.
abbrev with_attempts : ℕ → Task → Task
with_attempts n task = record task { attempts = n }

abbrev TokenDrawn : (ℕ → ℕ) → Task → Tables → Type 0
TokenDrawn gen_uuid task t = (k : ℕ) × (k < t.drawn) × (task.claim_token ≡ gen_uuid k)

genuine_of_settled :
    (task : Task) (n : ℕ) (ds : List DeliveryRow)
    → count (holds_claim task) ds ≡ 0
    → All (λ d. holds_claim (with_attempts n task) d ≡ true → d.attempts ≡ n) ds
genuine_of_settled task n [] h = tt
genuine_of_settled task n (d ∷ ds) h =
    ((λ held. ground arith), genuine_of_settled task n ds (ground arith))

settled_of_genuine :
    (task : Task) (ds : List DeliveryRow)
    → All (λ d. holds_claim (with_attempts 0 task) d ≡ true → d.attempts ≡ 0) ds
    → All (λ d. holds_claim (with_attempts 1 task) d ≡ true → d.attempts ≡ 1) ds
    → count (holds_claim task) ds ≡ 0
settled_of_genuine task [] h k = refl
settled_of_genuine task (d ∷ ds) h k = ground (arith, h.0, k.0, settled_of_genuine task ds h.1 k.1)

-- However the task was settled, whatever the history after that: neither `MarkSent` nor
-- `MarkFailed` ever succeeds for it again or changes a table. The task's token was drawn, and the
-- database never draws a UUID twice.
pub settled_for_good :
    (codec : Codec) (gen_uuid : ℕ → ℕ) (first again : Settlement) (task : Task) (s later : Session)
    (calls : List (Env × Call)) (w : World)
    → DrawsApart gen_uuid
    → TokenDrawn gen_uuid task w.tables
    → (settle_with codec gen_uuid first task s).0 ≡ ok tt
    → w.tables ≡ (settle_with codec gen_uuid first task s).1.tables
    → later.tables ≡ (run_history codec gen_uuid calls w).tables
    → ((settle_with codec gen_uuid again task later).0 ≢ ok tt)
      × ((settle_with codec gen_uuid again task later).1.tables ≡ later.tables)
settled_for_good codec gen_uuid first again task s later calls w apart drawn done start end =
    let settled : IsSettled task w.tables =
      rw start (settle-IsSettled codec gen_uuid first task s done) in
    let known : (n : ℕ)
        → IsKnown gen_uuid (with_attempts n task) (run_history codec gen_uuid calls w).tables =
      λ n.
        run_history-IsKnown codec gen_uuid apart (with_attempts n task) calls w
          (genuine_of_settled task n w.tables.deliveries settled, drawn) in
    settled-refuses codec gen_uuid again task later
      (rw end (settled_of_genuine task _ (known 0).0 (known 1).0))
