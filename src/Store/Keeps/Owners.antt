-- ===== src/Store/Keeps/Owners.antt =====
-- The tasks that `Claim` of internal/notification/postgres/pipeline.go hands out own their rows.
use feed_flow.Base.{
  All, All-both, All-mono, Distinct-same_row, List, Option, String, [], arith, none, refl, some,
  true, ℕ, ◌||◌, ◌∷◌, ◌≡◌,
}
use feed_flow.Base.Int.{leb_ℤ, pos, pos_part, ℤ}
use feed_flow.Contract.{Codec, Requested}
use feed_flow.Store.{
  ChannelRow, DeliveryRow, InboxRow, Result, Session, Tables, err, invalid_limit, ok, throw,
}
use feed_flow.Store.Claim.{
  ClaimedRow, Task, add_task, claim, claim_statement, claimed_row, join_claimed, join_row, lift,
  read_tasks, selected, task_of,
}
use feed_flow.Store.Invariant.{Inv, clash_id}
use feed_flow.Store.Keeps.{Keeps}
use feed_flow.Store.Keeps.Claimed.{
  claim_rows-claimed, claim_rows-each, claimed_table, claimed_table-Inv,
}
use feed_flow.Store.Outcomes.{holds_claim}
use feed_flow.Store.Rows.{has_id, is_processing, is_value}
use feed_flow.Store.Triples.{
  Outcome, StatementMeets, Triple, run_triple, triple, triple_bind, triple_exec, triple_if,
  triple_mono, triple_throw,
}

-- The row of the task is claimed with the task's token and counts the task's attempts; no other
-- row has its UUID.
abbrev pub IsOwner : Tables → Task → Type 0
IsOwner t task =
    All (λ x. has_id task.id x ≡ true → (holds_claim task x ≡ true) × (x.attempts ≡ task.attempts))
      t.deliveries

-- The same of a claimed row that has not been read into a task yet.
abbrev IsHeld : List DeliveryRow → ClaimedRow → Type 0
IsHeld ds r =
    All
      (λ x.
        has_id r.delivery.id x ≡ true
        → (is_value x.claim_token r.token ≡ true)
          × (is_processing x.status ≡ true)
          × (x.attempts ≡ r.delivery.attempts))
      ds

abbrev IsClaimedRow : List DeliveryRow → DeliveryRow → Type 0
IsClaimedRow ds e = All (λ x. clash_id e x ≡ true → x ≡ e) ds × (is_processing e.status ≡ true)

IsHeld-row :
    (ds : List DeliveryRow) (e : DeliveryRow) (token : ℕ) (c : ChannelRow) (payload : String)
    → IsClaimedRow ds e
    → e.claim_token ≡ some token
    → IsHeld ds (record { delivery = e; token = token; channel = c; payload = payload })
IsHeld-row ds e token c payload known own =
    All-mono _ _ ds (λ x same i. rw (same i) (ground arith, known.1, refl)) known.0

join_row-IsHeld :
    (ds : List DeliveryRow) (e : DeliveryRow) (o : Option ℕ) (oc : Option ChannelRow)
    (oi : Option InboxRow) (rest : List ClaimedRow)
    → IsClaimedRow ds e
    → e.claim_token ≡ o
    → All (IsHeld ds) rest
    → All (IsHeld ds) (join_row e o oc oi rest)
join_row-IsHeld ds e (some token) (some c) (some i) rest known own h =
    (IsHeld-row ds e token c i.payload known own, h)
join_row-IsHeld ds e _ _ _ rest known own h = h

join_claimed-IsHeld :
    (t : Tables) (ds es : List DeliveryRow)
    → All (IsClaimedRow ds) es
    → All (IsHeld ds) (join_claimed t es)
unfolding join_claimed
join_claimed-IsHeld t ds [] h = tt
join_claimed-IsHeld t ds (e ∷ es) h =
    join_row-IsHeld ds e e.claim_token _ _ _ h.0 refl (join_claimed-IsHeld t ds es h.1)

task_of-IsOwner :
    (t : Tables) (r : ClaimedRow) (event : Requested)
    → IsHeld t.deliveries r
    → IsOwner t (task_of r event)
task_of-IsOwner t r event h = All-mono _ _ t.deliveries (λ x f i. (ground (arith, f i), (f i).2)) h

-- What a read of the tasks promises of them.
abbrev pub TasksMeet : (Task → Type 0) → Result (List Task) → Type 0
TasksMeet P (ok tasks) = All P tasks
TasksMeet P (err e) = Unit

add_task-IsOwner :
    (t : Tables) (r : ClaimedRow) (o : Option Requested) (rest : Result (List Task))
    → IsHeld t.deliveries r
    → TasksMeet (IsOwner t) rest
    → TasksMeet (IsOwner t) (add_task r o rest)
add_task-IsOwner t r none rest h k = tt
add_task-IsOwner t r (some event) (err e) h k = tt
add_task-IsOwner t r (some event) (ok tasks) h k = (task_of-IsOwner t r event h, k)

read_tasks-IsOwner :
    (codec : Codec) (t : Tables) (rs : List ClaimedRow)
    → All (IsHeld t.deliveries) rs
    → TasksMeet (IsOwner t) (read_tasks codec rs)
unfolding read_tasks
read_tasks-IsOwner codec t [] h = tt
read_tasks-IsOwner codec t (r ∷ rs) h =
    add_task-IsOwner t r (codec.unmarshal_request r.payload) _ h.0
      (read_tasks-IsOwner codec t rs h.1)

claimed_processing :
    (now lease token : ℕ) (d : DeliveryRow)
    → is_processing (claimed_row now lease token d).status ≡ true
unfolding claimed_row
claimed_processing now lease token d = refl

-- The rows that the statement returns are those of the new table.
claim_statement-IsHeld :
    (gen_uuid : ℕ → ℕ) (limit lease : ℕ) (kinds : List String) (s : Session)
    → Inv s.tables
    → StatementMeets
        (λ rs t. Inv t × All (IsHeld t.deliveries) rs)
        Inv
        (claim_statement gen_uuid limit lease kinds s)
unfolding claim_statement
claim_statement-IsHeld gen_uuid limit lease kinds s v =
    let es = selected s kinds limit in
    let kept = claimed_table-Inv gen_uuid lease limit kinds s v in
    let t = claimed_table gen_uuid lease es s in
    (
      kept,
      join_claimed-IsHeld s.tables t.deliveries _ (
          All-both _ _ _
            (claim_rows-claimed gen_uuid s.db_now lease es _ s.tables.drawn s.tables.deliveries
              (Distinct-same_row clash_id (λ x y. ground arith) t.deliveries kept.unique_ids))
            (claim_rows-each gen_uuid s.db_now lease es _ s.tables.drawn s.tables.deliveries
              (λ d token. claimed_processing s.db_now lease token d))),
    )

lift_read :
    (codec : Codec) (rs : List ClaimedRow)
    → Triple
        (λ t. Inv t × All (IsHeld t.deliveries) rs)
        (lift (read_tasks codec rs))
        (λ tasks t. Inv t × All (IsOwner t) tasks)
        Inv
lift_read codec rs =
    triple (λ s p. read s (read_tasks codec rs) p.0 (read_tasks-IsOwner codec s.tables rs p.1))
  where
    read :
        (s : Session) (r : Result (List Task))
        → Inv s.tables
        → TasksMeet (IsOwner s.tables) r
        → Outcome (λ tasks t. Inv t × All (IsOwner t) tasks) Inv (r, s)
    read s (ok tasks) v h = (v, h)
    read s (err e) v h = v

-- `Claim` keeps the invariant, also where it fails after its update, and each task that it hands
-- out owns its row.
pub claim_triple :
    (codec : Codec) (gen_uuid : ℕ → ℕ) (limit lease : ℤ) (kinds : List String)
    → Triple Inv
        (claim codec gen_uuid limit lease kinds)
        (λ tasks t. Inv t × All (IsOwner t) tasks)
        Inv
unfolding claim
claim_triple codec gen_uuid limit lease kinds =
    triple_if (leb_ℤ limit (pos 0) || leb_ℤ lease (pos 0)) Inv (throw invalid_limit) _ _ Inv
      (λ e. triple_throw Inv invalid_limit _ Inv (λ t v. v))
      (λ e.
        triple_bind (λ rs t. Inv t × All (IsHeld t.deliveries) rs)
          (triple_exec Inv _ _ Inv
            (λ s v. claim_statement-IsHeld gen_uuid (pos_part limit) _ kinds s v) (λ t v. v))
          (λ rs. lift_read codec rs))

pub claim-Keeps :
    (codec : Codec) (gen_uuid : ℕ → ℕ) (limit lease : ℤ) (kinds : List String)
    → Keeps (claim codec gen_uuid limit lease kinds)
claim-Keeps codec gen_uuid limit lease kinds =
    triple_mono _ (λ _ t. Inv t) Inv Inv (λ tasks t h. h.0) (λ t v. v)
      (claim_triple codec gen_uuid limit lease kinds)

owned-Outcome :
    (r : Result (List Task) × Session)
    → Outcome (λ tasks t. Inv t × All (IsOwner t) tasks) Inv r
    → TasksMeet (IsOwner r.1.tables) r.0
owned-Outcome (ok tasks, s) h = h.1
owned-Outcome (err e, s) h = tt

-- Each task that `Claim` hands out owns its row: every row with the task's UUID is being processed
-- under the task's token, at the task's number of attempts.
pub claim-IsOwner :
    (codec : Codec) (gen_uuid : ℕ → ℕ) (limit lease : ℤ) (kinds : List String) (s : Session)
    → Inv s.tables
    → TasksMeet
        (IsOwner (claim codec gen_uuid limit lease kinds s).1.tables)
        (claim codec gen_uuid limit lease kinds s).0
claim-IsOwner codec gen_uuid limit lease kinds s v =
    owned-Outcome (claim codec gen_uuid limit lease kinds s)
      (run_triple (claim_triple codec gen_uuid limit lease kinds) s v)
