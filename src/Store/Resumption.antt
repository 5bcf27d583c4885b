-- ===== src/Store/Resumption.antt =====
-- What `ResumeRetry` of internal/notification/postgres/pipeline.go makes of the deliveries.
use feed_flow.Base.{
  Bool, Bool-cases, List, [], any, ap, arith, false, inl, inr, refl, subst, true, update, ◌&&◌,
  ◌==◌, ◌∷◌, ◌≡◌, ◌⊎◌,
}
use feed_flow.Contract.{RetryEvent}
use feed_flow.Store.{DeliveryRow, Result, Session, Tables, err, ok}
use feed_flow.Store.Inbox.{awaits_resume, resume_retry, resume_rows, resumed_row}
use feed_flow.Store.Rows.{is_pending}
use feed_flow.Store.Triples.{Always, Outcome, run_triple, triple_exec}

-- A row of this delivery is pending.
abbrev pub is_pending_row : RetryEvent → DeliveryRow → Bool
is_pending_row event d = d.id == event.delivery_id && is_pending d.status

-- The retry's delivery waited and is pending again, or it did not wait and nothing has changed.
abbrev pub IsTakenUp : RetryEvent → Tables → Tables → Type 0
IsTakenUp event old new =
    ((any (awaits_resume old.channels event) old.deliveries ≡ true)
      × (any (is_pending_row event) new.deliveries ≡ true))
    ⊎ ((any (awaits_resume old.channels event) old.deliveries ≡ false) × (new ≡ old))

any-update_kept :
    (p q : DeliveryRow → Bool) (f : DeliveryRow → DeliveryRow) (ds : List DeliveryRow)
    → any p ds ≡ true
    → ((d : DeliveryRow) → p d ≡ true → q (f d) ≡ true)
    → any q (update p f ds) ≡ true
any-update_kept p q f [] h changed = cc
any-update_kept p q f (d ∷ ds) h changed = elim (Bool-cases (p d)) [
  | inl e ↦ rw (e, changed d e) refl
  | inr e ↦ rw e (ground (arith, any-update_kept p q f ds (ground arith) changed))
]

update_none :
    (p : DeliveryRow → Bool) (f : DeliveryRow → DeliveryRow) (ds : List DeliveryRow)
    → any p ds ≡ false
    → update p f ds ≡ ds
update_none p f [] h = refl
update_none p f (d ∷ ds) h = elim (Bool-cases (p d)) [
  | inl e ↦ absurd (ground arith)
  | inr e ↦ rw e (ap (λ rows. d ∷ rows) (update_none p f ds (ground arith)))
]

resumed-IsTakenUp :
    (event : RetryEvent) (s : Session) → IsTakenUp event s.tables (resume_rows event s).1
unfolding resume_rows awaits_resume resumed_row
resumed-IsTakenUp event s =
    let t = s.tables in
    elim (Bool-cases (any (awaits_resume t.channels event) t.deliveries)) [
      | inl e ↦ inl (
        e,
        any-update_kept (awaits_resume t.channels event) (is_pending_row event)
            (resumed_row s.db_now) t.deliveries e (λ d h. ground arith),
      )
      | inr e ↦ inr (
        e,
        ap (λ ds. record t { deliveries = ds })
            (update_none (awaits_resume t.channels event) (resumed_row s.db_now) t.deliveries e),
      )
    ]

pub resume_retry-IsTakenUp :
    (event : RetryEvent) (s : Session)
    → (resume_retry event s).0 ≡ ok tt
    → IsTakenUp event s.tables (resume_retry event s).1.tables
unfolding resume_retry resume_rows
resume_retry-IsTakenUp event s h =
    taken_up s.tables (resume_retry event s)
      (run_triple
        (triple_exec (λ t. t ≡ s.tables) (resume_rows event) (λ _ t. IsTakenUp event s.tables t)
          Always
          (λ s' same.
            subst (λ t. IsTakenUp event t (resume_rows event s').1) same
              (resumed-IsTakenUp event s'))
          (λ t p. tt))
        s refl)
      h
  where
    taken_up :
        (old : Tables) (a : Result (Unit {0}) × Session)
        → Outcome (λ _ t. IsTakenUp event old t) Always a
        → a.0 ≡ ok tt
        → IsTakenUp event old a.1.tables
    taken_up old (ok _, s') o e = o
    taken_up old (err x, s') o e = cc
