-- ===== src/Relay/Delivery.antt =====
-- What a round of internal/notification/relay/relay.go has done when it ends.
use feed_flow.Base.{Bool, List, Option, String, [], inr, some, true, update, ℕ, ◌∷◌, ◌≡◌, ◌≢◌}
use feed_flow.Base.Int.{ℤ}
use feed_flow.Contract.{Codec}
use feed_flow.Relay.{OutboxRow, Record, Round, Source, next_row, published_row, record_of, row_id}

-- The instants of publication of the rows.
abbrev pub published_times : List OutboxRow → List (Option ℕ)
published_times [] = []
published_times (r ∷ rs) = r.published_at ∷ published_times rs

module _ (codec : Codec) (int_string : ℤ → String) (publish : Record → Bool) (source : Source)
    (db_now : ℕ) (locked : ℕ → Bool) where
  -- What a round reports, and what it has done then.
  pub data IsAccounted (rows : List OutboxRow) : Round → Type 0 where
    not_published :
        (round : Round)
        → round.outcome ≢ inr true
        → published_times round.rows ≡ published_times rows
        → IsAccounted rows round
    now_published :
        (round : Round) (r : OutboxRow)
        → round.outcome ≡ inr true
        → next_row source db_now locked rows ≡ some r
        → publish (record_of codec int_string r) ≡ true
        → round.offered ≡ some (record_of codec int_string r)
        → round.rows ≡ update (row_id r.id) (published_row source db_now) rows
        → IsAccounted rows round
