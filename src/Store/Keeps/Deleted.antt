-- ===== src/Store/Keeps/Deleted.antt =====
-- `DeleteChannel` of internal/notification/postgres/channels.go.
use feed_flow.Base.{All, All-both, All-mono, arith, false, not, select, select-passes, ℕ, ◌==◌, ◌≡◌}
use feed_flow.Store.{Result, Session, Tables, channel_not_found, err, ok, return, throw}
use feed_flow.Store.Channels.{delete_channel, owns, remove_channel}
use feed_flow.Store.Invariant.{Inv}
use feed_flow.Store.Keeps.{Keeps}
use feed_flow.Store.Keeps.Channels.{channels-RowOk, removed_live, triple_classified}
use feed_flow.Store.Keeps.Disabled.{Cancelled, Half, Half-of_Inv, cancel_triple}
use feed_flow.Store.Triples.{
  Always, Outcome, Triple, run_triple, triple_bind, triple_exec, triple_if, triple_mono, triple_pre,
  triple_return, triple_throw, triple_transaction,
}

remove-Cancelled :
    (user channel : ℕ) (t : Tables)
    → Cancelled user channel t
    → Cancelled user channel
        (record t { channels = select (λ c. not (owns user channel c)) t.channels })
remove-Cancelled user channel t (v, idle) = (
  record {
    rows =
        All-mono _ _ t.deliveries
          (λ d r.
            channels-RowOk t.channels _ t.inbox t.dispatch d
              (λ w h. removed_live user channel d t.channels (ground arith) h) r.0)
          (All-both _ _ t.deliveries v.rows idle);
    unique_ids = v.unique_ids;
    unique_targets = v.unique_targets;
  },
  idle,
)

-- The channel has no row, and its deliveries are cancelled.
abbrev pub Removed : ℕ → ℕ → Tables → Type 0
Removed user channel t =
    Cancelled user channel t × All (λ c. owns user channel c ≡ false) t.channels

remove-Removed :
    (user channel : ℕ) (t : Tables)
    → Cancelled user channel t
    → Removed user channel
        (record t { channels = select (λ c. not (owns user channel c)) t.channels })
remove-Removed user channel t c = (
  remove-Cancelled user channel t c,
  All-mono _ _ (select (λ x. not (owns user channel x)) t.channels) (λ x h. ground (arith, h))
      (select-passes (λ x. not (owns user channel x)) t.channels),
)

pub delete_channel_triple :
    (user channel : ℕ) → Triple Inv (delete_channel user channel) (λ _. Removed user channel) Inv
unfolding delete_channel remove_channel
delete_channel_triple user channel = triple_classified _ Inv (
    triple_transaction Inv _ _ Inv (λ t v. v) (λ _ t r. r.0.0)
      (triple_bind (λ _. Cancelled user channel)
        (triple_pre (Half user channel) Inv (λ t v. Half-of_Inv user channel t v)
          (cancel_triple user channel))
        (λ _.
          triple_bind (λ _. Removed user channel)
            (triple_exec _ _ _ Always (λ s c. remove-Removed user channel s.tables c) (λ t c. tt))
            (λ n.
              triple_if (n == 1) (Removed user channel) (return tt) (throw channel_not_found) _
                Always (λ e. triple_return _ tt _ Always (λ t c. c))
                (λ e. triple_throw _ channel_not_found _ Always (λ t c. tt))))))

pub delete_channel-Keeps : (user channel : ℕ) → Keeps (delete_channel user channel)
delete_channel-Keeps user channel =
    triple_mono _ (λ _ t. Inv t) Inv Inv (λ _ t h. h.0.0) (λ t v. v)
      (delete_channel_triple user channel)

gone_of_ok :
    (user channel : ℕ) (r : Result (Unit {0}) × Session)
    → Outcome (λ _. Removed user channel) Inv r
    → r.0 ≡ ok tt
    → Removed user channel r.1.tables
gone_of_ok user channel (ok _, s) h e = h
gone_of_ok user channel (err x, s) h e = cc

-- When a channel has been deleted it has no row any more, no delivery to it waits or is to be
-- tried again, and the tables are consistent.
pub deleted-Removed :
    (user channel : ℕ) (s : Session)
    → Inv s.tables
    → (delete_channel user channel s).0 ≡ ok tt
    → Removed user channel (delete_channel user channel s).1.tables
deleted-Removed user channel s v e =
    gone_of_ok user channel _ (run_triple (delete_channel_triple user channel) s v) e
