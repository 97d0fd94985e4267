-- ===== src/Net/Pending.antt =====
-- Pieces that are waited for: crates/craftec-net/src/pending.rs. A oneshot channel is a number,
-- given out in order, and what was sent over the channels is the list `delivered`; `closed` says
-- whose receiver was dropped. `now` is what `Instant::now()` gives, in milliseconds.
pub mod Delivery
use craftec.Prelude.{ℕ, ◌+◌, ◌-◌, List, [], ◌∷◌, ◌++◌, Bool, not, ◌&&◌, leb, if◌then◌else◌, length}
use craftec.Prelude.Assoc.{insert, remove}
use craftec.Prelude.Multimap.{get_all, retain, retain_entries}
use craftec.Types.Piece.{CodedPiece}

pub record PendingEntry : Type 0 where
  pub tx : ℕ
  pub registered_at : ℕ

pub record PendingFetches : Type 0 where
  pub waiters : List (ℕ × List PendingEntry)
  pub channels : ℕ
  pub delivered : List (ℕ × CodedPiece)

abbrev pub new : PendingFetches
new = record { waiters = []; channels = 0; delivered = [] }

unfoldable pub register : ℕ → ℕ → PendingFetches → PendingFetches × ℕ
register now cid s = (
  record s {
    waiters =
        insert cid (get_all cid s.waiters ++ record { tx = s.channels; registered_at = now } ∷ [])
          s.waiters;
    channels = s.channels + 1;
  },
  s.channels,
)

-- The loop over the entries: a piece that nobody receives is lost.
unfoldable pub send_all : (ℕ → Bool) → CodedPiece → List PendingEntry → List (ℕ × CodedPiece)
send_all closed piece [] = []
send_all closed piece (e ∷ es) =
    if closed e.tx then send_all closed piece es else (e.tx, piece) ∷ send_all closed piece es

unfoldable pub resolve : (ℕ → Bool) → ℕ → CodedPiece → PendingFetches → PendingFetches
unfolding send_all
resolve closed cid piece s = record s {
  waiters = remove cid s.waiters;
  delivered = s.delivered ++ send_all closed piece (get_all cid s.waiters);
}

unfoldable pub pending_count : PendingFetches → ℕ
pending_count s = length s.waiters

unfoldable pub total : List (ℕ × List PendingEntry) → ℕ
total [] = 0
total ((cid, es) ∷ m) = length es + total m

unfoldable pub total_pending : PendingFetches → ℕ
unfolding total
total_pending s = total s.waiters

unfoldable pub prune_stale : (ℕ → Bool) → ℕ → ℕ → PendingFetches → PendingFetches × ℕ
unfolding total
prune_stale closed now max_age s =
    let kept =
      retain_entries (λ e. not (leb max_age (now - e.registered_at)) && not (closed e.tx))
        s.waiters in
    (record s { waiters = kept }, total s.waiters - total kept)
