-- ===== src/Net/Pending/Delivery.antt =====
-- Who gets a piece: crates/craftec-net/src/pending.rs.
use craftec.Prelude.{ℕ, ◌+◌, ◌≤◌, List, [], ◌∷◌, Bool, leb, ◌==◌, if◌then◌else◌, length}
use craftec.Prelude.Assoc.{Distinct}
use craftec.Net.Pending
use craftec.Net.Pending.{PendingEntry, PendingFetches, register, resolve, prune_stale}
use craftec.Types.Piece.{CodedPiece}

-- How often the channel stands among the entries, in the table, and among what was sent.
abbrev pub one_if : Bool → ℕ
one_if b = if b then 1 else 0

unfoldable pub listed : ℕ → List PendingEntry → ℕ
listed n [] = 0
listed n (e ∷ es) = one_if (e.tx == n) + listed n es

unfoldable pub waiting : ℕ → List (ℕ × List PendingEntry) → ℕ
waiting n [] = 0
waiting n ((cid, es) ∷ m) = listed n es + waiting n m

-- The pieces that were sent over the channel.
unfoldable pub deliveries : ℕ → List (ℕ × CodedPiece) → List CodedPiece
deliveries n [] = []
deliveries n ((j, piece) ∷ sent) = if j == n then piece ∷ deliveries n sent else deliveries n sent

abbrev pub got : ℕ → List (ℕ × CodedPiece) → ℕ
got n sent = length (deliveries n sent)

-- A call of one of the operations that write.
pub data Step (s : PendingFetches) : PendingFetches → Type 0 where
  registers : (now cid : ℕ) → Step s (register now cid s).0
  resolves :
      (closed : ℕ → Bool) (cid : ℕ) (piece : CodedPiece) → Step s (resolve closed cid piece s)
  prunes : (closed : ℕ → Bool) (now max_age : ℕ) → Step s (prune_stale closed now max_age s).0

pub data Reachable : PendingFetches → Type 0 where
  start : Reachable Pending.new
  step : (s t : PendingFetches) → Reachable s → Step s t → Reachable t

abbrev pub held : ℕ → PendingFetches → ℕ
held n s = waiting n s.waiters + got n s.delivered

pub record IsValid (s : PendingFetches) : Type 0 where
  pub distinct : Distinct s.waiters
  pub held_once : (n : ℕ) → held n s ≤ one_if (leb (n + 1) s.channels)

-- What a call does to the entries of another content, or to those of its own.
abbrev pub changed : ℕ → ℕ → List PendingEntry → List PendingEntry → List PendingEntry
changed cid j new old = if cid == j then new else old
