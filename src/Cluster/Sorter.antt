-- ===== src/Cluster/Sorter.antt =====
-- sort.Slice of Go's library with the order on CreateTime, as cluster/sessionstore.go and
-- cluster/standalone.go use it. It is not stable: how equal times come out is left open.
use mathlib.Core.List.{Permᴰ}
use minipush.Base.{List, [], ◌∷◌, All}
use minipush.Base.Int.{◌≤ℤ◌}
use minipush.Proto.{Session}

-- Each session was created no later than those behind it.
abbrev pub IsSorted : List Session → Type 0
IsSorted [] = Unit
IsSorted (s ∷ ss) = All (λ t. s.create_time ≤ℤ t.create_time) ss × IsSorted ss

pub record Sorter : Type 0 where
  pub slice : List Session → List Session
  pub slice-perm : (sessions : List Session) → Permᴰ (slice sessions) sessions
  pub slice-IsSorted : (sessions : List Session) → IsSorted (slice sessions)
