-- ===== src/Cluster/Storage/Waiting.antt =====
-- How long `consumeLoop` of cluster/eventstore.go waits before it tries again.
use minipush.Base.{ℕ, ◌*◌, ◌/◌, ◌≤◌, ◌<◌, ◌⊎◌, ◌≡◌, arith}
use minipush.Cluster.Storage.{backoff, backoff_min_interval, backoff_max_interval}

-- A wait: none yet, or at least the least one and less than the greatest.
abbrev pub IsWait : ℕ → Type 0
IsWait d = (d ≡ 0) ⊎ ((backoff_min_interval ≤ d) × (d < backoff_max_interval))

-- After any wait, the next one is at least the least wait and less than the greatest; it is longer
-- than the last one unless one and a half times the last one is the greatest wait or more, and then
-- it is the least wait.
pub backoff_lem :
    (d : ℕ)
    → IsWait d
    → (backoff_min_interval ≤ backoff d)
      × (backoff d < backoff_max_interval)
      × ((d < backoff d)
          ⊎ ((backoff_max_interval ≤ d * 3 / 2) × (backoff d ≡ backoff_min_interval)))
unfolding backoff
backoff_lem d w = ground arith
