-- ===== src/Examples/Ending.antt =====
-- The theorems on the end of a follower's client at concrete inputs.
use minipush.Base.{ℕ, suc, ◌<◌, true, ◌≡◌, refl, arith}
use minipush.Cluster.Client.{handing, running, gone, Client, started, Step, Steps}
use minipush.Cluster.Client.Ending.{never_ends}

-- Eight messages are in the channel, the ninth waits, and the hub has left.
abbrev full : Client
full = record started { phase = handing; buffered = 8; hub = gone; canceled = true }

abbrev holding : ℕ → Client
holding n = record started { buffered = n }

one_more : (n : ℕ) → n < 8 → Steps (holding (suc n)) full → Steps (holding n) full
one_more n l r =
    Steps.then _ _ _ (Step.arrives (holding n) refl)
      (Steps.then _ _ _ (Step.hands (record started { phase = handing; buffered = n }) refl l) r)

full_reached : Steps started full
full_reached = one_more 0 (omega arith) (
    one_more 1 (omega arith) (
      one_more 2 (omega arith) (
        one_more 3 (omega arith) (
          one_more 4 (omega arith) (
            one_more 5 (omega arith) (one_more 6 (omega arith) (one_more 7 (omega arith) last)))))))
  where
    last : Steps (holding 8) full
    last = Steps.then _ _ _ (Step.arrives (holding 8) refl) (
        Steps.then _ _ _ (Step.cancels _) (
          Steps.then _ _ _ (Step.hub_stops _ refl refl)
            (Steps.then _ _ _ (Step.hub_leaves _ refl refl) (Steps.here _))))

never_ends_example : (record full { sender = running; wg = 2 }).phase ≡ handing
never_ends_example =
    never_ends full (record full { sender = running; wg = 2 }) refl refl refl
      (Steps.then _ _ _ (Step.sender_starts full refl) (Steps.here _))
