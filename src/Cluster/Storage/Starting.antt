-- ===== src/Cluster/Storage/Starting.antt =====
-- `run` of the storage in cluster/eventstore.go: the goroutines that it starts, their wait group, and
-- its stop. Whoever receives from the channels of the storage may do so at any time.
pub mod Alone
use minipush.Base.{ℕ, suc, ◌-◌, Bool, true, false, if◌then◌else◌, ◌≡◌}

-- A goroutine is not started at all, has not begun yet, waits in its loop (or works, and comes back to
-- it), sends a message to the hubs, or has returned.
pub data LoopState : Type 0 where
  off unstarted looping pushing returned : LoopState

-- `run` waits for the context, has closed the reader and waits for the wait group, tells that it has
-- stopped, or has returned.
pub data RunPhase : Type 0 where
  ready stopping telling stopped : RunPhase

pub record StorageRun : Type 0 where
  pub phase : RunPhase
  pub consume : LoopState
  pub send : LoopState
  pub delete : LoopState
  pub wg : ℕ
  pub canceled : Bool

unfoldable pub run : Bool → StorageRun
run clean_events = record {
  phase = ready;
  consume = unstarted;
  send = unstarted;
  delete = if clean_events then unstarted else off;
  wg = 0;
  canceled = false;
}

pub data Step : StorageRun → StorageRun → Type 0 where
  cancels : (s : StorageRun) → Step s (record s { canceled = true })
  consume_starts :
      (s : StorageRun)
      → s.consume ≡ unstarted
      → Step s (record s { consume = looping; wg = suc s.wg })
  consume_returns :
      (s : StorageRun)
      → s.consume ≡ looping
      → s.canceled ≡ true
      → Step s (record s { consume = returned; wg = s.wg - 1 })
  send_starts :
      (s : StorageRun) → s.send ≡ unstarted → Step s (record s { send = looping; wg = suc s.wg })
  send_pushes : (s : StorageRun) → s.send ≡ looping → Step s (record s { send = pushing })
  send_pushed : (s : StorageRun) → s.send ≡ pushing → Step s (record s { send = looping })
  send_returns :
      (s : StorageRun)
      → s.send ≡ looping
      → s.canceled ≡ true
      → Step s (record s { send = returned; wg = s.wg - 1 })
  delete_starts :
      (s : StorageRun)
      → s.delete ≡ unstarted
      → Step s (record s { delete = looping; wg = suc s.wg })
  delete_returns :
      (s : StorageRun)
      → s.delete ≡ looping
      → s.canceled ≡ true
      → Step s (record s { delete = returned; wg = s.wg - 1 })
  closes_reader :
      (s : StorageRun)
      → s.phase ≡ ready
      → s.canceled ≡ true
      → Step s (record s { phase = stopping })
  waits : (s : StorageRun) → s.phase ≡ stopping → s.wg ≡ 0 → Step s (record s { phase = telling })
  tells : (s : StorageRun) → s.phase ≡ telling → Step s (record s { phase = stopped })

pub data Steps : StorageRun → StorageRun → Type 0 where
  here : (s : StorageRun) → Steps s s
  then : (s t u : StorageRun) → Step s t → Steps t u → Steps s u
