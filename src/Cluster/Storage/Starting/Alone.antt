-- ===== src/Cluster/Storage/Starting/Alone.antt =====
-- What is left of the goroutines of the storage when its `run` has returned: cluster/eventstore.go.
use minipush.Base.{ℕ, ◌+◌, Bool, true, false, ◌≡◌, sym, ap, ◌∙◌, arith}
use minipush.Cluster.Storage.Starting.{
  LoopState, unstarted, looping, pushing, RunPhase, ready, telling, stopped, StorageRun, run, Step,
  Steps,
}

-- A goroutine that has begun and has not returned.
abbrev pub runs : LoopState → ℕ
runs looping = 1
runs pushing = 1
runs _ = 0

abbrev pub is_late : LoopState → ℕ
is_late unstarted = 1
is_late _ = 0

abbrev pub running : StorageRun → ℕ
running s = runs s.consume + runs s.send + runs s.delete

abbrev pub late : StorageRun → ℕ
late s = is_late s.consume + is_late s.send + is_late s.delete

abbrev waited : RunPhase → Bool
waited telling = true
waited stopped = true
waited _ = false

-- Past the wait the wait group counts nothing.
abbrev IsQuiet : StorageRun → Type 0
IsQuiet s = waited s.phase ≡ true → s.wg ≡ 0

Step-running : {s t : StorageRun} → Step s t → s.wg ≡ running s → t.wg ≡ running t
Step-running (Step.cancels s) k = k
Step-running (Step.consume_starts s h) k = omega (arith, rw h at k)
Step-running (Step.consume_returns s h c) k = omega (arith, rw h at k)
Step-running (Step.send_starts s h) k = omega (arith, rw h at k)
Step-running (Step.send_pushes s h) k = rw h at k
Step-running (Step.send_pushed s h) k = rw h at k
Step-running (Step.send_returns s h c) k = omega (arith, rw h at k)
Step-running (Step.delete_starts s h) k = omega (arith, rw h at k)
Step-running (Step.delete_returns s h c) k = omega (arith, rw h at k)
Step-running (Step.closes_reader s h c) k = k
Step-running (Step.waits s h w) k = k
Step-running (Step.tells s h) k = k

Step-late : {s t : StorageRun} → Step s t → late s ≡ 0 → late t ≡ 0
Step-late (Step.cancels s) k = k
Step-late (Step.consume_starts s h) k = absurd (omega (arith, rw h at k))
Step-late (Step.consume_returns s h c) k = omega (arith, rw h at k)
Step-late (Step.send_starts s h) k = absurd (omega (arith, rw h at k))
Step-late (Step.send_pushes s h) k = omega (arith, rw h at k)
Step-late (Step.send_pushed s h) k = omega (arith, rw h at k)
Step-late (Step.send_returns s h c) k = omega (arith, rw h at k)
Step-late (Step.delete_starts s h) k = absurd (omega (arith, rw h at k))
Step-late (Step.delete_returns s h c) k = omega (arith, rw h at k)
Step-late (Step.closes_reader s h c) k = k
Step-late (Step.waits s h w) k = k
Step-late (Step.tells s h) k = k

Step-IsQuiet : {s t : StorageRun} → Step s t → late s ≡ 0 → IsQuiet s → IsQuiet t
Step-IsQuiet (Step.cancels s) k q = q
Step-IsQuiet (Step.consume_starts s h) k q = absurd (omega (arith, rw h at k))
Step-IsQuiet (Step.consume_returns s h c) k q = λ e. omega (arith, q e)
Step-IsQuiet (Step.send_starts s h) k q = absurd (omega (arith, rw h at k))
Step-IsQuiet (Step.send_pushes s h) k q = q
Step-IsQuiet (Step.send_pushed s h) k q = q
Step-IsQuiet (Step.send_returns s h c) k q = λ e. omega (arith, q e)
Step-IsQuiet (Step.delete_starts s h) k q = absurd (omega (arith, rw h at k))
Step-IsQuiet (Step.delete_returns s h c) k q = λ e. omega (arith, q e)
Step-IsQuiet (Step.closes_reader s h c) k q = λ e. cc
Step-IsQuiet (Step.waits s h w) k q = λ e. w
Step-IsQuiet (Step.tells s h) k q = λ e. q (ap waited h)

Steps-running : {s t : StorageRun} → Steps s t → s.wg ≡ running s → t.wg ≡ running t
Steps-running (Steps.here s) k = k
Steps-running (Steps.then s t u x r) k = Steps-running r (Step-running x k)

Steps-IsQuiet : {s t : StorageRun} → Steps s t → late s ≡ 0 → IsQuiet s → IsQuiet t
Steps-IsQuiet (Steps.here s) k q = q
Steps-IsQuiet (Steps.then s t u x r) k q = Steps-IsQuiet r (Step-late x k) (Step-IsQuiet x k q)

run-running : (clean_events : Bool) → (run clean_events).wg ≡ running (run clean_events)
unfolding run
run-running true = omega arith
run-running false = omega arith

-- If all goroutines of the storage have begun while its run still waits for the context, then none of
-- them runs when run has returned.
pub run-stopped :
    (clean_events : Bool) (s t : StorageRun)
    → Steps (run clean_events) s
    → late s ≡ 0
    → s.phase ≡ ready
    → Steps s t
    → t.phase ≡ stopped
    → running t ≡ 0
run-stopped clean_events s t r l p x e =
    let counted : t.wg ≡ running t = Steps-running x (Steps-running r (run-running clean_events)) in
    sym counted ∙ Steps-IsQuiet x l (λ w. absurd (not_yet (sym (ap waited p) ∙ w))) (ap waited e)
  where
    not_yet : false ≡ true → ⊥
    not_yet d = cc
