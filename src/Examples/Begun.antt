-- ===== src/Examples/Begun.antt =====
-- The theorem on the stop of the storage at a concrete run, and a run in which a loop begins late.
use minipush.Base.{true, false, ◌≡◌, refl}
use minipush.Cluster.Storage.Starting.{
  looping, returned, ready, stopped, StorageRun, run, Step, Steps,
}
use minipush.Cluster.Storage.Starting.Alone.{running, run-stopped}

one_step : {s t u : StorageRun} → Step s t → Steps t u → Steps s u
one_step x r = Steps.then _ _ _ x r

-- All loops have begun.
abbrev begun : StorageRun
begun = record {
  phase = ready;
  consume = looping;
  send = looping;
  delete = looping;
  wg = 3;
  canceled = false;
}

begun_reached : Steps (run true) begun
unfolding run
begun_reached =
    one_step (Step.consume_starts _ refl)
      (one_step (Step.send_starts _ refl) (one_step (Step.delete_starts _ refl) (Steps.here _)))

-- Canceled, and all loops have returned.
abbrev gone : StorageRun
gone = record {
  phase = stopped;
  consume = returned;
  send = returned;
  delete = returned;
  wg = 0;
  canceled = true;
}

gone_reached : Steps begun gone
gone_reached = one_step (Step.send_pushes _ refl) (
    one_step (Step.cancels _) (
      one_step (Step.closes_reader _ refl refl) (
        one_step (Step.consume_returns _ refl refl) (
          one_step (Step.send_pushed _ refl) (
            one_step (Step.send_returns _ refl refl) (
              one_step (Step.delete_returns _ refl refl) (
                one_step (Step.waits _ refl refl)
                  (one_step (Step.tells _ refl) (Steps.here _)))))))))

run-stopped_example : running gone ≡ 0
run-stopped_example = run-stopped true begun gone begun_reached refl refl gone_reached refl

-- The consumer begins when run has already returned.
late_start : (s : StorageRun) × Steps (run true) s × (s.phase ≡ stopped) × (s.consume ≡ looping)
unfolding run
late_start = (
  _,
  one_step (Step.cancels _) (
      one_step (Step.closes_reader _ refl refl) (
        one_step (Step.waits _ refl refl)
          (one_step (Step.tells _ refl) (one_step (Step.consume_starts _ refl) (Steps.here _))))),
  refl,
  refl,
)
