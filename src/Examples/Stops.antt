-- ===== src/Examples/Stops.antt =====
-- The theorems on the start and the stop of the process at concrete inputs.
use minipush.Base.{true, false, none, [], ◌∷◌, ◌≡◌, ◌≢◌, refl}
use minipush.Base.Int.{pos}
use minipush.Base.Keys.{string_eq}
use minipush.Cluster.Standalone.Running.{
  receiving, kicking, awaiting_storage, stopped, waiting, pushing, telling, leaving, closed,
  Running, start_running, Step, Steps,
}
use minipush.Cluster.Standalone.Running.Stuck.{is_stuck, blocked, never_stops}
use minipush.Cluster.Standalone.Running.Stopping.{can_stop}
use minipush.Main.PidFile.{missing}
use minipush.Main.Signals.{sigusr1, sigint}
use minipush.Main.Starting.{stops_if_canceled, World, Outcome, run, run-Outcome}
use minipush.Examples.Start.{local, follower}

-- No signal to stop: the node sends a kickoff while the hub tells the handler "a", whose lock is held
-- by its close, which waits for the node.
abbrev jam : Running
jam = record {
  loop = kicking;
  ticker = waiting;
  hub = telling ("a" ∷ []);
  handlers = [];
  deleting = [];
  sending = "a" ∷ [];
  canceled = false;
}

one_step : {s t u : Running} → Step s t → Steps t u → Steps s u
one_step x r = Steps.then _ _ _ x r

jam_reached : Steps (start_running ("a" ∷ [])) jam
jam_reached = one_step (Step.ticks _ refl) (
    one_step (Step.pushes ("a" ∷ []) _ refl refl) (
      one_step (Step.closes "a" _ (refl, refl) refl)
        (one_step (Step.deletes "a" _ refl refl) (one_step (Step.kicks _ refl) (Steps.here _)))))

never_stops_example : (is_stuck (record jam { canceled = true }) ≡ true) × (jam.loop ≢ stopped)
unfolding blocked
never_stops_example =
    never_stops jam (record jam { canceled = true }) refl
      (one_step (Step.cancels jam) (Steps.here _))

-- The context is canceled, and the hub has left while `check` sends.
abbrev lost : Running
lost = record {
  loop = awaiting_storage;
  ticker = pushing;
  hub = closed;
  handlers = [];
  deleting = [];
  sending = [];
  canceled = true;
}

lost_reached : Steps (start_running []) lost × (is_stuck lost ≡ true)
unfolding blocked
lost_reached = (
  one_step (Step.cancels _) (
      one_step (Step.ticks _ refl) (
        one_step (Step.leaves_loop _ refl refl) (
          one_step (Step.leaves_hub _ refl refl)
            (one_step (Step.closes_all _ refl) (Steps.here _))))),
  refl,
)

-- The hub closes the handlers under the lock of the store, for which the close of "a" waits with the
-- lock of the handler.
abbrev crossed : Running
crossed = record {
  loop = receiving;
  ticker = waiting;
  hub = leaving ("a" ∷ []);
  handlers = "a" ∷ [];
  deleting = "a" ∷ [];
  sending = [];
  canceled = true;
}

crossed_reached : Steps (start_running ("a" ∷ [])) crossed × (is_stuck crossed ≡ true)
unfolding blocked
crossed_reached = (
  one_step (Step.cancels _) (
      one_step (Step.closes "a" _ (refl, refl) refl)
        (one_step (Step.leaves_hub _ refl refl) (Steps.here _))),
  refl,
)

-- A handler is being closed, and `check` sends.
abbrev busy : Running
busy = record {
  loop = receiving;
  ticker = pushing;
  hub = telling ("a" ∷ "b" ∷ []);
  handlers = "a" ∷ "b" ∷ [];
  deleting = "b" ∷ [];
  sending = [];
  canceled = true;
}

can_stop_example : (t : Running) × Steps busy t × (t.loop ≡ stopped)
can_stop_example = can_stop busy refl refl refl (λ e. cc)

-- A new pid file, and a SIGINT after a SIGUSR1.
abbrev world : World
world = record {
  platform = local;
  os = record {
    stat = λ name. missing;
    read_file = λ name. none;
    atoi = λ s. none;
    find_process = λ pid. false;
    signal = λ pid. false;
    itoa = λ pid. "17";
    write_file = λ name s. true;
  };
  pid = pos 17;
  makes = true;
  opens = true;
  signals = sigusr1 ∷ sigint ∷ [];
  fate = stops_if_canceled;
}

run-Outcome_example : Outcome follower world (run follower world)
run-Outcome_example = run-Outcome follower world
