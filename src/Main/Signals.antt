-- ===== src/Main/Signals.antt =====
-- The loop of main.go over the signals of the process.
use minipush.Base.{ℕ, suc, Bool, true, false, not, List, [], ◌∷◌, if◌then◌else◌, ◌≡◌, refl}

pub data Signal : Type 0 where
  sigusr1 sigusr2 sigterm sigint : Signal

-- `prof` tells whether a profiler runs, `dumps` counts the dumps of the goroutines, and `stops` the
-- goroutines that cancel the context, wait for the node to stop, and close the channel of signals.
pub record Main : Type 0 where
  pub prof : Bool
  pub stopping : Bool
  pub dumps : ℕ
  pub stops : ℕ

abbrev pub no_signal_yet : Main
no_signal_yet = record { prof = false; stopping = false; dumps = 0; stops = 0 }

abbrev stop : Main → Main
stop m = if m.stopping then m else record m { stopping = true; stops = suc m.stops }

unfoldable pub on_signal : Signal → Main → Main
on_signal sigusr1 m = if m.prof then record m { dumps = suc m.dumps } else m
on_signal sigusr2 m = record m { prof = not m.prof }
on_signal sigterm m = stop m
on_signal sigint m = stop m

unfoldable pub on_signals : List Signal → Main → Main
unfolding on_signal
on_signals [] m = m
on_signals (sig ∷ sigs) m = on_signals sigs (on_signal sig m)

stops_once :
    on_signals (sigusr2 ∷ sigint ∷ sigusr1 ∷ sigterm ∷ []) no_signal_yet
    ≡ record { prof = true; stopping = true; dumps = 1; stops = 1 }
unfolding on_signals
stops_once = refl
