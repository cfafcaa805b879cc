-- ===== src/Main/Starting.antt =====
-- The start and the end of the process: `run` of main.go. What the operating system and the drivers
-- answer is given from outside.
use minipush.Base.{
  ℕ, zero, suc, Bool, true, false, Option, none, some, List, [], ◌∷◌, ◌++◌, ltb, if◌then◌else◌, ◌≡◌,
  ◌≢◌, ◌⊎◌, refl, sym, ap, ◌∙◌, subst, arith, inl, inr, Bool-cases,
}
use minipush.Base.Int.{ℤ}
use minipush.Base.Results.{Result, ok, err}
use minipush.Main.{Flags, Platform, validate_flags}
use minipush.Main.PidFile.{Os, PidError, save_pid}
use minipush.Main.Signals.{Signal, no_signal_yet, on_signals}

-- What the process does outside its own memory. A context that is canceled already is canceled again.
pub data Action : Type 0 where
  saves_pid makes_dir opens_db starts_standalone starts_cluster : Action
  sees_stop closes_db : Action
  cancels removes_dir removes_pid : Action
  crashes : Action

-- What becomes of the node: it goes on, it tells that it has stopped once its context is canceled, or one
-- of its goroutines panics, as `Run` does first of all if it cannot listen.
pub data Fate : Type 0 where
  goes_on stops_if_canceled panics : Fate

-- The answers of os.MkdirAll and sql.Open, the signals that the loop gets, and the fate of the node.
pub record World : Type 0 where
  pub platform : Platform
  pub os : Os
  pub pid : ℤ
  pub makes : Bool
  pub opens : Bool
  pub signals : List Signal
  pub fate : Fate

-- The actions in order, and the exit code; `none` as long as the loop over the signals goes on.
pub record Ran : Type 0 where
  pub actions : List Action
  pub code : Option ℕ

-- The process while it runs: what it has done, and the calls that it has deferred, the newest first.
pub record Process : Type 0 where
  pub done : List Action
  pub deferred : List Action

abbrev pub begins : Process
begins = record { done = []; deferred = [] }

abbrev pub acts : Action → Process → Process
acts a p = record p { done = p.done ++ a ∷ [] }

abbrev pub defers : Action → Process → Process
defers a p = record p { deferred = a ∷ p.deferred }

-- `run` returns: what is deferred is done. A panic in another goroutine ends the process without that,
-- with the exit code of the Go runtime.
abbrev pub returns : ℕ → Process → Ran
returns n p = record { actions = p.done ++ p.deferred; code = some n }

abbrev pub crashed : Process → Ran
crashed p = record { actions = p.done ++ crashes ∷ []; code = some 2 }

abbrev pub waits : Process → Ran
waits p = record { actions = p.done; code = none }

-- The goroutine of the first SIGTERM or SIGINT: it cancels the context, waits for the node, closes the
-- database, and closes the channel of the signals, which ends the loop.
unfoldable pub on_stop : Bool → Fate → Process → Ran
on_stop false panics p = crashed p
on_stop true panics p = crashed (acts cancels p)
on_stop true stops_if_canceled p = returns 0 (acts closes_db (acts sees_stop (acts cancels p)))
on_stop true goes_on p = waits (acts cancels p)
on_stop false _ p = waits p

-- From NewStandalone or NewCluster on.
unfoldable pub run_node : (standalone stopping : Bool) → Fate → Process → Ran
unfolding on_stop
run_node standalone stopping fate p =
    on_stop stopping fate
      (acts (if standalone then starts_standalone else starts_cluster) (defers cancels p))

-- The result of `savePid`.
unfoldable pub run_saved : Flags → World → Result Unit PidError → Ran
unfolding run_node
run_saved flags w (err e) = returns 1 begins
run_saved flags w (ok u) =
    let saved : Process = defers removes_pid (acts saves_pid begins) in
    if w.makes
    then (let made : Process = defers removes_dir (acts makes_dir saved) in
        if w.opens
        then run_node flags.standalone (on_signals w.signals no_signal_yet).stopping w.fate
            (acts opens_db made)
        else returns 1 made)
    else returns 1 saved

unfoldable pub run : Flags → World → Ran
unfolding run_saved
run flags w =
    let v = validate_flags w.platform flags in
    if ltb 0 v then returns v begins else run_saved flags w (save_pid w.os flags.pid_file w.pid).0

-- What there is after actions: the pid file, the directory, the open database, and the node.
pub record Left : Type 0 where
  pub pid_file : Bool
  pub dir : Bool
  pub db : Bool
  pub node : Bool

abbrev pub nothing : Left
nothing = record { pid_file = false; dir = false; db = false; node = false }

abbrev pub after : Action → Left → Left
after saves_pid l = record l { pid_file = true }
after makes_dir l = record l { dir = true }
after opens_db l = record l { db = true }
after starts_standalone l = record l { node = true }
after starts_cluster l = record l { node = true }
after sees_stop l = record l { node = false }
after closes_db l = record l { db = false }
after cancels l = l
after removes_dir l = record l { dir = false }
after removes_pid l = record l { pid_file = false }
after crashes l = record l { db = false; node = false }

abbrev pub after_all : List Action → Left → Left
after_all [] l = l
after_all (a ∷ actions) l = after_all actions (after a l)

-- What lets the node start.
abbrev pub IsReady : Flags → World → Type 0
IsReady flags w =
    (validate_flags w.platform flags ≡ 0)
    × ((save_pid w.os flags.pid_file w.pid).0 ≡ ok tt)
    × (w.makes ≡ true)
    × (w.opens ≡ true)

-- How a started process ends: a panic leaves the pid file and the directory; a stop leaves nothing, once
-- a SIGTERM or SIGINT has come and the node has stopped; or there is no end, and all is in use.
abbrev pub Started : Bool → Fate → Ran → Type 0
Started stopping fate r =
    ((fate ≡ panics)
      × (r.code ≡ some 2)
      × (after_all r.actions nothing ≡ record nothing { pid_file = true; dir = true }))
    ⊎ (((fate ≡ stops_if_canceled)
          × (stopping ≡ true)
          × (r.code ≡ some 0)
          × (after_all r.actions nothing ≡ nothing))
        ⊎ ((fate ≢ panics)
            × ((fate ≡ goes_on) ⊎ (stopping ≡ false))
            × (r.code ≡ none)
            × (after_all r.actions nothing
                ≡ record { pid_file = true; dir = true; db = true; node = true })))

-- An end with an error and nothing left, if the node may not start, and otherwise how it ends.
abbrev pub Outcome : Flags → World → Ran → Type 0
Outcome flags w r =
    ((IsReady flags w → ⊥)
      × ((n : ℕ) × (r.code ≡ some (suc n)))
      × (after_all r.actions nothing ≡ nothing))
    ⊎ (IsReady flags w × Started (on_signals w.signals no_signal_yet).stopping w.fate r)

ok_err : {e : PidError} → ◌≡◌ {A = Result Unit PidError} (ok tt) (err e) → ⊥
ok_err e = cc

differs : (b : Bool) → b ≡ false → b ≡ true → ⊥
differs b n y = clash (sym y ∙ n)
  where
    clash : true ≡ false → ⊥
    clash e = cc

abbrev is_panic : Fate → Bool
is_panic panics = true
is_panic _ = false

no_panic : (fate : Fate) → is_panic fate ≡ false → fate ≢ panics
no_panic fate n e = differs (is_panic fate) n (ap is_panic e)

run_node-Started :
    (standalone stopping : Bool) (fate : Fate)
    → Started stopping fate (
        run_node standalone stopping fate (
          acts opens_db
            (defers removes_dir (acts makes_dir (defers removes_pid (acts saves_pid begins))))))
unfolding run_node on_stop
run_node-Started true false panics = inl (refl, refl, refl)
run_node-Started false false panics = inl (refl, refl, refl)
run_node-Started true true panics = inl (refl, refl, refl)
run_node-Started false true panics = inl (refl, refl, refl)
run_node-Started true true stops_if_canceled = inr (inl (refl, refl, refl, refl))
run_node-Started false true stops_if_canceled = inr (inl (refl, refl, refl, refl))
run_node-Started true true goes_on = inr (inr (no_panic goes_on refl, inl refl, refl, refl))
run_node-Started false true goes_on = inr (inr (no_panic goes_on refl, inl refl, refl, refl))
run_node-Started true false goes_on = inr (inr (no_panic goes_on refl, inl refl, refl, refl))
run_node-Started false false goes_on = inr (inr (no_panic goes_on refl, inl refl, refl, refl))
run_node-Started true false stops_if_canceled =
    inr (inr (no_panic stops_if_canceled refl, inr refl, refl, refl))
run_node-Started false false stops_if_canceled =
    inr (inr (no_panic stops_if_canceled refl, inr refl, refl, refl))

failed :
    (flags : Flags) (w : World) (r : Ran) (n : ℕ)
    → (IsReady flags w → ⊥)
    → r.code ≡ some (suc n)
    → after_all r.actions nothing ≡ nothing
    → Outcome flags w r
failed flags w r n refused c l = inl (refused, (n, c), l)

same_as : (flags : Flags) (w : World) (r s : Ran) → r ≡ s → Outcome flags w s → Outcome flags w r
same_as flags w r s e = subst (Outcome flags w) (sym e)

saved_outcome :
    (flags : Flags) (w : World) (r : Result Unit PidError)
    → validate_flags w.platform flags ≡ 0
    → (save_pid w.os flags.pid_file w.pid).0 ≡ r
    → Outcome flags w (run_saved flags w r)
unfolding run_saved
saved_outcome flags w (err e) v p =
    failed flags w (returns 1 begins) 0 (λ ready. ok_err (sym ready.1 ∙ p)) refl refl
saved_outcome flags w (ok u) v p =
    let saved : Process = defers removes_pid (acts saves_pid begins) in
    let made : Process = defers removes_dir (acts makes_dir saved) in
    elim (Bool-cases w.makes) [
      | inr n ↦
          same_as flags w (run_saved flags w (ok u)) (returns 1 saved) (rw (n, run_saved) refl)
            (failed flags w (returns 1 saved) 0 (λ ready. differs w.makes n ready.2) refl refl)
      | inl y ↦ elim (Bool-cases w.opens) [
        | inr n ↦
            same_as flags w (run_saved flags w (ok u)) (returns 1 made) (rw (y, n, run_saved) refl)
              (failed flags w (returns 1 made) 0 (λ ready. differs w.opens n ready.3) refl refl)
        | inl z ↦
            same_as flags w (run_saved flags w (ok u))
              (run_node flags.standalone (on_signals w.signals no_signal_yet).stopping w.fate
                (acts opens_db made))
              (rw (y, z, run_saved) refl)
              (inr (
                (v, p, y, z),
                run_node-Started flags.standalone (on_signals w.signals no_signal_yet).stopping
                    w.fate,
              ))
      ]
    ]

more : (n : ℕ) → ltb 0 n ≡ true → (m : ℕ) × (n ≡ suc m)
more zero e = absurd (differs false refl e)
more (suc n) e = (n, refl)

none_more : (n : ℕ) → ltb 0 n ≡ false → n ≡ 0
none_more n e = ground arith

-- If the flags are not valid, the pid file is not free or cannot be written, or the directory or the
-- database fail, the process ends with an error code, and no pid file, directory or database of its own
-- is left. Otherwise it starts the node. Then it ends with 0 and nothing left if the node stops and a
-- SIGTERM or SIGINT has come; it ends with 2, and leaves the pid file and the directory, if a
-- goroutine of the node panics, as when it cannot listen; and it does not end in all other cases.
pub run-Outcome : (flags : Flags) (w : World) → Outcome flags w (run flags w)
unfolding run
run-Outcome flags w = elim (Bool-cases (ltb 0 (validate_flags w.platform flags))) [
  | inl y ↦
      let (n, e) = more (validate_flags w.platform flags) y in
      same_as flags w (run flags w) (returns (validate_flags w.platform flags) begins)
        (rw (y, run) refl)
        (failed flags w (returns (validate_flags w.platform flags) begins) n
          (λ ready. zero_suc (sym ready.0 ∙ e)) (ap some e) refl)
  | inr m ↦
      same_as flags w (run flags w) (run_saved flags w (save_pid w.os flags.pid_file w.pid).0)
        (rw (m, run) refl)
        (saved_outcome flags w (save_pid w.os flags.pid_file w.pid).0
          (none_more (validate_flags w.platform flags) m) refl)
]
  where
    zero_suc : {n : ℕ} → 0 ≡ suc n → ⊥
    zero_suc e = omega (arith, e)
