-- ===== src/Main/PidFile.antt =====
-- The pid file: `savePid` of main.go. The file system and the processes are given from outside.
use minipush.Base.{
  Bool, true, false, String, Option, none, some, List, [], ◌∷◌, if◌then◌else◌, ◌≡◌, ◌⊎◌, ◌↔◌, refl,
  sym, ap, subst, ◌∙◌, inl, inr, Bool-cases,
}
use minipush.Base.Int.{ℤ}
use minipush.Base.Keys.{◌==◌, string_eq, eq_iff}
use minipush.Base.Results.{Result, ok, err}

-- os.Stat: no error, an error for which os.IsNotExist holds, or another one.
pub data Stat : Type 0 where
  exists missing stat_failed : Stat

-- ioutil.ReadFile and strconv.Atoi give `none` for an error; `find_process` and `signal` tell whether
-- os.FindProcess and Signal(0) succeed, `write_file` whether the write does.
pub record Os : Type 0 where
  pub stat : String → Stat
  pub read_file : String → Option String
  pub atoi : String → Option ℤ
  pub find_process : ℤ → Bool
  pub signal : ℤ → Bool
  pub itoa : ℤ → String
  pub write_file : String → String → Bool

pub data PidError : Type 0 where
  stat_error read_error no_number no_process is_running write_error : PidError

-- The result, and the name and text of what was written or tried.
abbrev Saved : Type 0
Saved = Result Unit PidError × List (String × String)

unfoldable pub write_pid : Os → String → ℤ → Saved
write_pid os name pid =
    (if os.write_file name (os.itoa pid) then ok tt else err write_error, (name, os.itoa pid) ∷ [])

-- The file has text: it is to be the id of a process that does not run.
unfoldable pub check_old : Os → String → ℤ → Option ℤ → Saved
unfolding write_pid
check_old os name pid none = (err no_number, [])
check_old os name pid (some old_pid) =
    if os.find_process old_pid
    then (if os.signal old_pid then (err is_running, []) else write_pid os name pid)
    else (err no_process, [])

unfoldable pub check_content : Os → String → ℤ → Option String → Saved
unfolding check_old write_pid
check_content os name pid none = (err read_error, [])
check_content os name pid (some content) =
    if content == "" then write_pid os name pid else check_old os name pid (os.atoi content)

unfoldable pub check_stat : Os → String → ℤ → Stat → Saved
unfolding check_content write_pid
check_stat os name pid exists = check_content os name pid (os.read_file name)
check_stat os name pid missing = write_pid os name pid
check_stat os name pid stat_failed = (err stat_error, [])

unfoldable pub save_pid : Os → String → ℤ → Saved
unfolding check_stat
save_pid os name pid = check_stat os name pid (os.stat name)

-- A text that names no running process.
abbrev pub IsStale : Os → String → Type 0
IsStale os content =
    (content ≡ "")
    ⊎ ((old : ℤ) × (os.atoi content ≡ some old)
        × (os.find_process old ≡ true)
        × (os.signal old ≡ false))

-- There is no file, or one whose text names no running process.
abbrev pub IsFree : Os → String → Type 0
IsFree os name =
    (os.stat name ≡ missing)
    ⊎ ((os.stat name ≡ exists)
        × ((content : String) × (os.read_file name ≡ some content) × IsStale os content))

-- What holds of a result: the name is free and all that was written is the new id, or it is not, and
-- there was an error and nothing was written.
abbrev Fair : Os → String → ℤ → Type 0 → Saved → Type 0
Fair os name pid free r =
    (free
      × (r.1 ≡ (name, os.itoa pid) ∷ [])
      × ((r.0 ≡ ok tt) ↔ (os.write_file name (os.itoa pid) ≡ true)))
    ⊎ ((free → ⊥) × (r.1 ≡ []) × ((e : PidError) × (r.0 ≡ err e)))

written :
    (os : Os) (name : String) (pid : ℤ) (free : Type 0)
    → free
    → Fair os name pid free (write_pid os name pid)
unfolding write_pid
written os name pid free f = elim (Bool-cases (os.write_file name (os.itoa pid))) [
  | inl y ↦ rw y (inl (f, refl, (λ e. refl, λ e. refl)))
  | inr n ↦ rw n (inl (f, refl, (λ e. cc, λ e. cc)))
]

refused :
    (os : Os) (name : String) (pid : ℤ) (free : Type 0) (e : PidError)
    → (free → ⊥)
    → Fair os name pid free (err e, [])
refused os name pid free e h = inr (h, refl, (e, refl))

carried :
    (os : Os) (name : String) (pid : ℤ) (A B : Type 0) (r : Saved)
    → (A → B)
    → (B → A)
    → Fair os name pid A r
    → Fair os name pid B r
carried os name pid A B r f g (inl (a, w, e)) = inl (f a, w, e)
carried os name pid A B r f g (inr (n, w, e)) = inr (λ b. n (g b), w, e)

differs : (b : Bool) → b ≡ true → b ≡ false → ⊥
differs b y n = clash (sym y ∙ n)
  where
    clash : true ≡ false → ⊥
    clash e = cc

module _ (os : Os) (name : String) (pid : ℤ) where
  -- The old process does not run.
  abbrev IsOver : Option ℤ → Type 0
  IsOver r = (old : ℤ) × (r ≡ some old) × (os.find_process old ≡ true) × (os.signal old ≡ false)

  over-none : IsOver none → ⊥
  over-none (old, e, _, _) = cc

  over-some : (old : ℤ) → IsOver (some old) → (os.find_process old ≡ true) × (os.signal old ≡ false)
  over-some old (other, e, f, g) = (ap os.find_process (same e) ∙ f, ap os.signal (same e) ∙ g)
    where
      same : some old ≡ some other → old ≡ other
      same e = cc

  old-Fair : (r : Option ℤ) → Fair os name pid (IsOver r) (check_old os name pid r)
  unfolding check_old
  old-Fair none = refused os name pid _ no_number over-none
  old-Fair (some old) = elim (Bool-cases (os.find_process old)) [
    | inr n ↦ rw n (refused os name pid _ no_process (λ o. differs _ (over-some old o).0 n))
    | inl y ↦ rw y (elim (Bool-cases (os.signal old)) [
      | inl z ↦ rw z (refused os name pid _ is_running (λ o. differs _ z (over-some old o).1))
      | inr m ↦ rw m (written os name pid _ (old, refl, y, m))
    ])
  ]

  abbrev IsRead : Option String → Type 0
  IsRead r = (content : String) × (r ≡ some content) × IsStale os content

  not_read : IsRead none → ⊥
  not_read (content, e, _) = cc

  read-IsStale : (content : String) → IsRead (some content) → IsStale os content
  read-IsStale content (other, e, s) = subst (IsStale os) (sym (same e)) s
    where
      same : some content ≡ some other → content ≡ other
      same e = cc

  not_empty-IsOver :
      (content : String) → (content == "") ≡ false → IsStale os content → IsOver (os.atoi content)
  not_empty-IsOver content n (inl e) = absurd (differs _ ((eq_iff content "").1 e) n)
  not_empty-IsOver content n (inr o) = o

  content-Fair : (r : Option String) → Fair os name pid (IsRead r) (check_content os name pid r)
  unfolding check_content
  content-Fair none = refused os name pid _ read_error not_read
  content-Fair (some content) = elim (Bool-cases (content == "")) [
    | inl y ↦ rw y (written os name pid _ (content, refl, inl ((eq_iff content "").0 y)))
    | inr n ↦ rw n (
        carried os name pid (IsOver (os.atoi content)) _ _ (λ o. (content, refl, inr o))
          (λ r. not_empty-IsOver content n (read-IsStale content r)) (old-Fair (os.atoi content)))
  ]

  abbrev Free : Stat → Type 0
  Free r = (r ≡ missing) ⊎ ((r ≡ exists) × IsRead (os.read_file name))

  stat-Fair : (r : Stat) → Fair os name pid (Free r) (check_stat os name pid r)
  unfolding check_stat
  stat-Fair exists =
      carried os name pid (IsRead (os.read_file name)) _ _ (λ o. inr (refl, o)) there
        (content-Fair (os.read_file name))
    where
      there : Free exists → IsRead (os.read_file name)
      there (inl e) = cc
      there (inr (e, o)) = o
  stat-Fair missing = written os name pid _ (inl refl)
  stat-Fair stat_failed = refused os name pid _ stat_error unknown
    where
      unknown : Free stat_failed → ⊥
      unknown (inl e) = cc
      unknown (inr (e, o)) = cc

  -- If there is no pid file, or one whose text is empty or names no running process, then saving writes
  -- the new id once, and succeeds exactly if that write does. Otherwise it writes nothing and gives an
  -- error.
  pub save_pid_lem :
      (IsFree os name
        × ((save_pid os name pid).1 ≡ (name, os.itoa pid) ∷ [])
        × (((save_pid os name pid).0 ≡ ok tt) ↔ (os.write_file name (os.itoa pid) ≡ true)))
      ⊎ ((IsFree os name → ⊥)
          × ((save_pid os name pid).1 ≡ [])
          × ((e : PidError) × ((save_pid os name pid).0 ≡ err e)))
  unfolding save_pid
  save_pid_lem = stat-Fair (os.stat name)
