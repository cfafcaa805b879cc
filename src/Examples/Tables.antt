-- ===== src/Examples/Tables.antt =====
-- The theorem on saving at a database that is three tables.
use minipush.Base.{
  ◌+◌, ◌<◌, ◌^◌, ℕ, Option, false, sym, String, some, none, List, [], ◌∷◌, ◌++◌, ◌≡◌, refl, ap,
  subst, inl, inr, arith, suc, Bool-cases, Option-cases, if◌then◌else◌,
}
use minipush.Base.Int.{ℤ, pos, ◌+ℤ◌, wrap32}
use minipush.Base.Keys.{int_eq, ◌==◌}
use minipush.Base.Dict.{get, put, has, get-put}
use mathlib.Core.Option
use minipush.Base.Results.{Result, ok, err}
use minipush.Store.Events.{SavedEvent, Fault, dup_key, Run, Database, save, save_in}
use minipush.Store.Events.Sequences.{IsLawful, head_of, raised_row}
use minipush.Store.Events.Atomic.{IsAtomic, save-IsAtomic}
use minipush.Store.Events.Recipients.{Advance}
use minipush.Store.Events.Saving.{save_gives}
use minipush.Cluster.Storage.{Cache, new_cache}
use minipush.Cluster.Storage.Growing.{save_and_put, Reach, no_panic}

pub record Tables : Type 0 where
  pub events : List (ℤ × (ℤ × String))
  pub seqs : List (ℤ × ℕ)
  pub user_events : List (ℤ × ℤ)

abbrev insert_event : SavedEvent → Run Tables Unit
insert_event e t =
    if has e.offset t.events
    then (err dup_key, t)
    else (ok tt, record t { events = put e.offset (e.create_time, e.payload) t.events })

abbrev get_event : ℤ → Run Tables (ℤ × String)
get_event offset t = elim (get offset t.events) [
  | none ↦ (err Fault.other, t)
  | some row ↦ (ok row, t)
]

abbrev lock_seq : ℤ → Run Tables (Option ℤ)
lock_seq uid t = (ok (Option.map pos (get uid t.seqs)), t)

abbrev insert_seq : ℤ → Run Tables Unit
insert_seq uid t =
    if has uid t.seqs then (err dup_key, t) else (ok tt, record t { seqs = put uid 1 t.seqs })

abbrev raise : ℤ → ℤ → Option ℕ → Run Tables Unit
raise uid seq none t = (ok tt, t)
raise uid seq (some n) t =
    (ok tt, if pos n == seq then record t { seqs = put uid (suc n) t.seqs } else t)

abbrev inc_seq : ℤ → ℤ → Run Tables Unit
inc_seq uid seq t = raise uid seq (get uid t.seqs) t

abbrev pub tables : Database Tables
tables = record {
  begin = λ t. none;
  commit = λ t. none;
  rollback = λ start t. start;
  abandon = λ start t. start;
  insert_event = insert_event;
  get_event = get_event;
  prepare = λ t. (ok tt, t);
  lock_seq = lock_seq;
  insert_seq = insert_seq;
  inc_seq = inc_seq;
  insert_user_event =
      λ uid seq e t. (ok tt, record t { user_events = t.user_events ++ (uid, seq) ∷ [] });
}

abbrev pub event : SavedEvent
event = record { offset = pos 5; create_time = pos 1000; to = pos 7 ∷ pos 8 ∷ []; payload = "{}" }

abbrev pub old : Tables
old = record { events = []; seqs = (pos 7, 3) ∷ []; user_events = [] }

-- The user that is known gets the next sequence, the new user the first one.
seqs_given : (save tables event old).0 ≡ ok ((pos 7, pos 4) ∷ (pos 8, pos 1) ∷ [])
unfolding save has put ◌+ℤ◌ wrap32
seqs_given = refl

-- A second save of the event gives no sequences and no error.
saved_again : (save tables event (save tables event old).1).0 ≡ ok []
unfolding save has put ◌+ℤ◌ wrap32
saved_again = refl

save-IsAtomic_example : IsAtomic tables old (save_in tables event old) (save tables event old)
save-IsAtomic_example = save-IsAtomic tables event old (λ a b. refl) (λ a b. refl)

insert_event_seqs : (e : SavedEvent) (t : Tables) → (insert_event e t).1.seqs ≡ t.seqs
insert_event_seqs e t = elim (Bool-cases (has e.offset t.events)) [
  | inl y ↦ rw y refl
  | inr n ↦ rw n refl
]

get_event_seqs : (offset : ℤ) (t : Tables) → (get_event offset t).1.seqs ≡ t.seqs
get_event_seqs offset t = elim (Option-cases (get offset t.events)) [
  | inl n ↦ rw (n, get_event) refl
  | inr (v, e) ↦ rw (e, get_event) refl
]

ok_inj : {A : Type 0} {a b : A} → ◌≡◌ {A = Result A Fault} (ok a) (ok b) → a ≡ b
ok_inj e = cc

new_row : (uid : ℤ) (t : Tables) → (insert_seq uid t).0 ≡ ok tt → get uid t.seqs ≡ none
unfolding has
new_row uid t h = elim (Option-cases (get uid t.seqs)) [
  | inl n ↦ n
  | inr (v, e) ↦ absurd (no (rw (e, has) at h))
]
  where
    no : ◌≡◌ {A = Result Unit Fault} (err dup_key) (ok tt) → ⊥
    no e = cc

has-false : (uid : ℤ) (m : List (ℤ × ℕ)) → get uid m ≡ none → has uid m ≡ false
unfolding has
has-false uid m e = rw (e, has) refl

inserted_seq :
    (uid x : ℤ) (t : Tables)
    → (insert_seq uid t).0 ≡ ok tt
    → get x (insert_seq uid t).1.seqs ≡ (if uid == x then some 1 else get x t.seqs)
inserted_seq uid x t h =
    rw (has-false uid t.seqs (new_row uid t h), insert_seq) (get-put uid x 1 t.seqs)

refused_seq :
    (uid x : ℤ) (f : Fault) (t : Tables)
    → (insert_seq uid t).0 ≡ err f
    → get x (insert_seq uid t).1.seqs ≡ get x t.seqs
refused_seq uid x f t h = elim (Bool-cases (has uid t.seqs)) [
  | inl y ↦ rw y refl
  | inr n ↦ absurd (no (rw n at h))
]
  where
    no : ◌≡◌ {A = Result Unit Fault} (ok tt) (err f) → ⊥
    no e = cc

raise-at :
    (uid seq x : ℤ) (r : Option ℕ) (t : Tables)
    → get uid t.seqs ≡ r
    → get x (raise uid seq r t).1.seqs
      ≡ (if uid == x then raised_row seq (get x t.seqs) else get x t.seqs)
raise-at uid seq x none t e = elim (Bool-cases (uid == x)) [
  | inl y ↦
      let at_x : get x t.seqs ≡ none =
        subst (λ i. get i t.seqs ≡ none) ((int_eq.same_iff uid x).0 y) e in
      rw (y, at_x) refl
  | inr m ↦ rw m refl
]
raise-at uid seq x (some n) t e = elim (Bool-cases (uid == x)) [
  | inl y ↦
      let at_x : get x t.seqs ≡ some n =
        subst (λ i. get i t.seqs ≡ some n) ((int_eq.same_iff uid x).0 y) e in
      elim (Bool-cases (pos n == seq)) [
        | inl z ↦ rw (y, at_x, z, get-put uid x (suc n) t.seqs, y) refl
        | inr z ↦ rw (y, at_x, z) at_x
      ]
  | inr m ↦ elim (Bool-cases (pos n == seq)) [
    | inl z ↦ rw (m, z, get-put uid x (suc n) t.seqs, m) refl
    | inr z ↦ rw (m, z) refl
  ]
]

pub lawful : IsLawful tables
lawful = record {
  row = λ uid t. get uid t.seqs;
  rollback = λ start t. refl;
  abandon = λ start t. refl;
  insert_event = λ e x t. ap (get x) (insert_event_seqs e t);
  get_event = λ offset x t. ap (get x) (get_event_seqs offset t);
  prepare = λ x t. refl;
  insert_user_event = λ uid seq e x t. refl;
  lock_seq = λ uid x t. refl;
  lock_seq_row = λ uid r t h. sym (ok_inj h);
  insert_seq_new = new_row;
  insert_seq = inserted_seq;
  insert_seq_err = refused_seq;
  inc_seq = λ uid seq x t h. raise-at uid seq x (get uid t.seqs) t refl;
}

pub lawful_row : (uid : ℤ) (t : Tables) → lawful.row uid t ≡ get uid t.seqs
unfolding lawful
lawful_row uid t = refl

pub old-Fits : (x : ℤ) → head_of lawful x old + 2 < 2 ^ 31
unfolding get lawful
old-Fits x = elim (Bool-cases (pos 7 == x)) [
  | inl y ↦ rw y (omega arith)
  | inr n ↦ rw n (omega arith)
]

abbrev pub gives : List (ℤ × ℤ)
gives = (pos 7, pos 4) ∷ (pos 8, pos 1) ∷ []

abbrev pub after : Tables
after = record {
  events = (pos 5, (pos 1000, "{}")) ∷ [];
  seqs = (pos 7, 4) ∷ (pos 8, 1) ∷ [];
  user_events = (pos 7, pos 4) ∷ (pos 8, pos 1) ∷ [];
}

pub saved : save tables event old ≡ (ok gives, after)
unfolding save has put ◌+ℤ◌ wrap32
saved = refl

-- User 8 had no row, and gets the first sequence.
save_gives_example :
    Advance (get (pos 8) gives) (head_of lawful (pos 8) old) (head_of lawful (pos 8) after)
save_gives_example = save_gives tables lawful event gives old after old-Fits saved (pos 8)

-- The first save of a new cache.
no_panic_example :
    (d' : Tables) × (c' : Cache) × (save_and_put tables event 60000 old new_cache ≡ some (d', c'))
no_panic_example = no_panic tables lawful event 60000 old new_cache (Reach.start old) old-Fits
