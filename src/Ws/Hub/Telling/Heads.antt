-- ===== src/Ws/Hub/Telling/Heads.antt =====
-- A whole message with head sequences, in the loop of `Run` of ws/hub.go.
use mathlib.Core.Option
use minipush.Base.{
  true, String, Option, none, some, List, [], ◌∷◌, if◌then◌else◌, ◌≡◌, ◌⊎◌, refl, sym, ap, subst,
  ◌∙◌, inl, inr, arith, Bool-cases,
}
use minipush.Base.Int.{ℤ}
use minipush.Base.Keys.{◌==◌, int_eq, string_eq}
use minipush.Base.Dict.{get, Distinct}
use minipush.Ws.Handler.{Handler, SessionData}
use minipush.Ws.Hub.{Hub, Handlers, get_by_uid, tell_head_seqs, head_seq_value}
use minipush.Ws.Hub.Kickoff.{among}
use minipush.Ws.Hub.Telling.{
  give, HasRoom, Ready, given, append_each_lem, is_of, among-get_by_uid, get_by_uid-NoDup,
}

-- A handler after the head sequences are told.
abbrev pub tell : Option ℤ → Handler → Handler
tell none v = v
tell (some seq) v = give (head_seq_value seq) v

abbrev pub told : List (ℤ × ℤ) → Handler → Handler
told heads v = tell (get v.session.uid heads) v

-- The heads that are told find room.
abbrev pub HasRooms : List (ℤ × ℤ) → Handlers → Type 0
HasRooms heads hs =
    (k : String) (v : Handler) → get k hs ≡ some v → (get v.session.uid heads ≡ none) ⊎ HasRoom v

abbrev one : ℤ → SessionData → Handler → Handler
one uid x v = if v.session.uid == uid then give x v else v

give_session : (x : SessionData) (v : Handler) → (give x v).session ≡ v.session
give_session x v = elim (Bool-cases v.closing) [ inl y ↦ rw y refl | inr n ↦ rw n refl ]

one_session : (uid : ℤ) (x : SessionData) (v : Handler) → (one uid x v).session ≡ v.session
one_session uid x v = elim (Bool-cases (v.session.uid == uid)) [
  | inl y ↦ rw y (give_session x v)
  | inr n ↦ rw n refl
]

flip : (a b : ℤ) → (a == b) ≡ (b == a)
flip a b = ground (arith, int_eq.same_iff a b, int_eq.same_iff b a)

get_first :
    (uid seq x : ℤ) (rest : List (ℤ × ℤ))
    → get x ((uid, seq) ∷ rest) ≡ (if x == uid then some seq else get x rest)
unfolding get
get_first uid seq x rest = rw (flip uid x) refl

new_at :
    (uid x : ℤ) (rest : List (ℤ × ℤ)) → (x == uid) ≡ true → get uid rest ≡ none → get x rest ≡ none
new_at uid x rest y new = subst (λ i. get i rest ≡ none) (sym ((int_eq.same_iff x uid).0 y)) new

told-one :
    (uid seq : ℤ) (rest : List (ℤ × ℤ)) (v : Handler)
    → get uid rest ≡ none
    → told rest (one uid (head_seq_value seq) v) ≡ told ((uid, seq) ∷ rest) v
told-one uid seq rest v new = elim (Bool-cases (v.session.uid == uid)) [
  | inl y ↦
      let first : get v.session.uid ((uid, seq) ∷ rest) ≡ some seq =
        get_first uid seq v.session.uid rest ∙ rw y refl in
      ap (λ s. tell (get s.uid rest) (one uid (head_seq_value seq) v))
        (one_session uid (head_seq_value seq) v)
      ∙ ap (λ o. tell o (one uid (head_seq_value seq) v)) (new_at uid v.session.uid rest y new)
      ∙ ap (λ b. if b then give (head_seq_value seq) v else v) y
      ∙ sym (ap (λ o. tell o v) first)
  | inr n ↦
      let later : get v.session.uid ((uid, seq) ∷ rest) ≡ get v.session.uid rest =
        get_first uid seq v.session.uid rest ∙ rw n refl in
      ap (λ b. told rest (if b then give (head_seq_value seq) v else v)) n
      ∙ sym (ap (λ o. tell o v) later)
]

given-one :
    (uid : ℤ) (x : SessionData) (v : Handler) (f : Handler → Handler)
    → Option.map f (given x (v.session.uid == uid) (some v)) ≡ some (f (one uid x v))
given-one uid x v f = elim (Bool-cases (v.session.uid == uid)) [
  | inl y ↦ rw y refl
  | inr n ↦ rw n refl
]

id_map :
    (uid : ℤ) (x : SessionData) (v : Handler)
    → Option.map (λ u. u) (given x (v.session.uid == uid) (some v))
      ≡ given x (v.session.uid == uid) (some v)
id_map uid x v = elim (Bool-cases (v.session.uid == uid)) [ inl y ↦ rw y refl | inr n ↦ rw n refl ]

-- One more user is told.
Told-one :
    (uid seq : ℤ) (rest : List (ℤ × ℤ)) (o : Option Handler)
    → get uid rest ≡ none
    → Option.map (told rest) (given (head_seq_value seq) (is_of uid o) o)
      ≡ Option.map (told ((uid, seq) ∷ rest)) o
unfolding is_of
Told-one uid seq rest none new = refl
Told-one uid seq rest (some v) new =
    given-one uid (head_seq_value seq) v (told rest)
    ∙ ap (λ w. some w) (told-one uid seq rest v new)

some_eq {ℓ} : {A : Type ℓ} (a b : A) → some a ≡ some b → a ≡ b
some_eq a b e = cc

none-some {ℓ} : {A : Type ℓ} (a : A) → none ≡ some a → ⊥
none-some a e = cc

abbrev FitsIn : List (ℤ × ℤ) → Handler → Type 0
FitsIn heads v = (get v.session.uid heads ≡ none) ⊎ HasRoom v

FitsIn-rest :
    (uid seq : ℤ) (rest : List (ℤ × ℤ)) (v : Handler)
    → get uid rest ≡ none
    → FitsIn ((uid, seq) ∷ rest) v
    → FitsIn rest (one uid (head_seq_value seq) v)
FitsIn-rest uid seq rest v new r =
    let x = head_seq_value seq in
    let same : get (one uid x v).session.uid rest ≡ get v.session.uid rest =
      ap (λ s. get s.uid rest) (one_session uid x v) in
    elim (Bool-cases (v.session.uid == uid)) [
      | inl y ↦ inl (same ∙ new_at uid v.session.uid rest y new)
      | inr n ↦ elim r [
        | inl out ↦ inl (same ∙ sym (get_first uid seq v.session.uid rest ∙ rw n refl) ∙ out)
        | inr room ↦ inr (rw n room)
      ]
    ]

Fit-one :
    (uid seq : ℤ) (rest : List (ℤ × ℤ)) (o : Option Handler) (v : Handler)
    → get uid rest ≡ none
    → ((w : Handler) → o ≡ some w → FitsIn ((uid, seq) ∷ rest) w)
    → given (head_seq_value seq) (is_of uid o) o ≡ some v
    → FitsIn rest v
unfolding is_of
Fit-one uid seq rest none v new r e = absurd (none-some v e)
Fit-one uid seq rest (some w) v new r e =
    subst (FitsIn rest)
      (some_eq (one uid (head_seq_value seq) w) v (
        sym (given-one uid (head_seq_value seq) w (λ u. u))
        ∙ id_map uid (head_seq_value seq) w
        ∙ e))
      (FitsIn-rest uid seq rest w new (r w refl))

HasRooms-rest :
    (uid seq : ℤ) (rest : List (ℤ × ℤ)) (hs hs' : Handlers)
    → get uid rest ≡ none
    → HasRooms ((uid, seq) ∷ rest) hs
    → ((k : String) → get k hs' ≡ given (head_seq_value seq) (is_of uid (get k hs)) (get k hs))
    → HasRooms rest hs'
HasRooms-rest uid seq rest hs hs' new r g k v e =
    Fit-one uid seq rest (get k hs) v new (λ w p. r k w p) (sym (g k) ∙ e)

is_of-some :
    (uid : ℤ) (o : Option Handler) (v : Handler) → o ≡ some v → is_of uid o ≡ (v.session.uid == uid)
unfolding is_of
is_of-some uid o v e = ap (is_of uid) e

Ready-HasRooms :
    (uid seq : ℤ) (rest : List (ℤ × ℤ)) (hs : Handlers)
    → Distinct hs
    → HasRooms ((uid, seq) ∷ rest) hs
    → Ready (get_by_uid uid hs) hs
Ready-HasRooms uid seq rest hs d r k v e =
    let found : among k (get_by_uid uid hs) ≡ (v.session.uid == uid) =
      among-get_by_uid uid k hs d ∙ is_of-some uid (get k hs) v e in
    elim (Bool-cases (v.session.uid == uid)) [
      | inl y ↦ elim (r k v e) [
        | inl out ↦
            absurd (none-some seq (sym out ∙ get_first uid seq v.session.uid rest ∙ rw y refl))
        | inr room ↦ inr room
      ]
      | inr n ↦ inl (found ∙ n)
    ]

told_nothing : (o : Option Handler) → o ≡ Option.map (told []) o
unfolding get
told_nothing none = refl
told_nothing (some v) = refl

-- When the handlers of the users that are named have room, telling them comes to an end: a handler
-- of a user who is named gets the user's head, if it is not closing, and any other is as before.
pub tell_head_seqs_lem :
    (heads : List (ℤ × ℤ)) (h : Hub)
    → Distinct heads
    → Distinct h.handlers
    → HasRooms heads h.handlers
    → (hs : Handlers) × (tell_head_seqs heads h ≡ some (record h { handlers = hs }))
      × ((k : String) → get k hs ≡ Option.map (told heads) (get k h.handlers))
unfolding tell_head_seqs
tell_head_seqs_lem [] h d dh r = (h.handlers, refl, λ k. told_nothing (get k h.handlers))
tell_head_seqs_lem ((uid, seq) ∷ rest) h (new, d) dh r =
    let (hs, e, g, keeps) =
      append_each_lem (get_by_uid uid h.handlers) (head_seq_value seq) h
        (get_by_uid-NoDup uid h.handlers dh) (Ready-HasRooms uid seq rest h.handlers dh r) in
    let by_uid : (k : String)
        → get k hs ≡ given (head_seq_value seq) (is_of uid (get k h.handlers)) (get k h.handlers) =
      λ k.
        g k
        ∙ ap (λ b. given (head_seq_value seq) b (get k h.handlers))
            (among-get_by_uid uid k h.handlers dh) in
    let (hs', f, all) =
      tell_head_seqs_lem rest (record h { handlers = hs }) d (keeps dh)
        (HasRooms-rest uid seq rest h.handlers hs new r by_uid) in
    (
      hs',
      rw e f,
      λ k.
          all k
          ∙ ap (Option.map (told rest)) (by_uid k)
          ∙ Told-one uid seq rest (get k h.handlers) new,
    )
