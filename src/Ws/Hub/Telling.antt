-- ===== src/Ws/Hub/Telling.antt =====
-- The head sequences of a message of the leader, in the loop of `Run` of ws/hub.go: what the
-- handlers of a hub are given.
pub mod Heads
use mathlib.Core.Option
use minipush.Base.{
  ℕ, ◌<◌, Bool, true, false, ◌||◌, ◌&&◌, String, Option, none, some, List, [], ◌∷◌, ◌++◌, length,
  ltb, if◌then◌else◌, ◌≡◌, ◌⊎◌, refl, sym, ap, subst, ◌∙◌, inl, inr, arith, Bool-cases,
  Option-cases,
}
use minipush.Base.Int.{ℤ}
use minipush.Base.Keys.{◌==◌, int_eq, string_eq, eq_iff}
use minipush.Base.Options.{◌>>=◌}
use minipush.Base.Dict.{get, put, get-put, Distinct, put-Distinct}
use minipush.Ws.Handler.{Handler, SessionData, append_data_chan, data_chan_cap}
use minipush.Ws.Hub.{
  Hub, Handlers, get_by_uid, append_to, append_each, tell_head_seqs, head_seq_value,
}
use minipush.Ws.Hub.Kickoff.{among}

-- An append that does not block: a handler that is closing takes nothing.
abbrev pub give : SessionData → Handler → Handler
give x v = if v.closing then v else record v { data_chan = v.data_chan ++ x ∷ [] }

-- An append does not block.
abbrev pub HasRoom : Handler → Type 0
HasRoom v = (v.closing ≡ true) ⊎ (length v.data_chan < data_chan_cap)

append_data_chan-give :
    (x : SessionData) (v : Handler) → HasRoom v → append_data_chan x v ≡ some (give x v)
unfolding append_data_chan
append_data_chan-give x v (inl c) = rw c refl
append_data_chan-give x v (inr lt) = ground arith

abbrev pub NoDup : List String → Type 0
NoDup [] = Unit
NoDup (x ∷ xs) = (among x xs ≡ false) × NoDup xs

-- What a list of session ids leaves under an id.
abbrev pub given : SessionData → Bool → Option Handler → Option Handler
given x b o = if b then Option.map (give x) o else o

pub append_to-some :
    (sid : String) (x : SessionData) (v : Handler) (h : Hub)
    → get sid h.handlers ≡ some v
    → HasRoom v
    → append_to sid x h ≡ some (record h { handlers = put sid (give x v) h.handlers })
unfolding append_to
append_to-some sid x v h e r = rw (e, append_to) (rw (append_data_chan-give x v r) refl)

append_to-none :
    (sid : String) (x : SessionData) (h : Hub)
    → get sid h.handlers ≡ none
    → append_to sid x h ≡ some h
unfolding append_to
append_to-none sid x h e = rw (e, append_to) refl

-- The appends that are left find room.
abbrev pub Ready : List String → Handlers → Type 0
Ready sids hs = (k : String) (v : Handler) → get k hs ≡ some v → (among k sids ≡ false) ⊎ HasRoom v

abbrev Given : SessionData → List String → Handlers → Handlers → Type 0
Given x sids hs hs' = (k : String) → get k hs' ≡ given x (among k sids) (get k hs)

abbrev Told : SessionData → List String → Hub → Type 0
Told x sids h =
    (hs : Handlers) × (append_each sids x h ≡ some (record h { handlers = hs }))
    × Given x sids h.handlers hs
    × (Distinct h.handlers → Distinct hs)

id_self : (k : String) → (k == k) ≡ true
id_self k = (eq_iff k k).1 refl

at_same : (P : String → Type 0) (sid k : String) → (sid == k) ≡ true → P sid → P k
at_same P sid k y p = subst P ((eq_iff sid k).0 y) p

room_first :
    (sid : String) (sids : List String) (v : Handler) (hs : Handlers)
    → Ready (sid ∷ sids) hs
    → get sid hs ≡ some v
    → HasRoom v
room_first sid sids v hs r p = elim (r sid v p) [
  | inl out ↦ absurd (not_out (rw (id_self sid) at out))
  | inr room ↦ room
]
  where
    not_out : true ≡ false → ⊥
    not_out e = cc

Ready-rest :
    (sid : String) (sids : List String) (hs : Handlers) → Ready (sid ∷ sids) hs → Ready sids hs
Ready-rest sid sids hs r k v e = elim (r k v e) [
  | inl out ↦ inl (ground arith)
  | inr room ↦ inr room
]

Ready-put :
    (sid : String) (sids : List String) (w : Handler) (hs : Handlers)
    → among sid sids ≡ false
    → Ready (sid ∷ sids) hs
    → Ready sids (put sid w hs)
Ready-put sid sids w hs new r k v e = elim (Bool-cases (sid == k)) [
  | inl y ↦ inl (at_same (λ i. among i sids ≡ false) sid k y new)
  | inr n ↦ Ready-rest sid sids hs r k v (rw (get-put sid k w hs, n) at e)
]

given-none : (x : SessionData) (b : Bool) → given x b none ≡ none
given-none x true = refl
given-none x false = refl

Given-none :
    (x : SessionData) (sid : String) (sids : List String) (hs hs' : Handlers)
    → get sid hs ≡ none
    → Given x sids hs hs'
    → Given x (sid ∷ sids) hs hs'
Given-none x sid sids hs hs' n g k = elim (Bool-cases (sid == k)) [
  | inl y ↦
      let gone : get k hs ≡ none = at_same (λ i. get i hs ≡ none) sid k y n in
      g k ∙ rw (gone, y) (given-none x (among k sids))
  | inr f ↦ g k ∙ rw f refl
]

Given-put :
    (x : SessionData) (sid : String) (sids : List String) (v : Handler) (hs hs' : Handlers)
    → get sid hs ≡ some v
    → among sid sids ≡ false
    → Given x sids (put sid (give x v) hs) hs'
    → Given x (sid ∷ sids) hs hs'
Given-put x sid sids v hs hs' p new g k = elim (Bool-cases (sid == k)) [
  | inl y ↦
      let there : get k hs ≡ some v = at_same (λ i. get i hs ≡ some v) sid k y p in
      let out : among k sids ≡ false = at_same (λ i. among i sids ≡ false) sid k y new in
      g k ∙ rw (get-put sid k (give x v) hs, y, out, there) refl
  | inr f ↦ g k ∙ rw (get-put sid k (give x v) hs, f) refl
]

pub append_each_lem :
    (sids : List String) (x : SessionData) (h : Hub)
    → NoDup sids
    → Ready sids h.handlers
    → Told x sids h
unfolding append_each
append_each_lem [] x h d r = (h.handlers, refl, λ k. refl, λ e. e)
append_each_lem (sid ∷ sids) x h (new, d) r = elim (Option-cases (get sid h.handlers)) [
  | inl n ↦
      let (hs, e, g, k) = append_each_lem sids x h d (Ready-rest sid sids h.handlers r) in
      (hs, rw (append_to-none sid x h n) e, Given-none x sid sids h.handlers hs n g, k)
  | inr (v, p) ↦
      let room = room_first sid sids v h.handlers r p in
      let (hs, e, g, k) =
        append_each_lem sids x (record h { handlers = put sid (give x v) h.handlers }) d
          (Ready-put sid sids (give x v) h.handlers new r) in
      (
        hs,
        rw (append_to-some sid x v h p room) e,
        Given-put x sid sids v h.handlers hs p new g,
        λ q. k (put-Distinct sid (give x v) h.handlers q),
      )
]

-- The session ids of a user's handlers, in a store with one handler for an id.
unfoldable pub is_of : ℤ → Option Handler → Bool
is_of uid none = false
is_of uid (some v) = v.session.uid == uid

-- One more entry of a search for a user.
abbrev entry : ℤ → String → Handler → List String → List String
entry uid sid v sids = if v.session.uid == uid then sid ∷ sids else sids

among_first :
    (uid : ℤ) (sid k : String) (v : Handler) (sids : List String)
    → (sid == k) ≡ true
    → among k sids ≡ false
    → among k (entry uid sid v sids) ≡ (v.session.uid == uid)
among_first uid sid k v sids y out = elim (Bool-cases (v.session.uid == uid)) [
  | inl p ↦ rw (p, y) refl
  | inr n ↦ rw (n, out) refl
]

among_later :
    (uid : ℤ) (sid k : String) (v : Handler) (sids : List String)
    → (sid == k) ≡ false
    → among k (entry uid sid v sids) ≡ among k sids
among_later uid sid k v sids n = elim (Bool-cases (v.session.uid == uid)) [
  | inl p ↦ rw (p, n) refl
  | inr q ↦ rw q refl
]

pub among-get_by_uid :
    (uid : ℤ) (k : String) (hs : Handlers)
    → Distinct hs
    → among k (get_by_uid uid hs) ≡ is_of uid (get k hs)
unfolding get_by_uid get is_of
among-get_by_uid uid k [] d = refl
among-get_by_uid uid k ((sid, v) ∷ hs) d =
    let rest = among-get_by_uid uid k hs d.1 in
    elim (Bool-cases (sid == k)) [
      | inl y ↦
          let gone : get k hs ≡ none = at_same (λ i. get i hs ≡ none) sid k y d.0 in
          let out : among k (get_by_uid uid hs) ≡ false = rest ∙ rw gone refl in
          among_first uid sid k v (get_by_uid uid hs) y out ∙ rw y refl
      | inr n ↦ among_later uid sid k v (get_by_uid uid hs) n ∙ rest ∙ rw n refl
    ]

pub get_by_uid-NoDup : (uid : ℤ) (hs : Handlers) → Distinct hs → NoDup (get_by_uid uid hs)
unfolding get_by_uid is_of
get_by_uid-NoDup uid [] d = tt
get_by_uid-NoDup uid ((sid, v) ∷ hs) d = elim (Bool-cases (v.session.uid == uid)) [
  | inl y ↦ rw y (among-get_by_uid uid sid hs d.1 ∙ rw d.0 refl, get_by_uid-NoDup uid hs d.1)
  | inr n ↦ rw n (get_by_uid-NoDup uid hs d.1)
]
