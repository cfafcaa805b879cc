-- ===== src/Ws/Hub/Kickoff.antt =====
-- The handlers that a kickoff of the leader leaves in a hub: ws/hub.go.
pub mod Room
use minipush.Base.{
  Bool, false, String, none, some, List, [], ◌∷◌, if◌then◌else◌, ◌≡◌, refl, sym, ◌∙◌, arith, inl,
  inr, Option-cases, ◌||◌, ◌⊎◌,
}
use minipush.Base.Keys.{◌==◌, string_eq, eq_iff}
use minipush.Base.Dict.{get, put, delete, get-put, get-delete}
use minipush.Ws.Handler.{Handler, append_data_chan}
use minipush.Ws.Hub.{Hub, append_to, kickoff, kickoff_all, kickoff_value, store_del}

-- Whether a session id is in a list.
abbrev pub among : String → List String → Bool
among x [] = false
among x (sid ∷ sids) = (sid == x) || among x sids

some_eq {ℓ} : {A : Type ℓ} (a b : A) → some a ≡ some b → a ≡ b
some_eq a b e = cc

-- The handler gets the value and is removed.
abbrev without : String → Handler → Hub → Hub
without sid v h = record h { handlers = delete sid (put sid v h.handlers) }

none-some {ℓ} : {A : Type ℓ} (a : A) → none ≡ some a → ⊥
none-some a e = cc

kickoff_cases :
    (sid : String) (h : Hub)
    → (kickoff sid h ≡ some h × get sid h.handlers ≡ none)
      ⊎ ((kickoff sid h ≡ none) ⊎ ((v : Handler) × kickoff sid h ≡ some (without sid v h)))
unfolding kickoff append_to
kickoff_cases sid h = elim (Option-cases (get sid h.handlers)) [
  | inl n ↦ inl (rw (n, kickoff) refl, n)
  | inr (v, p) ↦ elim (Option-cases (append_data_chan kickoff_value v)) [
    | inl q ↦ inr (inl (rw (p, kickoff) (rw (p, append_to) (rw q refl))))
    | inr (w, q) ↦ inr (
        inr (
          w,
          rw (p, kickoff)
              (rw (p, append_to)
                (rw q (
                  rw (get-put sid sid w h.handlers, store_del)
                    (rw ((eq_iff sid sid).1 refl) refl)))),
        ))
  ]
]

get-without :
    (sid x : String) (v : Handler) (h : Hub)
    → get x (delete sid (put sid v h.handlers)) ≡ (if sid == x then none else get x h.handlers)
get-without sid x v h =
    ground (arith, get-delete sid x (put sid v h.handlers), get-put sid x v h.handlers)

-- What a kickoff that does not block leaves.
abbrev Leaves : String → Hub → Hub → Type 0
Leaves sid h h' =
    (h'.follower_c ≡ h.follower_c)
    × ((x : String) → get x h'.handlers ≡ (if sid == x then none else get x h.handlers))

kickoff_some : (sid : String) (h h' : Hub) → kickoff sid h ≡ some h' → Leaves sid h h'
kickoff_some sid h h' e = elim (kickoff_cases sid h) [
  | inl (p, n) ↦ rw (← some_eq h h' (sym p ∙ e)) (refl, λ x. ground (arith, eq_iff sid x))
  | inr (inl p) ↦ cc
  | inr (inr (v, p)) ↦
      rw (← some_eq (without sid v h) h' (sym p ∙ e)) (refl, λ x. get-without sid x v h)
]

-- When a kickoff of a list of session ids returns, no handler is left under an id of the list, every
-- other handler is left as it was, and the hub has sent nothing to the leader.
pub kickoff_all_lem :
    (sids : List String) (h h' : Hub)
    → kickoff_all sids h ≡ some h'
    → (h'.follower_c ≡ h.follower_c)
      × ((x : String) → get x h'.handlers ≡ (if among x sids then none else get x h.handlers))
unfolding kickoff_all
kickoff_all_lem [] h h' e = rw (← some_eq h h' e) (refl, λ x. refl)
kickoff_all_lem (sid ∷ sids) h h' e = elim (Option-cases (kickoff sid h)) [
  | inl n ↦ absurd (none-some h' (rw (n, kickoff_all) at e))
  | inr (g, p) ↦
      let one = kickoff_some sid h g p in
      let rest = kickoff_all_lem sids g h' (rw (p, kickoff_all) at e) in
      (rest.0 ∙ one.0, λ x. ground (arith, rest.1 x, one.1 x))
]
