-- ===== src/Ws/Hub/Kickoff/Room.antt =====
-- When a kickoff of the leader does not block: ws/hub.go.
use minipush.Base.{String, some, List, [], ◌∷◌, ◌≡◌, refl, inl, inr, Option-cases, Bool-cases}
use minipush.Base.Keys.{◌==◌, string_eq, eq_iff}
use minipush.Base.Dict.{get, put, delete, get-put, Distinct, put-Distinct, delete-Distinct}
use minipush.Base.Dict.Each.{Each, get-Each, delete-Each}
use minipush.Ws.Handler.{Handler}
use minipush.Ws.Hub.{Hub, Handlers, kickoff, kickoff_all, kickoff_value, store_del}
use minipush.Ws.Hub.Telling.{HasRoom, give, append_to-some}

-- No handler of the store blocks.
abbrev pub AllRoom : Handlers → Type 0
AllRoom hs = Each (λ k v. HasRoom v) hs

delete-put-AllRoom :
    (sid : String) (w : Handler) (hs : Handlers) → AllRoom hs → AllRoom (delete sid (put sid w hs))
unfolding delete put
delete-put-AllRoom sid w [] room = rw ((eq_iff sid sid).1 refl) tt
delete-put-AllRoom sid w ((k, v) ∷ hs) room = elim (Bool-cases (k == sid)) [
  | inl y ↦ rw y (rw ((eq_iff sid sid).1 refl) (delete-Each (λ k v. HasRoom v) sid hs room.1))
  | inr n ↦ rw n (rw n (room.0, delete-put-AllRoom sid w hs room.1))
]

-- What a kickoff leaves.
abbrev kicked : String → Handler → Hub → Hub
kicked sid v h = record h { handlers = delete sid (put sid v h.handlers) }

kickoff_room :
    (sid : String) (v : Handler) (h : Hub)
    → get sid h.handlers ≡ some v
    → HasRoom v
    → kickoff sid h ≡ some (kicked sid (give kickoff_value v) h)
unfolding kickoff
kickoff_room sid v h e room =
    rw (e, kickoff)
      (rw (append_to-some sid kickoff_value v h e room) (
        rw (get-put sid sid (give kickoff_value v) h.handlers, store_del)
          (rw ((eq_iff sid sid).1 refl) refl)))

-- While all handlers have room, a kickoff of a list of session ids returns.
pub kickoff_all_room :
    (sids : List String) (h : Hub)
    → Distinct h.handlers
    → AllRoom h.handlers
    → (h' : Hub) × (kickoff_all sids h ≡ some h') × Distinct h'.handlers
unfolding kickoff_all kickoff
kickoff_all_room [] h d room = (h, refl, d)
kickoff_all_room (sid ∷ sids) h d room = elim (Option-cases (get sid h.handlers)) [
  | inl n ↦ let (h', e, k) = kickoff_all_room sids h d room in (h', rw (n, kickoff) e, k)
  | inr (v, p) ↦
      let w = give kickoff_value v in
      let (h', e, k) =
        kickoff_all_room sids (kicked sid w h)
          (delete-Distinct sid (put sid w h.handlers) (put-Distinct sid w h.handlers d))
          (delete-put-AllRoom sid w h.handlers room) in
      (h', rw (kickoff_room sid v h p (get-Each (λ k v. HasRoom v) sid v h.handlers p room)) e, k)
]
