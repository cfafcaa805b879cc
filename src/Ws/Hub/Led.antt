-- ===== src/Ws/Hub/Led.antt =====
-- What happens to a hub (ws/hub.go), and what a message of the leader leaves of its sessions.
use minipush.Base.{
  Bool, false, ◌||◌, String, Option, none, some, List, [], ◌∷◌, if◌then◌else◌, ◌≡◌, refl, ap, ◌∙◌,
  arith, inl, inr, Option-cases,
}
use minipush.Base.Int.{ℤ}
use minipush.Base.Keys.{◌==◌, int_eq, string_eq, eq_iff}
use minipush.Base.Dict.{get, put, get-put, get-delete, put-Distinct, delete-Distinct}
use minipush.Base.Dict.Each.{get-Each, put-Each, delete-Each}
use minipush.Base.Options.{◌>>=◌}
use minipush.Proto.{Session, LeaderMsg}
use minipush.Ws.Handler.{Handler, SessionData, append_data_chan}
use minipush.Ws.Hub.{
  Hub, get_by_uid, store_del, add_handler, del_handler, go_online, go_offline, append_to,
  append_each, kickoff, kickoff_all, kickoff_value, head_seq_value, tell_head_seqs, on_leader_msg,
}
use minipush.Ws.Hub.Kickoff.{among}
use minipush.Ws.Hub.Sync.{IsNamed, IsKeyed, labelled}

-- What happens to a hub: a session comes or goes, the leader is reached or lost, or the leader sends a
-- message, for a kickoff or with head sequences.
pub data HubEvent : Type 0 where
  comes : Handler → HubEvent
  goes : String → HubEvent
  reached lost : HubEvent
  led : LeaderMsg → HubEvent

-- `none` if an append blocks.
unfoldable pub happen : HubEvent → Hub → Option Hub
unfolding add_handler del_handler go_online go_offline on_leader_msg
happen (comes handler) h = some (add_handler handler h)
happen (goes sid) h = some (del_handler sid h)
happen reached h = some (go_online h)
happen lost h = some (go_offline h)
happen (led msg) h = on_leader_msg msg h

unfoldable pub happen_all : List HubEvent → Hub → Option Hub
happen_all [] h = some h
happen_all (e ∷ es) h = do h' ← happen e h; happen_all es h'

-- The sessions that come have ids, as uuid.New makes them.
abbrev pub IsRun : List HubEvent → Type 0
IsRun [] = Unit
IsRun (comes handler ∷ es) = ((handler.session.sid == "") ≡ false) × IsRun es
IsRun (_ ∷ es) = IsRun es

-- Whether the leader has kicked off a session id.
abbrev pub was_kicked : String → List HubEvent → Bool
was_kicked x [] = false
was_kicked x (led msg ∷ es) = among x msg.kickoff || was_kicked x es
was_kicked x (_ ∷ es) = was_kicked x es

-- The session that the hub has a handler of.
abbrev pub shown : String → String → Hub → Option Session
shown hub_id x h = labelled hub_id (get x h.handlers)

-- The handlers show the same sessions, and the leader hears nothing.
pub record Same (h h' : Hub) : Type 0 where
  pub silent : h'.follower_c ≡ h.follower_c
  pub keyed : IsKeyed h'
  pub shows : (hub_id x : String) → shown hub_id x h' ≡ shown hub_id x h

pub some_inj {ℓ} : {A : Type ℓ} (a b : A) → some a ≡ some b → a ≡ b
some_inj a b e = cc

pub none-some {ℓ} : {A : Type ℓ} (a : A) → none ≡ some a → ⊥
none-some a e = cc

append_data_chan-session :
    (v : SessionData) (h h' : Handler) → append_data_chan v h ≡ some h' → h'.session ≡ h.session
unfolding append_data_chan
append_data_chan-session v h h' e = ground arith

pub Same-refl : (h : Hub) → IsKeyed h → Same h h
Same-refl h k = record { silent = refl; keyed = k; shows = λ hub_id x. refl }

Same-trans : (a b c : Hub) → Same a b → Same b c → Same a c
Same-trans a b c p q = record {
  silent = q.silent ∙ p.silent;
  keyed = q.keyed;
  shows = λ hub_id x. q.shows hub_id x ∙ p.shows hub_id x;
}

put-Same :
    (sid : String) (v w : Handler) (h : Hub)
    → IsKeyed h
    → get sid h.handlers ≡ some v
    → w.session ≡ v.session
    → Same h (record h { handlers = put sid w h.handlers })
unfolding labelled
put-Same sid v w h k e same =
    let n = get-Each IsNamed sid v h.handlers e k.named in
    record {
      silent = refl;
      keyed = record {
        distinct = put-Distinct sid w h.handlers k.distinct;
        named =
            put-Each IsNamed sid w h.handlers (ap (λ (t : Session). t.sid) same ∙ n.0, n.1) k.named;
      };
      shows = λ hub_id x. ground (arith, get-put sid x w h.handlers, eq_iff sid x, e, same);
    }

append_to-Same :
    (sid : String) (v : SessionData) (h h' : Hub)
    → IsKeyed h
    → append_to sid v h ≡ some h'
    → Same h h'
unfolding append_to
append_to-Same sid v h h' k e = elim (Option-cases (get sid h.handlers)) [
  | inl n ↦ rw (← some_inj h h' (rw (n, append_to) at e)) (Same-refl h k)
  | inr (w, p) ↦ elim (Option-cases (append_data_chan v w)) [
    | inl n ↦ absurd (none-some h' (rw (p, append_to, n) at e))
    | inr (w', q) ↦
        let given = some_inj _ h' (rw (p, append_to, q) at e) in
        rw (← given) (put-Same sid w w' h k p (append_data_chan-session v w w' q))
  ]
]

append_each-Same :
    (sids : List String) (v : SessionData) (h h' : Hub)
    → IsKeyed h
    → append_each sids v h ≡ some h'
    → Same h h'
unfolding append_each
append_each-Same [] v h h' k e = rw (← some_inj h h' e) (Same-refl h k)
append_each-Same (sid ∷ sids) v h h' k e = elim (Option-cases (append_to sid v h)) [
  | inl n ↦ absurd (none-some h' (rw (n, append_each) at e))
  | inr (g, p) ↦
      let one = append_to-Same sid v h g k p in
      Same-trans h g h' one (append_each-Same sids v g h' one.keyed (rw (p, append_each) at e))
]

pub tell_head_seqs-Same :
    (heads : List (ℤ × ℤ)) (h h' : Hub) → IsKeyed h → tell_head_seqs heads h ≡ some h' → Same h h'
unfolding tell_head_seqs
tell_head_seqs-Same [] h h' k e = rw (← some_inj h h' e) (Same-refl h k)
tell_head_seqs-Same ((uid, seq) ∷ rest) h h' k e =
    elim (Option-cases (append_each (get_by_uid uid h.handlers) (head_seq_value seq) h)) [
      | inl n ↦ absurd (none-some h' (rw (n, tell_head_seqs) at e))
      | inr (g, p) ↦
          let one = append_each-Same (get_by_uid uid h.handlers) (head_seq_value seq) h g k p in
          Same-trans h g h' one
            (tell_head_seqs-Same rest g h' one.keyed (rw (p, tell_head_seqs) at e))
    ]

-- What a kickoff leaves.
pub record Without (sids : List String) (h h' : Hub) : Type 0 where
  pub silent : h'.follower_c ≡ h.follower_c
  pub keyed : IsKeyed h'
  pub shows :
      (hub_id x : String) → shown hub_id x h' ≡ (if among x sids then none else shown hub_id x h)

deleted : String → Hub → Hub
deleted sid h = record h { handlers = (store_del sid h.handlers).0 }

deleted-Without : (sid : String) (h : Hub) → IsKeyed h → Without (sid ∷ []) h (deleted sid h)
unfolding deleted labelled
deleted-Without sid h k = elim (Option-cases (get sid h.handlers)) [
  | inl n ↦
      rw (n, deleted, store_del)
        (record { silent = refl; keyed = k; shows = λ hub_id x. ground (arith, eq_iff sid x, n) })
  | inr (v, e) ↦
      rw (e, deleted, store_del)
        (record {
          silent = refl;
          keyed = record {
            distinct = delete-Distinct sid h.handlers k.distinct;
            named = delete-Each IsNamed sid h.handlers k.named;
          };
          shows = λ hub_id x. ground (arith, get-delete sid x h.handlers);
        })
]

kickoff-Without :
    (sid : String) (h h' : Hub) → IsKeyed h → kickoff sid h ≡ some h' → Without (sid ∷ []) h h'
unfolding kickoff deleted labelled
kickoff-Without sid h h' k e = elim (Option-cases (get sid h.handlers)) [
  | inl n ↦
      rw (← some_inj h h' (rw (n, kickoff) at e))
        (record { silent = refl; keyed = k; shows = λ hub_id x. ground (arith, eq_iff sid x, n) })
  | inr (v, p) ↦ elim (Option-cases (append_to sid kickoff_value h)) [
    | inl n ↦ absurd (none-some h' (rw (p, kickoff, n) at e))
    | inr (g, q) ↦
        let one = append_to-Same sid kickoff_value h g k q in
        let gone = deleted-Without sid g one.keyed in
        rw (← some_inj (deleted sid g) h' (rw (p, kickoff, q) at e)) (record {
          silent = gone.silent ∙ one.silent;
          keyed = gone.keyed;
          shows = λ hub_id x. ground (arith, gone.shows hub_id x, one.shows hub_id x);
        })
  ]
]

pub kickoff_all-Without :
    (sids : List String) (h h' : Hub) → IsKeyed h → kickoff_all sids h ≡ some h' → Without sids h h'
unfolding kickoff_all
kickoff_all-Without [] h h' k e =
    rw (← some_inj h h' e) (record { silent = refl; keyed = k; shows = λ hub_id x. refl })
kickoff_all-Without (sid ∷ sids) h h' k e = elim (Option-cases (kickoff sid h)) [
  | inl n ↦ absurd (none-some h' (rw (n, kickoff_all) at e))
  | inr (g, p) ↦
      let one = kickoff-Without sid h g k p in
      let rest = kickoff_all-Without sids g h' one.keyed (rw (p, kickoff_all) at e) in
      record {
        silent = rest.silent ∙ one.silent;
        keyed = rest.keyed;
        shows = λ hub_id x. ground (arith, rest.shows hub_id x, one.shows hub_id x);
      }
]
