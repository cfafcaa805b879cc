-- ===== src/Ws/Handler/Refusing.antt =====
-- Requests that are answered with an error: rounds of `recvLoop` of ws/handler.go over a store
-- whose failed calls change nothing.
use minipush.Base.{
  Bool, true, false, ◌||◌, String, none, some, List, [], ◌∷◌, ◌≡◌, refl, arith, inl, inr,
  Bool-cases, Option-cases, List-cases,
}
use minipush.Base.Int.{ℤ}
use minipush.Base.Results.{Result, ok, err}
use minipush.Proto.{
  WsConf, ClientMsg, ServerMsg, Error, StatsReq, GetEventsReq, SetReadReq, GetReadStatesReq,
}
use minipush.Ws.Api.{
  EventStore, or_internal, map_ok, with_conf, not_positive, get_events_errors, new_internal_error,
  stats, get_events, set_read, get_read_states,
}
use minipush.Ws.Api.Stored.{IsTransactional, event_store, event_store-IsTransactional}
use minipush.Store.Events.{Fault, Database}
use minipush.Store.Queries.{Queries, Clock}
use minipush.Store.Queries.Answers.{Keeps, RollsBack}
use minipush.Ws.Handler.{
  SessionData, error, server_msg, Read, read_failed, not_text, text, Served, reply, serve_im, serve,
  recv_round,
}

abbrev pub is_error : SessionData → Bool
is_error (error _) = true
is_error (server_msg msg) = elim msg.error [ none ↦ false | some _ ↦ true ]

-- Whether one of the messages of a round tells of an error.
abbrev pub has_error : List SessionData → Bool
has_error [] = false
has_error (d ∷ l) = is_error d || has_error l

abbrev Refuses : {S : Type 0} → S → Served S → Type 0
Refuses s served = has_error served.frames ≡ true → served.state ≡ s

reply-Refuses :
    {S A : Type 0} (answer : A → ServerMsg) (s : S) (r : Result A Error × S)
    → ((a : A) → (answer a).error ≡ none)
    → Keeps s r
    → Refuses s (reply answer r)
unfolding reply
reply-Refuses answer s (ok a, s') h k e = absurd (quiet (rw (h a) at e))
  where
    quiet : false || false ≡ true → ⊥
    quiet q = cc
reply-Refuses answer s (err f, s') h k e = k f refl

or_internal-Keeps :
    {S A : Type 0} (req : ClientMsg) (s : S) (r : Result A String × S)
    → Keeps s r
    → Keeps s (or_internal req r)
unfolding new_internal_error
or_internal-Keeps req s (ok a, s') k e p = cc
or_internal-Keeps req s (err f, s') k e p = k f refl

map_ok-Keeps :
    {S A B : Type 0} (f : A → B) (s : S) (r : Result A Error × S) → Keeps s r → Keeps s (map_ok f r)
map_ok-Keeps f s (ok a, s') k e p = cc
map_ok-Keeps f s (err x, s') k e p = k x refl

module _ {S : Type 0} (conf : WsConf) (store : EventStore S) (law : IsTransactional store) where
  stats-Keeps : (uid : ℤ) (req : StatsReq) (s : S) → Keeps s (stats conf store uid req s)
  unfolding stats
  stats-Keeps uid req s =
      map_ok-Keeps (with_conf conf) s _
        (or_internal-Keeps _ s _ (law.stats uid conf.event_ttl_days req s))

  get_events-Keeps :
      (uid : ℤ) (req : GetEventsReq) (s : S) → Keeps s (get_events conf store uid req s)
  unfolding get_events
  get_events-Keeps uid req s = elim (List-cases (get_events_errors conf req)) [
    | inl n ↦ rw (n, get_events) (or_internal-Keeps _ s _ (law.get_events uid req s))
    | inr (x, errs, p) ↦ rw (p, get_events) (λ e p. refl)
  ]

  set_read-Keeps : (uid : ℤ) (req : SetReadReq) (s : S) → Keeps s (set_read conf store uid req s)
  unfolding set_read
  set_read-Keeps uid req s = elim (Bool-cases (not_positive req.seq)) [
    | inl y ↦ rw y (λ e p. refl)
    | inr n ↦ rw n (or_internal-Keeps _ s _ (law.set_read uid req.seq s))
  ]

  get_read_states-Keeps :
      (uid : ℤ) (req : GetReadStatesReq) (s : S) → Keeps s (get_read_states conf store uid req s)
  unfolding get_read_states
  get_read_states-Keeps uid req s = elim (Bool-cases (not_positive req.head_seq)) [
    | inl y ↦ rw y (λ e p. refl)
    | inr n ↦ rw n (or_internal-Keeps _ s _ (law.get_read_states uid conf.event_ttl_days req s))
  ]

  serve_im_state : (req : ClientMsg) (s : S) → (serve_im conf store req s).state ≡ s
  unfolding serve_im
  serve_im_state req s = ground arith

  serve-Refuses : (uid : ℤ) (req : ClientMsg) (s : S) → Refuses s (serve conf store uid req s)
  unfolding serve
  serve-Refuses uid req s = elim (Option-cases req.stats) [
    | inr (v, p) ↦ rw p (reply-Refuses _ s _ (λ a. refl) (stats-Keeps uid v s))
    | inl n ↦ rw n (elim (Option-cases req.get_events) [
      | inr (v, p) ↦ rw p (reply-Refuses _ s _ (λ a. refl) (get_events-Keeps uid v s))
      | inl n ↦ rw n (elim (Option-cases req.set_read) [
        | inr (v, p) ↦ rw p (reply-Refuses _ s _ (λ a. refl) (set_read-Keeps uid v s))
        | inl n ↦ rw n (elim (Option-cases req.get_read_states) [
          | inr (v, p) ↦ rw p (reply-Refuses _ s _ (λ a. refl) (get_read_states-Keeps uid v s))
          | inl n ↦ rw n (λ e. serve_im_state _ s)
        ])
      ])
    ])
  ]

  round-Refuses : (uid : ℤ) (read : Read) (s : S) → Refuses s (recv_round conf store uid read s)
  unfolding recv_round
  round-Refuses uid read_failed s e = refl
  round-Refuses uid not_text s e = refl
  round-Refuses uid (text req (some _)) s e = refl
  round-Refuses uid (text req none) s e = serve-Refuses uid req s e

-- If a rollback and a failed commit leave the database as it was at the begin, then a round that
-- sends the peer an error, whatever was read and whatever the database answered, leaves the database as it was.
pub recv_round-RollsBack :
    {D T : Type 0} (conf : WsConf) (db : Database D) (q : Queries D) (clock : Clock T)
    (describe : Fault → String) (uid : ℤ) (read : Read) (d : D)
    → RollsBack db
    → has_error (recv_round conf (event_store db q clock describe) uid read d).frames ≡ true
    → (recv_round conf (event_store db q clock describe) uid read d).state ≡ d
recv_round-RollsBack conf db q clock describe uid read d back e =
    round-Refuses conf (event_store db q clock describe)
      (event_store-IsTransactional db q clock describe back) uid read d e
