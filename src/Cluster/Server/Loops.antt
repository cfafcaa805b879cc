-- ===== src/Cluster/Server/Loops.antt =====
-- The loops of the leader from their start to their end: `Route`, `run` and `cleanSessionLoop` of
-- cluster/server.go.
use minipush.Base.{
  ℕ, Bool, true, false, ◌||◌, ◌&&◌, leb, String, Option, none, some, List, [], ◌∷◌, ltb, length,
  if◌then◌else◌, ◌≡◌, ◌⊎◌, refl, sym, ap, ◌∙◌, subst, inl, inr, arith, Bool-cases, Option-cases,
}
use minipush.Base.Int.{ℤ}
use minipush.Base.Keys.{◌==◌, string_eq, eq_iff}
use minipush.Base.Dict.{get, put, get-put, get-delete}
use minipush.Proto.{E2eMsg, FollowerMsg, LeaderMsg}
use minipush.Cluster.Sorter.{Sorter}
use minipush.Cluster.Messages.{KafkaWriter, save_e2e_msg}
use minipush.Cluster.Sessions.{empty}
use minipush.Cluster.Server.{
  PushServer, Sent, Round, goes_on, returns, panics, not_empty, add_stream, remove_stream,
  broadcast, receive, clean_sessions, after_save,
}
use minipush.Cluster.Server.Routes.Limit.{round-limit}
use minipush.Cluster.Server.Routes.{
  Recv, broken, message, end_round, route_round, round-Shrinks, Shrinks,
}

-- The metadata of a stream: the values of x-hub-id, or `none` if there is no metadata.
unfoldable pub hub_id_of : Option (List String) → String
hub_id_of (some (hub_id ∷ _)) = hub_id
hub_id_of _ = ""

-- What the select of `run` takes, and that of `cleanSessionLoop`.
pub data RunInput : Type 0 where
  pushed : LeaderMsg → RunInput
  chan_closed run_done : RunInput

pub data CleanInput : Type 0 where
  ticked : ℤ → CleanInput
  clean_done : CleanInput

module _ (send : ℕ → LeaderMsg → Sent) where
  -- The flag tells whether the loop has ended.
  unfoldable pub run_loop : List RunInput → PushServer → PushServer × Bool
  unfolding broadcast
  run_loop [] s = (s, false)
  run_loop (pushed msg ∷ inputs) s = run_loop inputs (broadcast send msg s.hub_streams s)
  run_loop (_ ∷ inputs) s = (s, true)

module _ (send : ℕ → LeaderMsg → Sent) (sorter : Sorter) (writer : KafkaWriter) where
  unfoldable pub clean_loop : List CleanInput → PushServer → PushServer × Bool
  unfolding clean_sessions
  clean_loop [] s = (s, false)
  clean_loop (ticked now ∷ inputs) s = clean_loop inputs (clean_sessions send sorter writer now s)
  clean_loop (clean_done ∷ inputs) s = (record s { session_store = empty s.session_store }, true)

  -- After a round, the loop goes on or has ended.
  unfoldable pub after_round : Round → PushServer → PushServer × Round → PushServer × Round
  after_round goes_on s rest = rest
  after_round returns s rest = (s, returns)
  after_round panics s rest = (s, panics)

  -- The loop, up to the last of what Recv returns, each with its time.
  unfoldable pub route_loop : String → List (Recv × ℤ) → PushServer → PushServer × Round
  unfolding route_round after_round
  route_loop hub [] s = (s, goes_on)
  route_loop hub ((recv, now) ∷ inputs) s =
      let (s', r) = route_round send sorter writer hub recv now s in
      after_round r s' (route_loop hub inputs s')

  unfoldable pub route :
      Option (List String) → ℕ → List (Recv × ℤ) → PushServer → PushServer × Round
  unfolding hub_id_of route_loop add_stream
  route md stream inputs s =
      let hub = hub_id_of md in
      if not_empty hub
      then (let r = route_loop hub inputs (add_stream hub stream s) in (end_round hub r, r.1))
      else (s, panics)

abbrev has : {A : Type 0} → Option A → Bool
has none = false
has (some _) = true

-- A message has one of the four contents that a hub sends.
abbrev pub carries : FollowerMsg → Bool
carries msg =
    has msg.session_online
    || (not_empty msg.session_offline || (ltb 0 (length msg.sync_sessions) || has msg.e2e_msg))

-- The message for kafka: one for the session store goes before it.
abbrev pub im_of : FollowerMsg → Option E2eMsg
im_of msg =
    if has msg.session_online || (not_empty msg.session_offline || ltb 0 (length msg.sync_sessions))
    then none
    else msg.e2e_msg

-- There is no writer for it, and it could be marshaled within the limit.
abbrev pub has_no_writer : KafkaWriter → ℕ → Option E2eMsg → Bool
has_no_writer writer limit none = false
has_no_writer writer limit (some v) = elim (writer.marshal v) [
  | none ↦ false
  | some value ↦ writer.is_nil && leb (length value) limit
]

-- How the loop ends: with the first error, the first message that there is no writer for, or the
-- first message that has none of those contents.
abbrev pub ending_one : KafkaWriter → ℕ → Recv → Round
ending_one writer limit broken = returns
ending_one writer limit (message msg) =
    if carries msg
    then (if has_no_writer writer limit (im_of msg) then panics else goes_on)
    else if msg.server_shutdown
    then returns
    else panics

abbrev first_end : Round → Round → Round
first_end goes_on rest = rest
first_end returns rest = returns
first_end panics rest = panics

abbrev pub ending : KafkaWriter → ℕ → List (Recv × ℤ) → Round
ending writer limit [] = goes_on
ending writer limit ((recv, _) ∷ inputs) =
    first_end (ending_one writer limit recv) (ending writer limit inputs)

-- What is left of a stream: it is gone, or it is as before.
abbrev pub Kept : Option ℕ → Option ℕ → Type 0
Kept o o' = (o' ≡ none) ⊎ (o' ≡ o)

kept :
    (s s' : PushServer) (h : String)
    → Shrinks s s'
    → Kept (get h s.hub_streams) (get h s'.hub_streams)
kept s s' h shrinks = elim (Option-cases (get h s'.hub_streams)) [
  | inl n ↦ inl n
  | inr (stream, e) ↦ inr (e ∙ sym (shrinks h stream e))
]

-- The deferred call takes the stream of the hub, and no other.
ends_stream :
    (hub : String) (r : PushServer × Round)
    → (r.1 ≡ goes_on) ⊎ (get hub (end_round hub r).hub_streams ≡ none)
unfolding remove_stream
ends_stream hub (s, goes_on) = inl refl
ends_stream hub (s, returns) =
    inr (get-delete hub hub s.hub_streams ∙ rw ((eq_iff hub hub).1 refl) refl)
ends_stream hub (s, panics) =
    inr (get-delete hub hub s.hub_streams ∙ rw ((eq_iff hub hub).1 refl) refl)

end_round-others :
    (hub h : String) (r : PushServer × Round)
    → (hub == h) ≡ false
    → get h (end_round hub r).hub_streams ≡ get h r.0.hub_streams
unfolding remove_stream
end_round-others hub h (s, goes_on) n = refl
end_round-others hub h (s, returns) n = get-delete hub h s.hub_streams ∙ rw n refl
end_round-others hub h (s, panics) n = get-delete hub h s.hub_streams ∙ rw n refl

others_kept :
    (hub h : String) (stream : ℕ) (s : PushServer) (r : PushServer × Round)
    → Shrinks (add_stream hub stream s) r.0
    → ((hub == h) ≡ true) ⊎ Kept (get h s.hub_streams) (get h (end_round hub r).hub_streams)
unfolding add_stream
others_kept hub h stream s r shrinks = elim (Bool-cases (hub == h)) [
  | inl y ↦ inl y
  | inr n ↦
      let before : get h (put hub stream s.hub_streams) ≡ get h s.hub_streams =
        get-put hub h stream s.hub_streams ∙ rw n refl in
      let at_end = end_round-others hub h r n in
      elim (kept (add_stream hub stream s) r.0 h shrinks) [
        | inl gone ↦ inr (inl (at_end ∙ gone))
        | inr stays ↦ inr (inr (at_end ∙ stays ∙ before))
      ]
]

-- What a route leads to.
abbrev Routed : Round → String → PushServer → PushServer × Round → Type 0
Routed end hub s r =
    (r.1 ≡ end)
    × ((end ≡ goes_on) ⊎ (get hub r.0.hub_streams ≡ none))
    × ((h : String) → ((hub == h) ≡ true) ⊎ Kept (get h s.hub_streams) (get h r.0.hub_streams))

module _ (send : ℕ → LeaderMsg → Sent) (sorter : Sorter) (writer : KafkaWriter) where
  after_save_lem :
      (v : E2eMsg) (limit : ℕ)
      → after_save (save_e2e_msg writer v limit).1
        ≡ (if has_no_writer writer limit (some v) then panics else goes_on)
  unfolding save_e2e_msg
  after_save_lem v limit = ground arith

  round-ending_one :
      (hub : String) (recv : Recv) (now : ℤ) (s : PushServer)
      → (route_round send sorter writer hub recv now s).1 ≡ ending_one writer s.event_max_size recv
  unfolding route_round receive
  round-ending_one hub broken now s = refl
  round-ending_one hub (message msg) now s = elim (Option-cases msg.session_online) [
    | inr (v, e) ↦ rw (e, receive) refl
    | inl e ↦ elim (Option-cases msg.e2e_msg) [
      | inr (v, f) ↦ rw (receive, e, f) (ground (arith, after_save_lem v s.event_max_size))
      | inl f ↦ rw (receive, e, f) (ground arith)
    ]
  ]

  after_round-end :
      (r : Round) (s : PushServer) (rest : PushServer × Round) (end : Round)
      → rest.1 ≡ end
      → (after_round send sorter writer r s rest).1 ≡ first_end r end
  unfolding after_round
  after_round-end goes_on s rest end e = e
  after_round-end returns s rest end e = refl
  after_round-end panics s rest end e = refl

  after_round-Shrinks :
      (r : Round) (s s' : PushServer) (rest : PushServer × Round)
      → Shrinks s s'
      → Shrinks s' rest.0
      → Shrinks s (after_round send sorter writer r s' rest).0
  unfolding after_round
  after_round-Shrinks goes_on s s' rest f g = λ h stream e. f h stream (g h stream e)
  after_round-Shrinks returns s s' rest f g = f
  after_round-Shrinks panics s s' rest f g = f

  loop-ending :
      (hub : String) (inputs : List (Recv × ℤ)) (s : PushServer)
      → ((route_loop send sorter writer hub inputs s).1 ≡ ending writer s.event_max_size inputs)
        × Shrinks s (route_loop send sorter writer hub inputs s).0
  unfolding route_loop
  loop-ending hub [] s = (refl, λ h stream e. e)
  loop-ending hub ((recv, now) ∷ inputs) s =
      let one = round-ending_one hub recv now s in
      let shrinks = round-Shrinks sorter writer send hub recv now s in
      let s' : PushServer = (route_round send sorter writer hub recv now s).0 in
      let (rest, shrinks_rest) = loop-ending hub inputs s' in
      let limit = round-limit send sorter writer hub recv now s in
      (
        after_round-end (route_round send sorter writer hub recv now s).1 s'
              (route_loop send sorter writer hub inputs s') (ending writer s.event_max_size inputs)
              (rest ∙ ap (λ l. ending writer l inputs) limit)
            ∙ ap (λ r. first_end r (ending writer s.event_max_size inputs)) one,
        after_round-Shrinks (route_round send sorter writer hub recv now s).1 s s'
            (route_loop send sorter writer hub inputs s') shrinks shrinks_rest,
      )

  -- A stream without a hub id panics and changes nothing. Any other route ends with the first error,
  -- the first end-to-end message that can be marshaled within the limit when the leader has no writer to
  -- kafka, where it panics, or the first message that has no content of a hub's: it panics if that
  -- message is no shutdown either, and returns otherwise. When it has ended, the hub has no stream; a stream of another hub
  -- is as it was or gone.
  pub route_lem :
      (md : Option (List String)) (stream : ℕ) (inputs : List (Recv × ℤ)) (s : PushServer)
      → ((not_empty (hub_id_of md) ≡ false)
          × (route send sorter writer md stream inputs s ≡ (s, panics)))
        ⊎ (((route send sorter writer md stream inputs s).1 ≡ ending writer s.event_max_size inputs)
            × ((ending writer s.event_max_size inputs ≡ goes_on)
                ⊎ (get (hub_id_of md) (route send sorter writer md stream inputs s).0.hub_streams
                    ≡ none))
            × ((h : String)
                → ((hub_id_of md == h) ≡ true)
                  ⊎ Kept
                      (get h s.hub_streams)
                      (get h (route send sorter writer md stream inputs s).0.hub_streams)))
  unfolding route
  route_lem md stream inputs s = elim (Bool-cases (not_empty (hub_id_of md))) [
    | inr n ↦ inl (n, rw (n, route) refl)
    | inl y ↦
        let hub = hub_id_of md in
        let opened = add_stream hub stream s in
        let r = route_loop send sorter writer hub inputs opened in
        let (end, shrinks) = loop-ending hub inputs opened in
        let same : route send sorter writer md stream inputs s ≡ (end_round hub r, r.1) =
          rw (y, route) refl in
        inr (
          subst (Routed (ending writer s.event_max_size inputs) hub s) (sym same) (
            end,
            subst (λ e. (e ≡ goes_on) ⊎ (get hub (end_round hub r).hub_streams ≡ none)) end
                (ends_stream hub r),
            λ h. others_kept hub h stream s r shrinks,
          ))
  ]
