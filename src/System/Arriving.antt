-- ===== src/System/Arriving.antt =====
-- The messages of a client, from `recvLoop` of ws/handler.go over `routeClientMsg` of ws/hub.go and
-- `Route` of cluster/server.go to `decodeKafkaMsg` of cluster/eventstore.go.
use minipush.Base.{
  ℕ, Bool, true, false, not, String, Option, none, some, List, [], ◌∷◌, ◌++◌, map, All, keep, ltb,
  length, if◌then◌else◌, ◌≡◌, ◌⊎◌, refl, sym, ap, ◌∙◌, subst, inl, inr, arith, Bool-cases,
  Option-cases, List-cases,
}
use mathlib.Core.List.{append-nil, append_assoc}
use minipush.Base.Int.{ℤ, pos, ltb_ℤ}
use minipush.Proto.{WsConf, E2eMsg, FollowerMsg, no_follower_msg, LeaderMsg}
use minipush.Cluster.Sorter.{Sorter}
use minipush.Cluster.Messages.{KafkaWriter, SaveError, save_e2e_msg, write_error}
use minipush.Cluster.Server.{PushServer, Sent, receive}
use minipush.Cluster.Storage.{Message, Storage, should_discard, decode_kafka_msg}
use minipush.Ws.Api.{EventStore}
use minipush.Ws.Handler.{Read}
use minipush.Ws.Handler.Conversation.{recv_loop}
use minipush.Ws.Hub.{Hub, route_client_msg}

-- The hub is given one message after another.
unfoldable pub route_all : List E2eMsg → Hub → Hub
unfolding route_client_msg
route_all [] h = h
route_all (msg ∷ msgs) h = route_all msgs (route_client_msg msg h)

-- Whether `saveE2eMsg` hands a message to kafka.
abbrev pub is_handed : KafkaWriter → ℕ → E2eMsg → Bool
is_handed writer limit msg = elim (writer.marshal msg) [
  | none ↦ false
  | some value ↦ if ltb limit (length value) then false else not writer.is_nil
]

abbrev as_follower : E2eMsg → FollowerMsg
as_follower msg = record no_follower_msg { e2e_msg = some msg }

route_all_c :
    (msgs : List E2eMsg) (h : Hub)
    → (route_all msgs h).follower_c ≡ h.follower_c ++ map as_follower msgs
unfolding route_all route_client_msg
route_all_c [] h = sym (append-nil h.follower_c)
route_all_c (msg ∷ msgs) h =
    route_all_c msgs (route_client_msg msg h)
    ∙ append_assoc h.follower_c (as_follower msg ∷ []) (map as_follower msgs)

-- One more value, or none.
cons : Option (List ℕ) → List (List ℕ) → List (List ℕ)
cons none rest = rest
cons (some value) rest = value ∷ rest

module _ (writer : KafkaWriter) where
  -- What is handed to kafka.
  values : ℕ → List E2eMsg → List (List ℕ)
  values limit [] = []
  values limit (msg ∷ msgs) =
      let rest = values limit msgs in
      elim (save_e2e_msg writer msg limit).0 [ none ↦ rest | some value ↦ value ∷ rest ]

  values_first :
      (limit : ℕ) (msg : E2eMsg) (msgs : List E2eMsg)
      → (o : Option (List ℕ)) → (save_e2e_msg writer msg limit).0 ≡ o
      → values limit (msg ∷ msgs) ≡ cons o (values limit msgs)
  unfolding values cons
  values_first limit msg msgs none e = rw (e, values) refl
  values_first limit msg msgs (some value) e = rw (e, values) refl

  -- Whether `saveE2eMsg` hands a message to kafka, and what.
  handed_cases :
      (msg : E2eMsg) (limit : ℕ)
      → (((save_e2e_msg writer msg limit).0 ≡ none) × (is_handed writer limit msg ≡ false))
        ⊎ ((value : List ℕ) × ((save_e2e_msg writer msg limit).0 ≡ some value)
            × (is_handed writer limit msg ≡ true)
            × (writer.marshal msg ≡ some value)
            × (ltb limit (length value) ≡ false))
  unfolding save_e2e_msg
  handed_cases msg limit = elim (Option-cases (writer.marshal msg)) [
    | inl n ↦ inl (rw (n, save_e2e_msg) refl, rw (n, is_handed) refl)
    | inr (value, e) ↦ elim (Bool-cases (ltb limit (length value))) [
      | inl y ↦ inl (rw (e, save_e2e_msg) (rw y refl), rw (e, is_handed) (rw y refl))
      | inr n ↦ elim (Bool-cases writer.is_nil) [
        | inl gone ↦
            inl (rw (e, save_e2e_msg) (rw (n, gone) refl), rw (e, is_handed) (rw (n, gone) refl))
        | inr there ↦ inr (
          value,
          rw (e, save_e2e_msg) (rw (n, there) (given value (writer.write_messages value))),
          rw (e, is_handed) (rw (n, there) refl),
          e,
          n,
        )
      ]
    ]
  ]
    where
      given :
          (value : List ℕ) (b : Bool)
          → (if◌then◌else◌ {A = Option (List ℕ) × Option SaveError} b
              (some value, none)
              (some value, some write_error)).0
            ≡ some value
      given value true = refl
      given value false = refl

module _ (send : ℕ → LeaderMsg → Sent) (sorter : Sorter) (writer : KafkaWriter) where
  -- The rounds of `Route` over the messages of the hub.
  unfoldable pub receive_all : String → ℤ → List FollowerMsg → PushServer → PushServer
  unfolding receive
  receive_all hub_id now [] s = s
  receive_all hub_id now (msg ∷ msgs) s =
      receive_all hub_id now msgs (receive send sorter writer hub_id msg now s).0

  -- What is handed to kafka of one message.
  add_value : Option (List ℕ) → PushServer → PushServer
  add_value none s = s
  add_value (some value) s = record s { written = s.written ++ value ∷ [] }

  same_add :
      (o : Option (List ℕ)) (s : PushServer)
      → (elim o [ none ↦ s | some value ↦ record s { written = s.written ++ value ∷ [] } ])
        ≡ add_value o s
  unfolding add_value
  same_add none s = refl
  same_add (some value) s = refl

  received :
      (hub_id : String) (now : ℤ) (msg : E2eMsg) (s : PushServer)
      → (receive send sorter writer hub_id (as_follower msg) now s).0
        ≡ add_value (save_e2e_msg writer msg s.event_max_size).0 s
  unfolding receive
  received hub_id now msg s = same_add (save_e2e_msg writer msg s.event_max_size).0 s

  receive_values :
      (hub_id : String) (now : ℤ) (msgs : List E2eMsg) (s : PushServer)
      → (receive_all hub_id now (map as_follower msgs) s).written
        ≡ s.written ++ values writer s.event_max_size msgs
  unfolding receive_all values add_value cons
  receive_values hub_id now [] s = sym (append-nil s.written)
  receive_values hub_id now (msg ∷ msgs) s =
      ap (λ t. (receive_all hub_id now (map as_follower msgs) t).written)
        (received hub_id now msg s)
      ∙ (elim (Option-cases (save_e2e_msg writer msg s.event_max_size).0) [
        | inl n ↦
            ap (λ o. (receive_all hub_id now (map as_follower msgs) (add_value o s)).written) n
            ∙ receive_values hub_id now msgs s
            ∙ ap (◌++◌ s.written) (sym (values_first writer s.event_max_size msg msgs none n))
        | inr (value, e) ↦
            ap (λ o. (receive_all hub_id now (map as_follower msgs) (add_value o s)).written) e
            ∙ receive_values hub_id now msgs (record s { written = s.written ++ value ∷ [] })
            ∙ append_assoc s.written (value ∷ []) (values writer s.event_max_size msgs)
            ∙ ap (◌++◌ s.written)
                (sym (values_first writer s.event_max_size msg msgs (some value) e))
      ])

cons-nil : {A : Type 0} {x : A} {xs : List A} → x ∷ xs ≡ [] → ⊥
cons-nil e = cc

heads : {A : Type 0} {x y : A} {xs ys : List A} → x ∷ xs ≡ y ∷ ys → (x ≡ y) × (xs ≡ ys)
heads e = (cc, cc)

not_longer : (limit n : ℕ) → ltb limit n ≡ false → ltb_ℤ (pos limit) (pos n) ≡ false
not_longer limit n h = ground arith

decoded :
    (unmarshal : List ℕ → Option E2eMsg) (now : ℤ) (m : Message) (s : Storage) (v : E2eMsg)
    (limit : ℕ)
    → s.value_max_bytes ≡ pos limit
    → ltb limit (length m.value) ≡ false
    → unmarshal m.value ≡ some v
    → should_discard now m s ≡ false
    → decode_kafka_msg unmarshal now m s ≡ some v
unfolding decode_kafka_msg
decoded unmarshal now m s v limit same fits e fresh =
    rw (same, not_longer limit (length m.value) fits, e, fresh) refl

-- What a message was made of comes back.
abbrev pub Restores : KafkaWriter → (List ℕ → Option E2eMsg) → Type 0
Restores writer unmarshal =
    (v : E2eMsg) (value : List ℕ) → writer.marshal v ≡ some value → unmarshal value ≡ some v

module _ (writer : KafkaWriter) (unmarshal : List ℕ → Option E2eMsg) (now : ℤ) (storage : Storage)
    (limit : ℕ) where
  abbrev decode : Message → Option E2eMsg
  decode m = decode_kafka_msg unmarshal now m storage

  abbrev IsFresh : Message → Type 0
  IsFresh m = should_discard now m storage ≡ false

  abbrev Decodes : List E2eMsg → List Message → Type 0
  Decodes ims msgs = map decode msgs ≡ map (λ v. some v) (keep (is_handed writer limit) ims)

  skipped :
      (v : E2eMsg) (ims : List E2eMsg) (msgs : List Message)
      → is_handed writer limit v ≡ false
      → Decodes ims msgs
      → Decodes (v ∷ ims) msgs
  skipped v ims msgs out d =
      d
      ∙ ap
          (λ b.
            map (λ v. some v)
              (if b
                then v ∷ keep (is_handed writer limit) ims
                else keep (is_handed writer limit) ims))
          (sym out)

  taken :
      (v : E2eMsg) (m : Message) (ims : List E2eMsg) (msgs : List Message)
      → is_handed writer limit v ≡ true
      → decode m ≡ some v
      → Decodes ims msgs
      → Decodes (v ∷ ims) (m ∷ msgs)
  taken v m ims msgs kept e d =
      ap (λ o. o ∷ map decode msgs) e
      ∙ ap (λ l. some v ∷ l) d
      ∙ ap
          (λ b.
            map (λ v. some v)
              (if b
                then v ∷ keep (is_handed writer limit) ims
                else keep (is_handed writer limit) ims))
          (sym kept)

  decode_all :
      Restores writer unmarshal
      → storage.value_max_bytes ≡ pos limit
      → (ims : List E2eMsg) (msgs : List Message)
      → map (λ m. m.value) msgs ≡ values writer limit ims
      → All IsFresh msgs
      → Decodes ims msgs
  unfolding values cons
  decode_all restores same [] [] e fresh = refl
  decode_all restores same [] (m ∷ msgs) e fresh = absurd (cons-nil e)
  decode_all restores same (v ∷ ims) msgs e fresh = elim (handed_cases writer v limit) [
    | inl (n, out) ↦
        skipped v ims msgs out
          (decode_all restores same ims msgs (e ∙ values_first writer limit v ims none n) fresh)
    | inr (value, given, kept, made, fits) ↦ elim (List-cases msgs) [
      | inl none_left ↦ absurd (
          cons-nil (
            sym (e ∙ values_first writer limit v ims (some value) given)
            ∙ ap (map (λ m. m.value)) none_left))
      | inr (m, rest, split) ↦
          let (first, others) = heads (
            ap (map (λ m. m.value)) (sym split)
            ∙ e
            ∙ values_first writer limit v ims (some value) given) in
          let (fresh_first, fresh_others) = subst (All IsFresh) split fresh in
          subst (Decodes (v ∷ ims)) (sym split) (
            taken v m ims rest kept
              (decoded unmarshal now m storage v limit same (rw first fits)
                (rw first (restores v value made)) fresh_first)
              (decode_all restores same ims rest others fresh_others))
    ]
  ]

module _ (send : ℕ → LeaderMsg → Sent) (sorter : Sorter) (writer : KafkaWriter)
    (unmarshal : List ℕ → Option E2eMsg) where
  module _ {S : Type 0} (conf : WsConf) (store : EventStore S) where
    -- The messages that a client's loop gives to the hub go to the leader, and kafka gives the values
    -- that it was handed, in order, before they are too old. Then what the storage decodes is, in
    -- order, just the client's messages that can be marshaled within the leader's limit, and none if
    -- the leader has no writer to kafka, if the storage has the same limit and unmarshaling restores
    -- what was marshaled.
    pub decode_kafka_msg-recv_loop :
        (uid : ℤ) (reads : List Read) (tests : ℕ) (st : S) (hub : Hub) (hub_id : String)
        (at now : ℤ) (server : PushServer) (storage : Storage) (msgs : List Message)
        → Restores writer unmarshal
        → storage.value_max_bytes ≡ pos server.event_max_size
        → hub.follower_c ≡ []
        → server.written ≡ []
        → map (λ m. m.value) msgs
          ≡ (receive_all send sorter writer hub_id at
              (route_all (recv_loop conf store uid reads tests st).ims hub).follower_c
              server).written
        → All (λ m. should_discard now m storage ≡ false) msgs
        → map (λ m. decode_kafka_msg unmarshal now m storage) msgs
          ≡ map
              (λ v. some v)
              (keep
                (is_handed writer server.event_max_size)
                (recv_loop conf store uid reads tests st).ims)
    decode_kafka_msg-recv_loop uid reads tests st hub hub_id at now server storage msgs restores
          same empty unwritten values_are fresh =
        let ims = (recv_loop conf store uid reads tests st).ims in
        decode_all writer unmarshal now storage server.event_max_size restores same ims msgs
          (values_are
            ∙ ap (λ l. (receive_all send sorter writer hub_id at l server).written)
                (route_all_c ims hub ∙ ap (λ l. l ++ map as_follower ims) empty)
            ∙ receive_values send sorter writer hub_id at ims server
            ∙ ap (λ l. l ++ values writer server.event_max_size ims) unwritten)
          fresh
