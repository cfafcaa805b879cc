-- ===== src/Examples/Together.antt =====
-- The theorems on the parts together at concrete inputs.
use minipush.Base.{
  Bool, Bool-cases, List, Option, String, [], ap, arith, false, if◌then◌else◌, inl, inr, keep,
  length, map, none, refl, some, subst, sym, true, ℕ, ◌&&◌, ◌++◌, ◌∙◌, ◌∷◌, ◌≡◌, ◌≤◌, ◌⊎◌,
}
use minipush.Base.Int.{ℤ, InInt32, pos, negsuc, ◌+ℤ◌, ◌-ℤ◌, wrap32, wrap64}
use minipush.Base.Keys.{◌==◌, int_eq, string_eq, eq_iff}
use minipush.Base.Dict.{get, put, has}
use minipush.Base.Results.{err}
use minipush.Proto.{WsConf, Session, E2eMsg, LeaderMsg, no_client_msg, no_follower_msg}
use minipush.Store.Events.{save}
use minipush.Store.Events.Sequences.{head_of}
use minipush.Cluster.Messages.{KafkaWriter}
use minipush.Cluster.Server.{Sent, delivered, new_push_server}
use minipush.Cluster.Storage.{
  UserSeq, Cache, Message, Storage, new_cache, check, is_due, put_cache, decode_kafka_msg,
  should_discard, days_span, since,
}
use minipush.Cluster.Storage.Growing.{save_and_put, put_saved, Reach}
use minipush.Cluster.Standalone.{Standalone, receive}
use minipush.Ws.Api.{EventStore}
use minipush.Ws.Handler.{Handler, Read, text, recv_round}
use minipush.Ws.Handler.Conversation.{recv_loop}
use minipush.Ws.Hub.{Hub, on_leader_msg, head_seq_value, get_by_uid, route_client_msg}
use minipush.Ws.Hub.{forbidden, serving, serve_http, add_handler}
use minipush.Ws.Auth.{auth, uid_of, FitsInt32, serve_http-auth}
use minipush.System.Delivery.{on_leader_msg-save}
use minipush.System.Arriving.{route_all, receive_all, is_handed, decode_kafka_msg-recv_loop}
use minipush.System.Quota.{on_leader_msgs, on_leader_msgs-receive}
use minipush.Examples.Insertion.{insertion}
use minipush.Examples.Tables.{tables, old, event, lawful, old-Fits, gives, after, saved}

abbrev conf : WsConf
conf = record {
  event_ttl_days = pos 30;
  get_events_limit = pos 100;
  enable_client_msg = true;
  max_msg_size = pos 4096;
}

abbrev session : String → Session
session sid = record {
  hub_id = "";
  uid = pos 7;
  sid = sid;
  ip = "10.0.0.1";
  create_time = pos 5;
  kickoff_time = pos 0;
}

abbrev handler : String → Handler
handler sid = record {
  session = session sid;
  data_chan = [];
  closing = false;
  conn_open = true;
  chan_open = true;
}

abbrev hub : Hub
hub = record {
  ws_conf = conf;
  handlers = ("a", handler "a") ∷ ("b", handler "b") ∷ [];
  online = true;
  follower_c = [];
}

-- The cache after the first save.
abbrev entry : UserSeq
entry = record { head_seq = pos 4; counter = pos 1; cache_time = 60000 }

abbrev cached : Cache
cached = record {
  kv = (pos 7, entry) ∷ (pos 8, record entry { head_seq = pos 1 }) ∷ [];
  sending = false;
  push_chan = [];
}

put_first : save_and_put tables event 60000 old new_cache ≡ some (after, cached)
unfolding save put_saved put_cache new_cache get put has ◌+ℤ◌ wrap32
put_first = refl

entry_due : is_due 9000000000 entry ≡ true
unfolding is_due
entry_due = refl

on_leader_msg-save_example :
    (msg : LeaderMsg) × ((check 9000000000 cached).push_chan ≡ [] ++ msg ∷ [])
    × ((hub' : Hub) × (on_leader_msg msg hub ≡ some hub')
        × (get "a" hub'.handlers
            ≡ some (record (handler "a") {
              data_chan = [] ++ head_seq_value (pos (head_of lawful (pos 7) after)) ∷ [];
            })))
unfolding get
on_leader_msg-save_example =
    on_leader_msg-save tables lawful event 60000 9000000000 gives old after new_cache cached (pos 7)
      (pos 4) entry "a" (handler "a") hub (Reach.start old) old-Fits saved refl put_first refl
      entry_due refl (refl, (refl, tt)) (inr (omega arith), (inr (omega arith), tt)) refl refl refl

-- JSON for messages with one recipient, and no other text.
abbrev greeting : ℕ → E2eMsg
greeting n = record { kind = "t"; from = pos 7; to = pos n ∷ []; props = []; body = "b" }

abbrev pack : Bool → List ℤ → List (String × String) → Option (List ℕ)
pack true (pos n ∷ []) [] = some (n ∷ [])
pack _ _ _ = none

abbrev is_greeting : E2eMsg → Bool
is_greeting v = v.kind == "t" && (v.body == "b" && v.from == pos 7)

abbrev marshal : E2eMsg → Option (List ℕ)
marshal v = pack (is_greeting v) v.to v.props

abbrev unmarshal : List ℕ → Option E2eMsg
unmarshal (n ∷ []) = some (greeting n)
unmarshal _ = none

abbrev writer : KafkaWriter
writer = record { is_nil = false; marshal = marshal; write_messages = λ value. true }

none-some : {value : List ℕ} → ◌≡◌ {A = Option (List ℕ)} none (some value) → ⊥
none-some e = cc

some_eq : {a b : List ℕ} → some a ≡ some b → a ≡ b
some_eq e = cc

both : (a b c : Bool) → a && (b && c) ≡ true → (a ≡ true) × (b ≡ true) × (c ≡ true)
both a b c e = ground (arith, e)

same_msg :
    (v : E2eMsg) (n : ℕ) → is_greeting v ≡ true → v.to ≡ pos n ∷ [] → v.props ≡ [] → greeting n ≡ v
same_msg v n e f g =
    let (kind, body, sender) = both (v.kind == "t") (v.body == "b") (v.from == pos 7) e in
    alike v n ((eq_iff v.kind "t").0 kind) ((int_eq.same_iff v.from (pos 7)).0 sender) f g
      ((eq_iff v.body "b").0 body)
  where
    alike :
        (v : E2eMsg) (n : ℕ)
        → v.kind ≡ "t"
        → v.from ≡ pos 7
        → v.to ≡ pos n ∷ []
        → v.props ≡ []
        → v.body ≡ "b"
        → greeting n ≡ v
    alike v n a b c d e = cc

restored :
    (b : Bool) (v : E2eMsg) (to : List ℤ) (props : List (String × String)) (value : List ℕ)
    → is_greeting v ≡ b
    → v.to ≡ to
    → v.props ≡ props
    → pack b to props ≡ some value
    → unmarshal value ≡ some v
restored false v to props value e f g h = absurd (none-some h)
restored true v [] props value e f g h = absurd (none-some h)
restored true v (negsuc n ∷ to) props value e f g h = absurd (none-some h)
restored true v (pos n ∷ (x ∷ to)) props value e f g h = absurd (none-some h)
restored true v (pos n ∷ []) (p ∷ props) value e f g h = absurd (none-some h)
restored true v (pos n ∷ []) [] value e f g h =
    ap unmarshal (sym (some_eq h)) ∙ ap (λ m. some m) (same_msg v n e f g)

-- The last of the three messages is not one that is marshaled.
abbrev reads : List Read
reads =
    text (record no_client_msg { im = some (greeting 9) }) none
    ∷ text (record no_client_msg { im = some (greeting 12) }) none
    ∷ text (record no_client_msg { im = some (record (greeting 9) { body = "no" }) }) none
    ∷ []

abbrev failing : EventStore Unit
failing = record {
  stats = λ _ _ _ s. (err "no rows", s);
  get_events = λ _ _ s. (err "no rows", s);
  set_read = λ _ _ s. (err "no rows", s);
  get_read_states = λ _ _ _ s. (err "no rows", s);
}

-- All streams take what they are sent.
abbrev send : ℕ → LeaderMsg → Sent
send stream msg = delivered

abbrev storage : Storage
storage = record {
  clean_events = true;
  del_events_ttl_days = pos 30;
  value_max_bytes = pos 4096;
  cache = record { kv = []; sending = false; push_chan = [] };
}

abbrev message : ℤ → ℕ → Message
message offset n = record { offset = offset; time = pos 1000; value = n ∷ [] }

abbrev msgs : List Message
msgs = message (pos 1) 9 ∷ message (pos 2) 12 ∷ []

decode_kafka_msg-recv_loop_example :
    map (λ m. decode_kafka_msg unmarshal (pos 2000) m storage) msgs
    ≡ map
        (λ v. some v)
        (keep (is_handed writer 4096) (recv_loop conf failing (pos 7) reads 9 tt).ims)
unfolding new_push_server recv_loop recv_round receive_all route_all route_client_msg should_discard
    days_span since wrap64 ◌-ℤ◌
decode_kafka_msg-recv_loop_example =
    decode_kafka_msg-recv_loop send insertion writer unmarshal conf failing (pos 7) reads 9 tt hub
      "h" (pos 50) (pos 2000) (new_push_server 2 4096) storage msgs
      (λ v value h. restored (is_greeting v) v v.to v.props value refl refl refl h) refl refl refl
      refl (refl, (refl, tt))

-- Two sessions stay of three.
abbrev node : Standalone
node = record {
  session_quota = 2;
  event_payload_max_bytes = 4096;
  sessions = ("a", session "a") ∷ ("b", session "b") ∷ [];
  send_msg_chan = [];
  written = [];
}

abbrev full : Hub
full = record hub { handlers = ("c", handler "c") ∷ ("a", handler "a") ∷ ("b", handler "b") ∷ [] }

on_leader_msgs-receive_example :
    (hub' : Hub) × (on_leader_msgs
        (receive insertion writer
          (record no_follower_msg { session_online = some (session "c") })
          (pos 50)
          node).0.send_msg_chan
        full
      ≡ some hub')
    × (length (get_by_uid (pos 7) hub'.handlers) ≤ 2)
unfolding get put
on_leader_msgs-receive_example =
    on_leader_msgs-receive insertion writer (session "c") (pos 50) node full
      ((refl, (refl, tt)), (refl, (refl, tt))) refl (refl, (refl, (refl, tt)))
      (inr (omega arith), (inr (omega arith), (inr (omega arith), tt)))
      ((session "c", refl, refl), ((session "a", refl, refl), ((session "b", refl, refl), tt)))

abbrev parse_seven : String → Option ℤ
parse_seven s = if s == "7" then some (pos 7) else none

seven-FitsInt32 : FitsInt32 parse_seven
seven-FitsInt32 s uid e = elim (Bool-cases (s == "7")) [
  | inl y ↦ subst InInt32 (same (rw y at e)) (omega arith, omega arith)
  | inr n ↦ absurd (nothing (rw n at e))
]
  where
    same : some (pos 7) ≡ some uid → pos 7 ≡ uid
    same q = cc

    nothing : none ≡ some uid → ⊥
    nothing q = cc

serve_http-auth_example :
    (serve_http (uid_of (auth parse_seven (some "7"))) "c" (pos 50) "10.0.0.1" true hub
      ≡ (hub, forbidden))
    ⊎ ((s : String) × (uid : ℤ) × (some "7" ≡ some s)
        × (parse_seven s ≡ some uid)
        × ((v : Handler) × (serve_http
                (uid_of (auth parse_seven (some "7")))
                "c"
                (pos 50)
                "10.0.0.1"
                true
                hub
              ≡ (add_handler v hub, serving))
            × (get "c" (add_handler v hub).handlers ≡ some v)
            × (v.session.uid ≡ uid)))
serve_http-auth_example =
    serve_http-auth parse_seven (some "7") "c" (pos 50) "10.0.0.1" hub seven-FitsInt32 refl
