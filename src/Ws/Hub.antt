-- ===== src/Ws/Hub.antt =====
-- The hub of a node: `Hub` of ws/hub.go and `HandlerStore` of ws/hstore.go. `follower_c` lists what
-- was sent to the cluster. A handler that is deleted from the store lives on in its two loops.
pub mod Sync
pub mod Heard
pub mod Led
pub mod Routing
pub mod Kickoff
pub mod Address
pub mod Telling
use minipush.Base.{
  ℕ, ◌+◌, ◌-◌, Bool, true, false, String, Option, none, some, List, [], ◌∷◌, ◌++◌, map, ltb, leb,
  length, take, drop, zero, suc, if◌then◌else◌, ◌≡◌,
}
use minipush.Base.Int.{ℤ, pos}
use minipush.Base.Keys.{◌==◌, int_eq, string_eq}
use minipush.Base.Options.{◌>>=◌}
use minipush.Base.Dict.{get, put, delete, has}
use minipush.Proto.{
  WsConf, Session, E2eMsg, FollowerMsg, no_follower_msg, LeaderMsg, ServerMsg, no_server_msg,
}
use minipush.Ws.Handler.{
  Handler, new_handler, SessionData, server_msg, SessionError, server_stop, append_data_chan, close,
}

abbrev pub Handlers : Type 0
Handlers = List (String × Handler)

pub record Hub : Type 0 where
  pub ws_conf : WsConf
  pub handlers : Handlers
  pub online : Bool
  pub follower_c : List FollowerMsg

unfoldable pub new_hub : WsConf → Hub
new_hub ws_conf = record { ws_conf = ws_conf; handlers = []; online = false; follower_c = [] }

-- h.followerC <- msg
abbrev pub send_up : FollowerMsg → Hub → Hub
send_up msg h = record h { follower_c = h.follower_c ++ msg ∷ [] }

-- HandlerStore.add, .del, .getByUid, .shallowCopySessions and .close.
abbrev pub store_add : Handler → Handlers → Handlers
store_add handler hs = put handler.session.sid handler hs

abbrev pub store_del : String → Handlers → Handlers × Bool
store_del sid hs = elim (get sid hs) [ none ↦ (hs, false) | some _ ↦ (delete sid hs, true) ]

unfoldable pub get_by_uid : ℤ → Handlers → List String
get_by_uid uid [] = []
get_by_uid uid ((sid, h) ∷ hs) =
    let out = get_by_uid uid hs in if h.session.uid == uid then sid ∷ out else out

unfoldable pub shallow_copy_sessions : Handlers → List Session
shallow_copy_sessions [] = []
shallow_copy_sessions ((_, h) ∷ hs) = h.session ∷ shallow_copy_sessions hs

unfoldable pub close_all : Handlers → Handlers
close_all [] = []
close_all ((sid, h) ∷ hs) = (sid, (close server_stop h).0) ∷ close_all hs

unfoldable pub add_handler : Handler → Hub → Hub
add_handler handler h =
    send_up (record no_follower_msg { session_online = some handler.session })
      (record h { handlers = store_add handler h.handlers })

unfoldable pub del_handler : String → Hub → Hub
del_handler sid h =
    let (hs, found) = store_del sid h.handlers in
    if found
    then send_up (record no_follower_msg { session_offline = sid }) (record h { handlers = hs })
    else h

unfoldable pub route_client_msg : E2eMsg → Hub → Hub
route_client_msg msg h = send_up (record no_follower_msg { e2e_msg = some msg }) h

-- The handler of a session is given a value; `none` if that blocks.
unfoldable pub append_to : String → SessionData → Hub → Option Hub
append_to sid v h = elim (get sid h.handlers) [
  | none ↦ some h
  | some handler ↦ do
    handler' ← append_data_chan v handler
    some (record h { handlers = put sid handler' h.handlers })
]

abbrev pub kickoff_value : SessionData
kickoff_value = server_msg (record no_server_msg { kickoff = true })

abbrev pub head_seq_value : ℤ → SessionData
head_seq_value seq = server_msg (record no_server_msg { head_seq = seq })

-- `Kickoff`, and the body of the loop of `Run` over the session ids.
unfoldable pub kickoff : String → Hub → Option Hub
unfolding append_to
kickoff sid h = elim (get sid h.handlers) [
  | none ↦ some h
  | some _ ↦ do
    h' ← append_to sid kickoff_value h
    some (record h' { handlers = (store_del sid h'.handlers).0 })
]

unfoldable pub kickoff_all : List String → Hub → Option Hub
unfolding kickoff
kickoff_all [] h = some h
kickoff_all (sid ∷ sids) h = do h' ← kickoff sid h; kickoff_all sids h'

unfoldable pub append_each : List String → SessionData → Hub → Option Hub
append_each [] v h = some h
append_each (sid ∷ sids) v h = do h' ← append_to sid v h; append_each sids v h'

unfoldable pub tell_head_seqs : List (ℤ × ℤ) → Hub → Option Hub
unfolding append_each
tell_head_seqs [] h = some h
tell_head_seqs ((uid, seq) ∷ rest) h = do
  h' ← append_each (get_by_uid uid h.handlers) (head_seq_value seq) h
  tell_head_seqs rest h'

-- A message of the leader, in the loop of `Run`.
unfoldable pub on_leader_msg : LeaderMsg → Hub → Option Hub
unfolding kickoff_all tell_head_seqs
on_leader_msg msg h =
    if ltb 0 (length msg.kickoff)
    then kickoff_all msg.kickoff h
    else if ltb 0 (length msg.head_seq)
    then tell_head_seqs msg.head_seq h
    else some h

-- The stop of `Run`.
unfoldable pub on_done : Hub → Hub
unfolding close_all
on_done h = record h { handlers = close_all h.handlers }

-- for i := 0; i < size; i += batch, with the sessions from `i` on; `fuel` bounds the rounds.
abbrev pub batch : ℕ
batch = 1000

unfoldable pub sync_batches : ℕ → List Session → List FollowerMsg
sync_batches zero sessions = []
sync_batches (suc fuel) sessions =
    let rest = sync_batches fuel (drop batch sessions) in
    if ltb 0 (length sessions)
    then record no_follower_msg { sync_sessions = take batch sessions } ∷ rest
    else []

unfoldable pub go_online : Hub → Hub
unfolding sync_batches shallow_copy_sessions
go_online h =
    let sessions = shallow_copy_sessions h.handlers in
    record h { online = true; follower_c = h.follower_c ++ sync_batches (length sessions) sessions }

unfoldable pub go_offline : Hub → Hub
go_offline h = record h { online = false }

-- What `ServeHTTP` answers: an HTTP error, the upgrader's own answer, or a connection that is served.
pub data Served : Type 0 where
  unavailable forbidden upgrade_failed serving : Served

-- `auth` is the answer of the authentication; `sid`, `now`, `ip` and `upgraded` are the new session
-- id, the clock, the peer's address and the success of the upgrade.
unfoldable pub serve_http : Option ℤ → String → ℤ → String → Bool → Hub → Hub × Served
unfolding add_handler new_handler
serve_http auth sid now ip upgraded h =
    if h.online
    then (elim auth [
      | none ↦ (h, forbidden)
      | some uid ↦
          let sess : Session = record {
            hub_id = "";
            uid = uid;
            sid = sid;
            ip = ip;
            create_time = now;
            kickoff_time = pos 0;
          } in
          if upgraded then (add_handler (new_handler sess) h, serving) else (h, upgrade_failed)
    ])
    else (h, unavailable)
