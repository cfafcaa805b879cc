-- ===== src/Ws/Handler.antt =====
-- One websocket connection: `Handler` of ws/handler.go. The connection (gorilla/websocket) is given
-- from outside, by what its reads and writes return; so is the JSON decoder. A run of a function
-- under the handler's lock is one step. A flag tells whether the hub is asked
-- to remove the handler.
pub mod Serving
pub mod Closing
pub mod Refusing
pub mod Conversation
use Prim.Native.String.{◌++◌ as append}
use minipush.Base.{
  ℕ, ◌+◌, Bool, true, false, String, Option, none, some, List, [], ◌∷◌, ◌++◌, ltb, length,
  if◌then◌else◌, ◌≡◌,
}
use minipush.Base.Int.{ℤ, pos}
use minipush.Proto.{WsConf, ClientMsg, ServerMsg, no_server_msg, Session, E2eMsg, Error}
use minipush.Ws.Api.{
  Result, ok, err, EventStore, error_code_invalid_arguments, new_invalid_argument_error,
  intercept_error, stats, get_events, set_read, get_read_states,
}

pub data SessionError : Type 0 where
  read_error write_error ping_error bad_request server_stop kicked_off : SessionError

-- SessionData: an error, or a message for the peer.
pub data SessionData : Type 0 where
  error : SessionError → SessionData
  server_msg : ServerMsg → SessionData

-- `data_chan` is the buffered channel, oldest first; `conn_open` and `chan_open` tell what `close`
-- has closed.
pub record Handler : Type 0 where
  pub session : Session
  pub data_chan : List SessionData
  pub closing : Bool
  pub conn_open : Bool
  pub chan_open : Bool

-- make(chan *SessionData, 16)
abbrev pub data_chan_cap : ℕ
data_chan_cap = 16

unfoldable pub new_handler : Session → Handler
new_handler session = record {
  session = session;
  data_chan = [];
  closing = false;
  conn_open = true;
  chan_open = true;
}

-- `none`: the send blocks, and the handler's lock stays taken.
unfoldable pub append_data_chan : SessionData → Handler → Option Handler
append_data_chan v h =
    if h.closing
    then some h
    else if ltb (length h.data_chan) data_chan_cap
    then some (record h { data_chan = h.data_chan ++ v ∷ [] })
    else none

unfoldable pub is_server_stop : SessionError → Bool
is_server_stop server_stop = true
is_server_stop _ = false

-- The flag is true if the hub is asked to remove the handler.
unfoldable pub close : SessionError → Handler → Handler × Bool
unfolding is_server_stop
close cause h = if h.closing then (h, false) else (
  record h { closing = true; conn_open = false; chan_open = false },
  if is_server_stop cause then false else true,
)

-- What ReadMessage returns: an error, a message that is no text, or a text, as json.Unmarshal reads
-- it: the request, with the text of the error if there was one.
pub data Read : Type 0 where
  read_failed : Read
  not_text : Read
  text : ClientMsg → Option String → Read

-- What one round of `recvLoop` does: what it appends to the channel, the message that it gives to
-- the hub, and whether the loop is left.
pub record Served (S : Type 0) : Type 0 where
  pub frames : List SessionData
  pub im : Option E2eMsg
  pub leaves : Bool
  pub state : S

abbrev pub error_frame : Error → SessionData
error_frame e = server_msg (record no_server_msg { error = some e })

abbrev pub not_supported : Error
not_supported = record {
  code = error_code_invalid_arguments;
  params = "feature is not supported" ∷ [];
  req = none;
}

-- The two ends of each branch that calls the API.
unfoldable pub reply : {S A : Type 0} → (A → ServerMsg) → Result A Error × S → Served S
unfolding intercept_error
reply answer (ok resp, s) = record {
  frames = server_msg (answer resp) ∷ [];
  im = none;
  leaves = false;
  state = s;
}
reply answer (err e, s) = record {
  frames = error_frame (intercept_error e) ∷ [];
  im = none;
  leaves = false;
  state = s;
}

module _ {S : Type 0} (conf : WsConf) (store : EventStore S) where
  -- The chain of tests on the fields of the request.
  unfoldable pub serve_im : ClientMsg → S → Served S
  unfolding new_invalid_argument_error
  serve_im req s = elim req.im [
    | some v ↦
        if conf.enable_client_msg
        then record { frames = []; im = some v; leaves = false; state = s }
        else record {
          frames = error_frame not_supported ∷ [];
          im = none;
          leaves = false;
          state = s;
        }
    | none ↦ record {
      frames =
          error_frame (new_invalid_argument_error (some req) ("unsupported request" ∷ []))
          ∷ error bad_request
          ∷ [];
      im = none;
      leaves = false;
      state = s;
    }
  ]

  unfoldable pub serve : ℤ → ClientMsg → S → Served S
  unfolding reply serve_im stats get_events set_read get_read_states
  serve uid req s = elim req.stats [
    | some v ↦ reply (λ r. record no_server_msg { stats = some r }) (stats conf store uid v s)
    | none ↦ elim req.get_events [
      | some v ↦
          reply (λ r. record no_server_msg { get_events = some r }) (get_events conf store uid v s)
      | none ↦ elim req.set_read [
        | some v ↦
            reply (λ r. record no_server_msg { set_read = some r }) (set_read conf store uid v s)
        | none ↦ elim req.get_read_states [
          | some v ↦
              reply (λ r. record no_server_msg { get_read_states = some r })
                (get_read_states conf store uid v s)
          | none ↦ serve_im req s
        ]
      ]
    ]
  ]

  -- One round of `recvLoop`.
  unfoldable pub recv_round : ℤ → Read → S → Served S
  unfolding serve new_invalid_argument_error
  recv_round uid read_failed s = record {
    frames = error read_error ∷ [];
    im = none;
    leaves = true;
    state = s;
  }
  recv_round uid not_text s = record {
    frames =
        error_frame (new_invalid_argument_error none ("websocket only supports TextMessage" ∷ []))
        ∷ error bad_request
        ∷ [];
    im = none;
    leaves = true;
    state = s;
  }
  recv_round uid (text req (some e)) s = record {
    frames =
        error_frame (new_invalid_argument_error (some req) (append "marshal error: " e ∷ []))
        ∷ error bad_request
        ∷ [];
    im = none;
    leaves = true;
    state = s;
  }
  recv_round uid (text req none) s = serve uid req s

-- How a round of `sendLoop` ends: the loop goes on, or it returns. A panic is not reached, since
-- `SessionData` holds an error or a message.
pub data SendRound : Type 0 where
  goes_on returns : SendRound

-- What the channel gives, for a write that succeeds or fails; `none` if the round blocks. The flag
-- tells whether the hub is asked to remove the handler.
abbrev pub after_append : Option Handler → Option (Handler × Bool × SendRound)
after_append none = none
after_append (some h) = some (h, false, returns)

unfoldable pub send_value : Bool → SessionData → Handler → Option (Handler × Bool × SendRound)
unfolding close append_data_chan
send_value written (error e) h = let (h', asks) = close e h in some (h', asks, returns)
send_value written (server_msg msg) h =
    if written
    then (if msg.kickoff
        then (let (h', asks) = close kicked_off h in some (h', asks, goes_on))
        else some (h, false, goes_on))
    else after_append (append_data_chan (error write_error) h)

-- The first case of the select: `none` also if the channel is open and empty.
unfoldable pub send_round : Bool → Handler → Option (Handler × Bool × SendRound)
unfolding send_value
send_round written h = elim h.data_chan [
  | [] ↦ if h.chan_open then none else some (record h { conn_open = false }, false, returns)
  | v ∷ rest ↦ send_value written v (record h { data_chan = rest })
]

-- The ticker's case of the select.
unfoldable pub ping_round : Bool → Handler → Option (Handler × Bool × SendRound)
unfolding append_data_chan
ping_round written h =
    if written
    then some (h, false, goes_on)
    else after_append (append_data_chan (error ping_error) h)
