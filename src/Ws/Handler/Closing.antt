-- ===== src/Ws/Handler/Closing.antt =====
-- The end of a connection: `close` and `sendLoop` of ws/handler.go.
use minipush.Base.{
  ◌+◌, ◌≤◌, ◌<◌, false, Option, none, some, List, [], ◌∷◌, ◌++◌, length, length-append, ltb, ◌≡◌,
  arith, inl, inr, Bool-cases,
}
use minipush.Base.Options.{◌>>=◌}
use minipush.Proto.{ServerMsg}
use minipush.Ws.Handler.{
  SessionError, SessionData, server_msg, error, write_error, Handler, data_chan_cap,
  append_data_chan, close, send_value, returns,
}

-- A second call of `close` changes nothing and does not ask the hub again, whatever the two causes.
pub close_idem :
    (cause cause' : SessionError) (h : Handler)
    → close cause' (close cause h).0 ≡ ((close cause h).0, false)
unfolding close
close_idem cause cause' h = ground arith

-- Values appended one after another, by whoever holds the handler.
abbrev pub append_all : List SessionData → Handler → Option Handler
append_all [] h = some h
append_all (v ∷ vs) h = do h' ← append_data_chan v h; append_all vs h'

append_room :
    (v : SessionData) (h : Handler)
    → h.closing ≡ false
    → length h.data_chan < data_chan_cap
    → append_data_chan v h ≡ some (record h { data_chan = h.data_chan ++ v ∷ [] })
unfolding append_data_chan
append_room v h c lt = ground arith

append_full :
    (v : SessionData) (h : Handler)
    → h.closing ≡ false
    → data_chan_cap ≤ length h.data_chan
    → append_data_chan v h ≡ none
unfolding append_data_chan
append_full v h c le = ground arith

append_all_blocks :
    (vs : List SessionData) (h : Handler)
    → h.closing ≡ false
    → length h.data_chan ≤ data_chan_cap
    → data_chan_cap < length h.data_chan + length vs
    → append_all vs h ≡ none
append_all_blocks [] h c le lt = absurd (omega arith)
append_all_blocks (v ∷ vs) h c le lt = elim (Bool-cases (ltb (length h.data_chan) data_chan_cap)) [
  | inl room ↦
      let size = length-append h.data_chan (v ∷ []) in
      rw (append_room v h c (ground arith)) (
        append_all_blocks vs (record h { data_chan = h.data_chan ++ v ∷ [] }) c
          (ground (arith, size)) (omega (arith, size)))
  | inr full ↦ rw (append_full v h c (ground arith))
]

-- When a write fails and the channel has room, `sendLoop` returns without closing the handler and
-- without asking the hub to remove it. Nobody reads the channel from then on: once as many values
-- are appended as fill it, the next append blocks with the handler's lock taken.
pub send_value_stranded :
    (msg : ServerMsg) (h : Handler) (vs : List SessionData)
    → h.closing ≡ false
    → length h.data_chan < data_chan_cap
    → data_chan_cap ≤ length h.data_chan + length vs
    → (h' : Handler) × (send_value false (server_msg msg) h ≡ some (h', false, returns))
      × (h'.closing ≡ false)
      × (append_all vs h' ≡ none)
unfolding send_value append_data_chan
send_value_stranded msg h vs c lt le = (
  record h { data_chan = h.data_chan ++ error write_error ∷ [] },
  ground arith,
  c,
  append_all_blocks vs (record h { data_chan = h.data_chan ++ error write_error ∷ [] }) c
      (omega (arith, length-append h.data_chan (error write_error ∷ [])))
      (omega (arith, length-append h.data_chan (error write_error ∷ []))),
)
