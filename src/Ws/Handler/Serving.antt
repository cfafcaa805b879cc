-- ===== src/Ws/Handler/Serving.antt =====
-- What a client gets for its requests: rounds of `recvLoop` of ws/handler.go.
use minipush.Base.{
  ℕ, suc, ◌+◌, ◌≤◌, length, false, Option, none, some, List, [], ◌∷◌, All, ◌≡◌, refl, arith, inl,
  inr, Option-cases,
}
use minipush.Base.Int.{ℤ}
use minipush.Proto.{WsConf, ClientMsg, ServerMsg, Error}
use minipush.Ws.Api.{
  Result, ok, err, EventStore, error_code_internal, new_invalid_argument_error, intercept_error,
}
use minipush.Ws.Handler.{
  SessionData, error, server_msg, Read, read_failed, not_text, text, Served, reply, serve_im, serve,
  recv_round,
}

-- An internal error says nothing of its cause.
abbrev pub HidesCause : Option Error → Type 0
HidesCause none = Unit
HidesCause (some e) = e.code ≡ error_code_internal → e.params ≡ "temp storage error" ∷ []

abbrev pub Hides : SessionData → Type 0
Hides (error _) = Unit
Hides (server_msg msg) = HidesCause msg.error

-- How many messages the peer is sent.
abbrev pub messages : List SessionData → ℕ
messages [] = 0
messages (error _ ∷ l) = messages l
messages (server_msg _ ∷ l) = suc (messages l)

abbrev pub routed : {A : Type 0} → Option A → ℕ
routed none = 0
routed (some _) = 1

-- What holds of a round that serves a request: its messages hide internal causes, and there is one
-- message for the peer or one for the hub. It appends at most twice.
abbrev IsAnswer : {S : Type 0} → Served S → Type 0
IsAnswer served =
    All Hides served.frames
    × (messages served.frames + routed served.im ≡ 1)
    × (served.leaves ≡ false)
    × (length served.frames ≤ 2)

intercept_hides : (e : Error) → HidesCause (some (intercept_error e))
unfolding intercept_error
intercept_hides e = ground arith

reply-IsAnswer :
    {S A : Type 0} (answer : A → ServerMsg) (r : Result A Error × S)
    → ((a : A) → (answer a).error ≡ none)
    → IsAnswer (reply answer r)
unfolding reply
reply-IsAnswer answer (ok a, s) h = ((rw (h a) tt, tt), refl, refl, omega arith)
reply-IsAnswer answer (err e, s) h = ((intercept_hides e, tt), refl, refl, omega arith)

module _ {S : Type 0} (conf : WsConf) (store : EventStore S) where
  serve_im-IsAnswer : (req : ClientMsg) (s : S) → IsAnswer (serve_im conf store req s)
  unfolding serve_im new_invalid_argument_error
  serve_im-IsAnswer req s = ground arith

  serve-IsAnswer : (uid : ℤ) (req : ClientMsg) (s : S) → IsAnswer (serve conf store uid req s)
  unfolding serve
  serve-IsAnswer uid req s = elim (Option-cases req.stats) [
    | inr (v, e) ↦ rw (serve, e) (reply-IsAnswer _ _ (λ a. refl))
    | inl e ↦ elim (Option-cases req.get_events) [
      | inr (v, f) ↦ rw (serve, e, f) (reply-IsAnswer _ _ (λ a. refl))
      | inl f ↦ elim (Option-cases req.set_read) [
        | inr (v, g) ↦ rw (serve, e, f, g) (reply-IsAnswer _ _ (λ a. refl))
        | inl g ↦ elim (Option-cases req.get_read_states) [
          | inr (v, h) ↦ rw (serve, e, f, g, h) (reply-IsAnswer _ _ (λ a. refl))
          | inl h ↦ rw (serve, e, f, g, h) (serve_im-IsAnswer req s)
        ]
      ]
    ]
  ]

  -- A request that can be decoded leads to one message for the peer, or to one message for the hub,
  -- and the loop goes on, after at most two appends; and no message with an internal error names the
  -- cause.
  pub recv_round_answers :
      (uid : ℤ) (req : ClientMsg) (s : S)
      → let served = recv_round conf store uid (text req none) s in
        All Hides served.frames
        × (messages served.frames + routed served.im ≡ 1)
        × (served.leaves ≡ false)
        × (length served.frames ≤ 2)
  unfolding recv_round
  recv_round_answers uid req s = serve-IsAnswer uid req s

  -- Whatever is read, no message with an internal error names the cause.
  pub recv_round-Hides :
      (uid : ℤ) (read : Read) (s : S) → All Hides (recv_round conf store uid read s).frames
  unfolding recv_round new_invalid_argument_error
  recv_round-Hides uid read_failed s = ground arith
  recv_round-Hides uid not_text s = ground arith
  recv_round-Hides uid (text req (some e)) s = ground arith
  recv_round-Hides uid (text req none) s = (serve-IsAnswer uid req s).0
