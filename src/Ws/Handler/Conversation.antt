-- ===== src/Ws/Handler/Conversation.antt =====
-- The whole of `recvLoop` of ws/handler.go over what ReadMessage returns.
use minipush.Base.{
  ℕ, zero, suc, ◌+◌, ◌-◌, ◌*◌, ◌≤◌, Bool, true, false, Option, none, some, List, [], ◌∷◌, ◌++◌,
  take, length, length-append, All, All-append, if◌then◌else◌, ◌≡◌, ◌⊎◌, inl, inr, refl, ap, arith,
}
use minipush.Base.Int.{ℤ}
use minipush.Proto.{WsConf, E2eMsg}
use minipush.Ws.Api.{EventStore}
use minipush.Ws.Handler.{
  SessionData, error, server_msg, Read, read_failed, not_text, text, Served, recv_round,
}
use minipush.Ws.Handler.Serving.{Hides, messages, routed}

-- What the loop has appended to the channel and given to the hub, and whether it has returned.
pub record Conversation (S : Type 0) : Type 0 where
  pub frames : List SessionData
  pub ims : List E2eMsg
  pub left : Bool
  pub state : S

abbrev pub ims_of : Option E2eMsg → List E2eMsg
ims_of none = []
ims_of (some im) = im ∷ []

-- A round and the rest of the loop, if the round has not returned.
abbrev pub and_then : {S : Type 0} → Served S → List SessionData → Conversation S → Conversation S
and_then served appended rest =
    if served.leaves
    then record { frames = appended; ims = ims_of served.im; left = true; state = served.state }
    else record {
      frames = appended ++ rest.frames;
      ims = ims_of served.im ++ rest.ims;
      left = rest.left;
      state = rest.state;
    }

module _ {S : Type 0} (conf : WsConf) (store : EventStore S) where
  -- The loop, up to the last of the reads. The handler may be closed by another goroutine at any time,
  -- and stays so: `tests` is how many times the loop finds `closing` false, in its own guard and in
  -- appendDataChan. An append that finds it true drops its value, and the guard that does ends the loop.
  unfoldable pub recv_loop : ℤ → List Read → ℕ → S → Conversation S
  unfolding recv_round
  recv_loop uid reads zero s = record { frames = []; ims = []; left = true; state = s }
  recv_loop uid [] (suc tests) s = record { frames = []; ims = []; left = false; state = s }
  recv_loop uid (read ∷ reads) (suc tests) s =
      let served = recv_round conf store uid read s in
      and_then served (take tests served.frames)
        (recv_loop uid reads (tests - length served.frames) served.state)

-- How many messages the reads call for: one for each request that can be decoded, up to the first
-- read that is none, and one for that read, unless the connection failed.
abbrev pub owed : List Read → ℕ
owed [] = 0
owed (read_failed ∷ reads) = 0
owed (not_text ∷ reads) = 1
owed (text req (some e) ∷ reads) = 1
owed (text req none ∷ reads) = suc (owed reads)

abbrev pub ends : List Read → Bool
ends [] = false
ends (text req none ∷ reads) = ends reads
ends (_ ∷ reads) = true

messages-append : (xs ys : List SessionData) → messages (xs ++ ys) ≡ messages xs + messages ys
messages-append [] ys = omega arith
messages-append (error e ∷ xs) ys = messages-append xs ys
messages-append (server_msg m ∷ xs) ys = omega (arith, messages-append xs ys)

length-ims_of : (im : Option E2eMsg) → length (ims_of im) ≡ routed im
length-ims_of none = refl
length-ims_of (some im) = refl

-- The messages for the peer and for the hub.
abbrev pub answers : {S : Type 0} → Conversation S → ℕ
answers c = messages c.frames + length c.ims

-- All that is owed; or no more than that, when the handler was found closing.
abbrev pub Answers : {S : Type 0} → ℕ → ℕ → Bool → ℕ → Conversation S → Type 0
Answers rounds tests end n c =
    All Hides c.frames
    × (((answers c ≡ n) × (c.left ≡ end))
        ⊎ ((answers c ≤ n) × (c.left ≡ true) × (tests ≤ 3 * rounds)))

one_more :
    (a b : List SessionData) (im : Option E2eMsg) (l : List E2eMsg)
    → messages (a ++ b) + length (ims_of im ++ l)
      ≡ (messages a + routed im) + (messages b + length l)
one_more a b im l =
    omega (arith, messages-append a b, length-append (ims_of im) l, length-ims_of im)

take_all : (n : ℕ) (l : List SessionData) → length l ≤ n → take n l ≡ l
take_all zero [] h = refl
take_all zero (x ∷ l) h = absurd (omega arith)
take_all (suc n) [] h = refl
take_all (suc n) (x ∷ l) h = ap (λ t. x ∷ t) (take_all n l (omega arith))

-- A round that does not, and the rest of the loop: nothing is dropped, or something.
module _ {S : Type 0} (served : Served S) (tests rounds n : ℕ) (end : Bool)
    (rest : Conversation S) where
  appended :
      served.leaves ≡ false
      → length served.frames ≤ tests
      → All Hides served.frames
      → messages served.frames + routed served.im ≡ 1
      → length served.frames ≤ 2
      → Answers rounds (tests - length served.frames) end n rest
      → Answers
          (suc rounds)
          (suc tests)
          end
          (suc n)
          (and_then served (take tests served.frames) rest)
  appended stays room hides one short (more, inl (count, left)) =
      rw (stays, take_all tests served.frames room)
        (
          All-append Hides served.frames rest.frames hides more,
          inl (omega (arith, one_more served.frames rest.frames served.im rest.ims), left),
        )
  appended stays room hides one short (more, inr (count, left, few)) =
      rw (stays, take_all tests served.frames room)
        (
          All-append Hides served.frames rest.frames hides more,
          inr (
            omega (arith, one_more served.frames rest.frames served.im rest.ims),
            left,
            omega arith,
          ),
        )
