-- ===== src/Cluster/Node/Order.antt =====
-- A node of cluster/cluster.go with one role: its loops pass the messages on in order.
use mathlib.Core.List.{append_assoc}
use minipush.Base.{
  Bool, true, false, not, Option, none, some, List, [], ◌∷◌, ◌++◌, ltb, length, if◌then◌else◌, ◌≡◌,
  refl, sym, ap, subst, ◌∙◌, inl, inr, Bool-cases, List-cases,
}
use minipush.Proto.{LeaderMsg}
use minipush.Cluster.Node.{
  Roles, Node, new_cluster, send_msg_chan_cap, send_msg, storage_sends, server_takes, hub_takes,
  client_round, client_receives, Reach, start, storage, server, arrives, hub, client, errors,
}

-- What the role has passed on, what it still has to, and what there was, in one equation.
abbrev IsInOrder : Roles → Node → Type 0
IsInOrder roles n =
    (roles.run_follower ≡ false → n.sent ++ n.send_msg_chan ≡ n.produced)
    × (roles.run_leader ≡ false
        → n.client_runs ≡ true
        → n.handled ++ (n.send_msg_chan ++ n.from_leader) ≡ n.produced)

no : {A : Type 0} (b : Bool) → b ≡ true → b ≡ false → A
no b y n = absurd (clash (sym y ∙ n))
  where
    clash : true ≡ false → ⊥
    clash e = cc

start_order : (roles : Roles) → IsInOrder roles new_cluster
unfolding new_cluster
start_order roles = (λ e. refl, λ e r. refl)

-- Of the node after a step that does not block.
abbrev Holds : (Node → Type 0) → Option Node → Type 0
Holds P none = Unit
Holds P (some n) = P n

at_some : (P : Node → Type 0) (o : Option Node) (n : Node) → Holds P o → o ≡ some n → P n
at_some P o n h e = subst (Holds P) e h

either-Holds :
    (P : Node → Type 0) (b : Bool) (x y : Option Node)
    → Holds P x
    → Holds P y
    → Holds P (if b then x else y)
either-Holds P true x y h k = h
either-Holds P false x y h k = k

send_msg-Holds :
    (P : Node → Type 0) (msg : LeaderMsg) (n : Node)
    → P (record n { send_msg_chan = n.send_msg_chan ++ msg ∷ [] })
    → Holds P (send_msg msg n)
unfolding send_msg
send_msg-Holds P msg n h = elim (Bool-cases (ltb (length n.send_msg_chan) send_msg_chan_cap)) [
  | inl y ↦ rw y h
  | inr f ↦ rw f tt
]

-- The element between the two lists, on the side of the one or of the other.
shift : {A : Type 0} (xs : List A) (x : A) (ys : List A) → (xs ++ x ∷ []) ++ ys ≡ xs ++ x ∷ ys
shift xs x ys = append_assoc xs (x ∷ []) ys

module _ (roles : Roles) where
  storage_order :
      (msg : LeaderMsg) (n : Node)
      → roles.run_leader ≡ true
      → IsInOrder roles n
      → Holds (IsInOrder roles) (storage_sends msg n)
  unfolding storage_sends
  storage_order msg n leads (o, p) = send_msg-Holds (IsInOrder roles) msg _ (
    λ q. sym (append_assoc n.sent n.send_msg_chan (msg ∷ [])) ∙ ap (λ l. l ++ msg ∷ []) (o q),
    λ q. no roles.run_leader leads q,
  )

  server_order :
      (n : Node)
      → roles.run_leader ≡ true
      → IsInOrder roles n
      → Holds (IsInOrder roles) (server_takes roles n)
  unfolding server_takes
  server_order n leads (o, p) = elim (List-cases n.send_msg_chan) [
    | inl e ↦ rw (e, server_takes) tt
    | inr (msg, rest, e) ↦
        rw (e, server_takes)
          (
            λ q. shift n.sent msg rest ∙ ap (λ l. n.sent ++ l) (sym e) ∙ o q,
            λ q. no roles.run_leader leads q,
          )
  ]

  hub_order :
      (n : Node)
      → roles.run_follower ≡ true
      → IsInOrder roles n
      → Holds (IsInOrder roles) (hub_takes n)
  unfolding hub_takes
  hub_order n follows (o, p) = elim (List-cases n.send_msg_chan) [
    | inl e ↦ rw (e, hub_takes) tt
    | inr (msg, rest, e) ↦
        rw (e, hub_takes)
          (
            λ q. no roles.run_follower follows q,
            λ q r.
                shift n.handled msg (rest ++ n.from_leader)
                ∙ ap (λ l. n.handled ++ (l ++ n.from_leader)) (sym e)
                ∙ p q r,
          )
  ]

  client_order :
      (n : Node)
      → roles.run_follower ≡ true
      → n.client_runs ≡ true
      → IsInOrder roles n
      → Holds (IsInOrder roles) (client_receives n)
  unfolding client_receives client_round
  client_order n follows runs (o, p) = elim (List-cases n.from_leader) [
    | inl e ↦ rw (e, client_receives) tt
    | inr (msg, rest, e) ↦
        rw (e, client_receives)
          (either-Holds (IsInOrder roles) msg.server_shutdown _ _
            (λ q. no roles.run_follower follows q, λ q r. no true refl (sym r))
            (send_msg-Holds (IsInOrder roles) msg (record n { from_leader = rest })
              (
                λ q. no roles.run_follower follows q,
                λ q r.
                    ap (λ l. n.handled ++ l) (shift n.send_msg_chan msg rest)
                    ∙ ap (λ l. n.handled ++ (n.send_msg_chan ++ l)) (sym e)
                    ∙ p q r,
              )))
  ]

  Reach-IsInOrder : (n : Node) → Reach roles n → IsInOrder roles n
  unfolding client_round
  Reach-IsInOrder _ start = start_order roles
  Reach-IsInOrder _ (storage msg n n' r leads e) =
      at_some (IsInOrder roles) _ n' (storage_order msg n leads (Reach-IsInOrder n r)) e
  Reach-IsInOrder _ (server n n' r leads e) =
      at_some (IsInOrder roles) _ n' (server_order n leads (Reach-IsInOrder n r)) e
  Reach-IsInOrder _ (arrives msg n r other follows) = (
    λ q. no roles.run_follower follows q,
    λ q runs.
        ap (λ l. n.handled ++ l) (sym (append_assoc n.send_msg_chan n.from_leader (msg ∷ [])))
        ∙ sym (append_assoc n.handled (n.send_msg_chan ++ n.from_leader) (msg ∷ []))
        ∙ ap (λ l. l ++ msg ∷ []) ((Reach-IsInOrder n r).1 q runs),
  )
  Reach-IsInOrder _ (hub n n' r follows e) =
      at_some (IsInOrder roles) _ n' (hub_order n follows (Reach-IsInOrder n r)) e
  Reach-IsInOrder _ (client n n' r follows runs e) =
      at_some (IsInOrder roles) _ n' (client_order n follows runs (Reach-IsInOrder n r)) e
  Reach-IsInOrder _ (errors n n' r follows runs (inl e)) =
      at_some (IsInOrder roles) _ n'
        (λ q. no roles.run_follower follows q, λ q r. no true refl (sym r)) e
  Reach-IsInOrder _ (errors n n' r follows runs (inr e)) =
      at_some (IsInOrder roles) _ n' (Reach-IsInOrder n r) e

-- On a node with one of the two roles that is reached from its start, while its client runs: a
-- leader has handed to the hubs, in order, what its storage has sent, but for what waits in the channel;
-- a follower's hub has handled, in order, what the leader sent, but for what waits in the channel
-- or in the stream.
pub one_role :
    (roles : Roles) (n : Node)
    → roles.run_follower ≡ not roles.run_leader
    → Reach roles n
    → n.client_runs ≡ true
    → (if roles.run_leader
        then n.sent ++ n.send_msg_chan
        else n.handled ++ (n.send_msg_chan ++ n.from_leader))
      ≡ n.produced
one_role roles n one r runs =
    let (as_leader, as_follower) = Reach-IsInOrder roles n r in
    elim (Bool-cases roles.run_leader) [
      | inl y ↦ rw y (as_leader (one ∙ ap not y))
      | inr f ↦ rw f (as_follower f runs)
    ]
