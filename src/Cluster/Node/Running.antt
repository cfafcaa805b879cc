-- ===== src/Cluster/Node/Running.antt =====
-- The two goroutines that `Run` of cluster/cluster.go starts, up to their end, and its wait group.
-- Channels without a buffer: a send is done only while another goroutine is at a receive.
use minipush.Base.{
  ℕ, suc, ◌+◌, ◌-◌, Bool, true, false, ◌&&◌, Option, none, some, eqb, if◌then◌else◌, ◌≡◌, refl, ap,
  subst, arith,
}
use minipush.Cluster.Node.{Roles}

-- `absent` is not started, `spawned` is started; `running` has called wg.Add and waits for the context.
-- `notifying` is the leader in `run` of the storage, at the send to storageStopDoneC; `stopping` is
-- the leader in its deferred function, at the receive from storageStopDoneC. `over` has called wg.Done.
pub data Phase : Type 0 where
  absent spawned running notifying stopping over : Phase

-- `counter` is that of the wait group; `cancelled` tells that the context is; `notified` tells that
-- `Run` has passed Wait and sends to its stop channel.
pub record Run : Type 0 where
  pub leader : Phase
  pub client : Phase
  pub counter : ℕ
  pub cancelled : Bool
  pub notified : Bool

abbrev spawned_if : Bool → Phase
spawned_if role = if role then spawned else absent

-- if m.conf.RunLeader { go m.runLeader(ctx) }, and so for the follower.
unfoldable pub start_run : Roles → Run
start_run roles = record {
  leader = spawned_if roles.run_leader;
  client = spawned_if roles.run_follower;
  counter = 0;
  cancelled = false;
  notified = false;
}

-- A goroutine is at a receive from storageStopDoneC: no other code receives from it.
abbrev pub receives_storage_stop : Phase → Bool
receives_storage_stop stopping = true
receives_storage_stop _ = false

-- What the goroutine of `runLeader` does next, `none` if it blocks or has ended. It calls `run` of
-- the storage itself; its deferred function follows, of which all after the receive is one step.
unfoldable pub leader_next : Phase → Run → Option Run
leader_next spawned r = some (record r { leader = running; counter = suc r.counter })
leader_next running r = if r.cancelled then some (record r { leader = notifying }) else none
leader_next notifying r =
    if receives_storage_stop r.leader then some (record r { leader = stopping }) else none
leader_next stopping r = some (record r { leader = over; counter = r.counter - 1 })
leader_next absent r = none
leader_next over r = none

-- The goroutine of `runClient`: its deferred function waits for the hub, which ends when the context
-- is cancelled.
unfoldable pub client_next : Phase → Run → Option Run
client_next spawned r = some (record r { client = running; counter = suc r.counter })
client_next running r =
    if r.cancelled then some (record r { client = over; counter = r.counter - 1 }) else none
client_next _ r = none

-- m.wg.Wait(), which blocks while the counter is not 0.
unfoldable pub wait : Run → Option Run
wait r = if eqb r.counter 0 then some (record r { notified = true }) else none

pub data Reach (roles : Roles) : Run → Type 0 where
  start : Reach roles (start_run roles)
  cancels : (r : Run) → Reach roles r → Reach roles (record r { cancelled = true })
  leads : (r r' : Run) → Reach roles r → leader_next r.leader r ≡ some r' → Reach roles r'
  follows : (r r' : Run) → Reach roles r → client_next r.client r ≡ some r' → Reach roles r'
  waits : (r r' : Run) → Reach roles r → wait r ≡ some r' → Reach roles r'

abbrev pub one_if_added : Phase → ℕ
one_if_added absent = 0
one_if_added spawned = 0
one_if_added over = 0
one_if_added _ = 1

-- The leader is in a phase up to the send of the storage.
abbrev pub before_stop : Phase → Bool
before_stop stopping = false
before_stop over = false
before_stop _ = true

-- The counter is the number of goroutines that have added themselves, and the leader has not got
-- past the send.
abbrev pub Stuck : Run → Type 0
Stuck r =
    (r.counter ≡ one_if_added r.leader + one_if_added r.client) × (before_stop r.leader ≡ true)

abbrev Holds : Option Run → Type 0
Holds none = Unit
Holds (some r) = Stuck r

at_some : (o : Option Run) (r : Run) → Holds o → o ≡ some r → Stuck r
at_some o r h e = subst Holds e h

either-Holds : (b : Bool) (x y : Option Run) → Holds x → Holds y → Holds (if b then x else y)
either-Holds true x y h k = h
either-Holds false x y h k = k

leader-Stuck : (p : Phase) (r : Run) → r.leader ≡ p → Stuck r → Holds (leader_next p r)
unfolding leader_next
leader-Stuck absent r e s = tt
leader-Stuck spawned r e (c, b) = (omega (arith, c, ap one_if_added e), refl)
leader-Stuck running r e (c, b) =
    either-Holds r.cancelled _ _ (omega (arith, c, ap one_if_added e), refl) tt
leader-Stuck notifying r e s = rw e tt
leader-Stuck stopping r e (c, b) = absurd (past (rw e at b))
  where
    past : false ≡ true → ⊥
    past q = cc
leader-Stuck over r e s = tt

client-Stuck : (p : Phase) (r : Run) → r.client ≡ p → Stuck r → Holds (client_next p r)
unfolding client_next
client-Stuck spawned r e (c, b) = (omega (arith, c, ap one_if_added e), b)
client-Stuck running r e (c, b) =
    either-Holds r.cancelled _ _ (omega (arith, c, ap one_if_added e), b) tt
client-Stuck absent r e s = tt
client-Stuck notifying r e s = tt
client-Stuck stopping r e s = tt
client-Stuck over r e s = tt

none_added : (role : Bool) → one_if_added (spawned_if role) ≡ 0
none_added true = refl
none_added false = refl

not_yet : (role : Bool) → before_stop (spawned_if role) ≡ true
not_yet true = refl
not_yet false = refl

Reach-Stuck : (roles : Roles) (r : Run) → Reach roles r → Stuck r
unfolding start_run wait
Reach-Stuck roles _ start = (
  omega (arith, none_added roles.run_leader, none_added roles.run_follower),
  not_yet roles.run_leader,
)
Reach-Stuck roles _ (cancels r p) = Reach-Stuck roles r p
Reach-Stuck roles _ (leads r r' p e) =
    at_some _ r' (leader-Stuck r.leader r refl (Reach-Stuck roles r p)) e
Reach-Stuck roles _ (follows r r' p e) =
    at_some _ r' (client-Stuck r.client r refl (Reach-Stuck roles r p)) e
Reach-Stuck roles _ (waits r r' p e) =
    at_some _ r' (either-Holds (eqb r.counter 0) _ _ (Reach-Stuck roles r p) tt) e

added_none : (a b c : ℕ) → c ≡ a + b → eqb c 0 ≡ eqb a 0 && eqb b 0
added_none a b c e = ground arith

early_run : Roles → Run
early_run roles = record (start_run roles) { leader = running; counter = 1; notified = true }

early-Reach : (roles : Roles) → roles.run_leader ≡ true → Reach roles (early_run roles)
unfolding early_run start_run wait leader_next
early-Reach roles e =
    let first : Run = record (start_run roles) { notified = true } in
    leads first (early_run roles) (waits (start_run roles) first start refl) (rw e refl)

-- On a node with the role of a leader, in every state that is reached: the leader's goroutine has
-- not got past the send that ends `run` of the storage, so it never ends; and Wait passes exactly if neither
-- goroutine has added itself and not ended. A state is reached in which Wait has passed while the leader runs.
pub run_lem :
    (roles : Roles) (r : Run)
    → roles.run_leader ≡ true
    → Reach roles r
    → (before_stop r.leader ≡ true)
      × (wait r ≡ (
          if eqb (one_if_added r.leader) 0 && eqb (one_if_added r.client) 0
          then some (record r { notified = true })
          else none))
      × ((early : Run) × Reach roles early × (early.notified ≡ true) × (early.leader ≡ running))
unfolding wait early_run
run_lem roles r e p =
    let (counts, stuck) = Reach-Stuck roles r p in
    (
      stuck,
      rw (added_none (one_if_added r.leader) (one_if_added r.client) r.counter counts) refl,
      (early_run roles, early-Reach roles e, refl, refl),
    )
