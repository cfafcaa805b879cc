-- ===== src/Cluster/Client/Ending.antt =====
-- Whether a follower's client ends: cluster/client.go and cluster/cluster.go.
use minipush.Base.{ℕ, ◌+◌, ◌≤◌, true, false, Bool, ◌≡◌, refl, sym, ap, ◌∙◌, arith}
use minipush.Cluster.Client.{
  ClientPhase, receiving, handing, stopping, awaiting_hub, ended, SendPhase, running, HubPhase,
  blocked, leaving, takes, Client, Step, Steps,
}

abbrev in_start : ClientPhase → ℕ
in_start receiving = 1
in_start handing = 1
in_start _ = 0

abbrev runs : SendPhase → ℕ
runs running = 1
runs _ = 0

-- The wait group counts the loops that run, and the channel has no more than it can hold.
abbrev pub IsCounted : Client → Type 0
IsCounted c = (c.wg ≡ in_start c.phase + runs c.sender) × (c.buffered ≤ 8)

-- A message waits for room in a channel that the hub takes nothing from any more.
abbrev pub IsFull : Client → Type 0
IsFull c = (c.phase ≡ handing) × (c.buffered ≡ 8) × (takes c.hub ≡ false)

-- The hub cannot leave: it blocks, or it waits under the lock of the store for the lock of a handler that
-- waits for the lock of the store.
abbrev pub hub_is_stuck : HubPhase → Bool → Bool
hub_is_stuck blocked closing = true
hub_is_stuck leaving closing = closing
hub_is_stuck _ closing = false

-- Steps lead to the end of `runClient`.
abbrev pub CanEnd : Client → Type 0
CanEnd c = (d : Client) × Steps c d × (d.phase ≡ ended)

-- The hub is not stuck.
abbrev IsFree : Client → Type 0
IsFree c = hub_is_stuck c.hub c.closing ≡ false

abbrev is_handing : ClientPhase → Bool
is_handing handing = true
is_handing _ = false

clash : (q : ClientPhase) → is_handing q ≡ false → q ≡ handing → ⊥
clash q f e = true_false (sym (ap is_handing e) ∙ f)
  where
    true_false : true ≡ false → ⊥
    true_false d = cc

Step-IsFull : {c d : Client} → Step c d → IsFull c → IsFull d
Step-IsFull (Step.arrives c h) (p, q, g) = absurd (clash receiving refl (sym h ∙ p))
Step-IsFull (Step.hands c h l) (p, q, g) = absurd (omega (arith, q, l))
Step-IsFull (Step.hub_takes m c h l) (p, q, g) = cc
Step-IsFull (Step.breaks c h) (p, q, g) = absurd (clash receiving refl (sym h ∙ p))
Step-IsFull (Step.sender_starts c h) f = f
Step-IsFull (Step.sender_returns c h l) f = f
Step-IsFull (Step.cancels c) f = f
Step-IsFull (Step.hub_blocks c h) (p, q, g) = (p, q, refl)
Step-IsFull (Step.hub_stops c h l) (p, q, g) = (p, q, refl)
Step-IsFull (Step.hub_leaves c h l) (p, q, g) = (p, q, refl)
Step-IsFull (Step.handler_closes c h) f = f
Step-IsFull (Step.handler_deleted c h l) f = f
Step-IsFull (Step.stops c h l) (p, q, g) = absurd (clash stopping refl (sym h ∙ p))
Step-IsFull (Step.ends c h l) (p, q, g) = absurd (clash awaiting_hub refl (sym h ∙ p))

Steps-IsFull : {c d : Client} → Steps c d → IsFull c → IsFull d
Steps-IsFull (Steps.here c) f = f
Steps-IsFull (Steps.then c d e x r) f = Steps-IsFull r (Step-IsFull x f)

-- Once a message waits for room in the full channel and the hub takes no more, because it blocks, leaves
-- or has left, the message waits for ever.
pub never_ends :
    (c d : Client)
    → c.phase ≡ handing
    → c.buffered ≡ 8
    → takes c.hub ≡ false
    → Steps c d
    → d.phase ≡ handing
never_ends c d p q g r = (Steps-IsFull r (p, q, g)).0
