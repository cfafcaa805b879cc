-- ===== src/Cluster/Client.antt =====
-- The client of a follower and what it waits for: `start`, `sendLoop` and `stop` of cluster/client.go
-- under `runClient` of cluster/cluster.go, with the channel from which the hub takes messages, and the
-- stop of the hub of ws/hub.go under the locks of ws/hstore.go and ws/handler.go. A send of delHandler
-- is taken to have room.
pub mod Ending
use minipush.Base.{ℕ, suc, ◌-◌, ◌+◌, ◌<◌, Bool, true, false, ◌||◌, ◌≡◌}
use minipush.Cluster.Node.{send_msg_chan_cap}

-- `runClient`: in the loop of `start` it waits for the leader, or gives a message to the channel; in
-- `stop` it waits for the wait group; then it waits for the hub, or has ended.
pub data ClientPhase : Type 0 where
  receiving handing stopping awaiting_hub ended : ClientPhase

pub data SendPhase : Type 0 where
  unstarted running returned : SendPhase

-- The loop of the hub: it takes messages; it blocks for ever, with the lock of a handler, in an append to
-- a channel that is full and that nobody reads; it closes the handlers, under the lock of the store; it
-- has left.
pub data HubPhase : Type 0 where
  taking blocked leaving gone : HubPhase

abbrev pub takes : HubPhase → Bool
takes taking = true
takes _ = false

-- Whether the hub holds the lock of the store while it waits for those of the handlers.
abbrev pub holds_store : HubPhase → Bool
holds_store leaving = true
holds_store _ = false

-- `buffered` is the number of messages in the channel, `wg` the wait group of the client. `canceled`
-- is the context of the node, `client_canceled` the one that `newClient` makes of it. `closing` tells
-- that a handler that is open is in its `close`, with its lock, before `delHandler` has taken the lock
-- of the store.
pub record Client : Type 0 where
  pub phase : ClientPhase
  pub sender : SendPhase
  pub buffered : ℕ
  pub hub : HubPhase
  pub closing : Bool
  pub wg : ℕ
  pub canceled : Bool
  pub client_canceled : Bool

-- After m.wg.Add(1) and go m.sendLoop() in `start`.
abbrev pub started : Client
started = record {
  phase = receiving;
  sender = unstarted;
  buffered = 0;
  hub = taking;
  closing = false;
  wg = 1;
  canceled = false;
  client_canceled = false;
}

pub data Step : Client → Client → Type 0 where
  arrives : (c : Client) → c.phase ≡ receiving → Step c (record c { phase = handing })
  hands :
      (c : Client)
      → c.phase ≡ handing
      → c.buffered < send_msg_chan_cap
      → Step c (record c { phase = receiving; buffered = suc c.buffered })
  hub_takes :
      (n : ℕ) (c : Client)
      → c.hub ≡ taking
      → c.buffered ≡ suc n
      → Step c (record c { buffered = n })
  -- a shutdown of the leader, or an error that ends the loop: `start` returns, and `stop` begins
  breaks :
      (c : Client)
      → c.phase ≡ receiving
      → Step c (record c { phase = stopping; wg = c.wg - 1; client_canceled = true })
  sender_starts :
      (c : Client) → c.sender ≡ unstarted → Step c (record c { sender = running; wg = suc c.wg })
  sender_returns :
      (c : Client)
      → c.sender ≡ running
      → c.canceled || c.client_canceled ≡ true
      → Step c (record c { sender = returned; wg = c.wg - 1 })
  cancels : (c : Client) → Step c (record c { canceled = true })
  hub_blocks : (c : Client) → c.hub ≡ taking → Step c (record c { hub = blocked })
  hub_stops :
      (c : Client) → c.canceled ≡ true → c.hub ≡ taking → Step c (record c { hub = leaving })
  hub_leaves : (c : Client) → c.hub ≡ leaving → c.closing ≡ false → Step c (record c { hub = gone })
  handler_closes : (c : Client) → c.closing ≡ false → Step c (record c { closing = true })
  handler_deleted :
      (c : Client)
      → c.closing ≡ true
      → holds_store c.hub ≡ false
      → Step c (record c { closing = false })
  stops : (c : Client) → c.phase ≡ stopping → c.wg ≡ 0 → Step c (record c { phase = awaiting_hub })
  ends : (c : Client) → c.phase ≡ awaiting_hub → c.hub ≡ gone → Step c (record c { phase = ended })

pub data Steps : Client → Client → Type 0 where
  here : (c : Client) → Steps c c
  then : (c d e : Client) → Step c d → Steps d e → Steps c e
