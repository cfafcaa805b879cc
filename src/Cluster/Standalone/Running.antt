-- ===== src/Cluster/Standalone/Running.antt =====
-- The goroutines of a standalone node and what they wait for: `Run` of cluster/standalone.go,
-- `sendLoop` and `run` of the storage in cluster/eventstore.go, `Run` of ws/hub.go, and `close` of
-- ws/handler.go and ws/hstore.go. The channels between them are unbuffered. The channels of the
-- handlers have room; the other loops of the storage end once the context is canceled.
pub mod Stuck
pub mod Stopping
use minipush.Base.{Bool, true, false, ◌||◌, String, List, [], ◌∷◌, if◌then◌else◌, ◌≡◌, ◌≢◌}
use minipush.Base.Keys.{◌==◌, string_eq}

-- `Run` of the node receives, sends a message with session ids to the hub, waits for the storage and
-- then for the hub, or has returned.
pub data Loop : Type 0 where
  receiving kicking awaiting_storage awaiting_hub stopped : Loop

-- `sendLoop`: it waits, `check` sends a message to the hub, or it has ended.
pub data Ticker : Type 0 where
  waiting pushing ended : Ticker

-- `Run` of the hub: it waits, it gives a message to the handlers that are left, it closes the
-- handlers that are left under the read lock of the store, or it has closed them all.
pub data HubLoop : Type 0 where
  selecting : HubLoop
  telling leaving : List String → HubLoop
  closed : HubLoop

-- `handlers` are those in the store. A handler that is closed has its own lock: it first waits for
-- the lock of the store, to be deleted, and then for the node to receive that it is offline.
pub record Running : Type 0 where
  pub loop : Loop
  pub ticker : Ticker
  pub hub : HubLoop
  pub handlers : List String
  pub deleting : List String
  pub sending : List String
  pub canceled : Bool

abbrev pub start_running : List String → Running
start_running handlers = record {
  loop = receiving;
  ticker = waiting;
  hub = selecting;
  handlers = handlers;
  deleting = [];
  sending = [];
  canceled = false;
}

abbrev pub has_sid : String → List String → Bool
has_sid sid [] = false
has_sid sid (x ∷ l) = (x == sid) || has_sid sid l

abbrev pub without : String → List String → List String
without sid [] = []
without sid (x ∷ l) = let rest = without sid l in if x == sid then rest else x ∷ rest

abbrev pub holds_store : HubLoop → Bool
holds_store selecting = false
holds_store (telling sids) = false
holds_store (leaving sids) = true
holds_store closed = false

-- The lock of a handler is free.
abbrev pub IsFree : String → Running → Type 0
IsFree sid s = (has_sid sid s.deleting ≡ false) × (has_sid sid s.sending ≡ false)

-- One goroutine goes on, or two at a channel.
pub data Step : Running → Running → Type 0 where
  connects :
      (sid : String) (s : Running)
      → holds_store s.hub ≡ false
      → Step s (record s { handlers = sid ∷ s.handlers })
  ticks : (s : Running) → s.ticker ≡ waiting → Step s (record s { ticker = pushing })
  kicks : (s : Running) → s.loop ≡ receiving → Step s (record s { loop = kicking })
  pushes :
      (sids : List String) (s : Running)
      → s.ticker ≡ pushing
      → s.hub ≡ selecting
      → Step s (record s { ticker = waiting; hub = telling sids })
  hands :
      (sids : List String) (s : Running)
      → s.loop ≡ kicking
      → s.hub ≡ selecting
      → Step s (record s { loop = receiving; hub = telling sids })
  appends :
      (sid : String) (sids : List String) (s : Running)
      → s.hub ≡ telling (sid ∷ sids)
      → IsFree sid s
      → Step s (record s { hub = telling sids })
  told : (s : Running) → s.hub ≡ telling [] → Step s (record s { hub = selecting })
  closes :
      (sid : String) (s : Running)
      → IsFree sid s
      → has_sid sid s.handlers ≡ true
      → Step s (record s { deleting = sid ∷ s.deleting })
  deletes :
      (sid : String) (s : Running)
      → holds_store s.hub ≡ false
      → has_sid sid s.deleting ≡ true
      → Step s (record s {
        handlers = without sid s.handlers;
        deleting = without sid s.deleting;
        sending = sid ∷ s.sending;
      })
  reports :
      (sid : String) (s : Running)
      → s.loop ≡ receiving
      → has_sid sid s.sending ≡ true
      → Step s (record s { sending = without sid s.sending })
  cancels : (s : Running) → Step s (record s { canceled = true })
  leaves_loop :
      (s : Running)
      → s.canceled ≡ true
      → s.loop ≡ receiving
      → Step s (record s { loop = awaiting_storage })
  ends_ticker :
      (s : Running) → s.canceled ≡ true → s.ticker ≡ waiting → Step s (record s { ticker = ended })
  leaves_hub :
      (s : Running)
      → s.canceled ≡ true
      → s.hub ≡ selecting
      → Step s (record s { hub = leaving s.handlers })
  closes_one :
      (sid : String) (sids : List String) (s : Running)
      → s.hub ≡ leaving (sid ∷ sids)
      → IsFree sid s
      → Step s (record s { hub = leaving sids })
  closes_all : (s : Running) → s.hub ≡ leaving [] → Step s (record s { hub = closed })
  storage_stops :
      (s : Running)
      → s.loop ≡ awaiting_storage
      → s.ticker ≡ ended
      → Step s (record s { loop = awaiting_hub })
  stops :
      (s : Running) → s.loop ≡ awaiting_hub → s.hub ≡ closed → Step s (record s { loop = stopped })

pub data Steps : Running → Running → Type 0 where
  here : (s : Running) → Steps s s
  then : (s t u : Running) → Step s t → Steps t u → Steps s u
