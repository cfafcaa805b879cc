-- ===== src/Cluster/Standalone/Running/Stopping.antt =====
-- How a standalone node stops: cluster/standalone.go, cluster/eventstore.go, ws/hub.go and ws/hstore.go.
use minipush.Base.{
  ℕ, zero, suc, ◌≤◌, true, false, String, List, [], ◌∷◌, length, ◌≡◌, refl, ap, ◌∙◌, arith, inl,
  inr, List-cases, ◌≢◌,
}
use minipush.Base.Keys.{string_eq, eq_iff}
use minipush.Cluster.Standalone.Running.{
  receiving, awaiting_storage, awaiting_hub, stopped, Ticker, waiting, pushing, ended, HubLoop,
  selecting, telling, leaving, closed, Running, has_sid, without, holds_store, IsFree, Step, Steps,
}

-- Steps lead to the stop.
abbrev pub CanStop : Running → Type 0
CanStop s = (t : Running) × Steps s t × (t.loop ≡ stopped)

first : {s t : Running} → Step s t → CanStop t → CanStop s
first x (u, r, e) = (u, Steps.then _ _ u x r, e)

-- No handler is being closed.
abbrev IsQuiet : Running → Type 0
IsQuiet s = (s.deleting ≡ []) × (s.sending ≡ [])

quiet-IsFree : (sid : String) (s : Running) → IsQuiet s → IsFree sid s
quiet-IsFree sid s (p, q) = (ap (has_sid sid) p, ap (has_sid sid) q)

close_rest :
    (sids : List String) (s : Running)
    → s.hub ≡ leaving sids
    → IsQuiet s
    → CanStop (record s { hub = closed })
    → CanStop s
close_rest [] s h quiet next = first (Step.closes_all s h) next
close_rest (sid ∷ sids) s h quiet next =
    first (Step.closes_one sid sids s h (quiet-IsFree sid s quiet))
      (close_rest sids (record s { hub = leaving sids }) refl quiet next)

after_ticker :
    (s : Running)
    → s.canceled ≡ true
    → s.loop ≡ receiving
    → s.hub ≡ selecting
    → s.ticker ≡ ended
    → IsQuiet s
    → CanStop s
after_ticker s c l h t quiet = first (Step.leaves_loop s c l) (
    first (Step.leaves_hub (record s { loop = awaiting_storage }) c h) (
      close_rest s.handlers (record s { loop = awaiting_storage; hub = leaving s.handlers }) refl
        quiet
        (first (Step.storage_stops (record s { loop = awaiting_storage; hub = closed }) refl t) (
          first (Step.stops (record s { loop = awaiting_hub; hub = closed }) refl refl)
            (_, Steps.here _, refl)))))

from_waiting :
    (s : Running)
    → s.canceled ≡ true
    → s.loop ≡ receiving
    → s.hub ≡ selecting
    → s.ticker ≡ waiting
    → IsQuiet s
    → CanStop s
from_waiting s c l h t quiet =
    first (Step.ends_ticker s c t) (after_ticker (record s { ticker = ended }) c l h refl quiet)

from_selecting :
    (t : Ticker) (s : Running)
    → s.canceled ≡ true
    → s.loop ≡ receiving
    → s.hub ≡ selecting
    → s.ticker ≡ t
    → IsQuiet s
    → CanStop s
from_selecting waiting s c l h t quiet = from_waiting s c l h t quiet
from_selecting ended s c l h t quiet = after_ticker s c l h t quiet
from_selecting pushing s c l h t quiet = first (Step.pushes [] s t h) (
    first (Step.told (record s { ticker = waiting; hub = telling [] }) refl)
      (from_waiting (record s { ticker = waiting; hub = selecting }) c l refl refl quiet))

from_telling :
    (sids : List String) (s : Running)
    → s.canceled ≡ true
    → s.loop ≡ receiving
    → s.hub ≡ telling sids
    → IsQuiet s
    → CanStop s
from_telling [] s c l h quiet =
    first (Step.told s h)
      (from_selecting s.ticker (record s { hub = selecting }) c l refl refl quiet)
from_telling (sid ∷ sids) s c l h quiet =
    first (Step.appends sid sids s h (quiet-IsFree sid s quiet))
      (from_telling sids (record s { hub = telling sids }) c l refl quiet)

-- The hub has not left.
from_quiet :
    (h : HubLoop) (s : Running)
    → s.canceled ≡ true
    → s.loop ≡ receiving
    → s.hub ≡ h
    → holds_store h ≡ false
    → h ≢ closed
    → IsQuiet s
    → CanStop s
from_quiet selecting s c l h free there quiet = from_selecting s.ticker s c l h refl quiet
from_quiet (telling sids) s c l h free there quiet = from_telling sids s c l h quiet
from_quiet (leaving sids) s c l h free there quiet = absurd (no free)
  where
    no : true ≡ false → ⊥
    no e = cc
from_quiet closed s c l h free there quiet = absurd (there refl)

length-without : (sid : String) (l : List String) → length (without sid l) ≤ length l
length-without sid [] = omega arith
length-without sid (x ∷ l) = ground (arith, length-without sid l)

without_first : (sid : String) (l : List String) → length (without sid (sid ∷ l)) ≤ length l
without_first sid l = rw ((eq_iff sid sid).1 refl) (length-without sid l)

has_first : (sid : String) (l : List String) → has_sid sid (sid ∷ l) ≡ true
has_first sid l = rw ((eq_iff sid sid).1 refl) refl

empty : (l : List String) → length l ≤ zero → l ≡ []
empty [] le = refl
empty (x ∷ l) le = absurd (omega (arith, le))

one_less :
    (n : ℕ) (sid : String) (rest l : List String)
    → l ≡ sid ∷ rest
    → length l ≤ suc n
    → length (without sid l) ≤ n
one_less n sid rest l e le = rw e (omega (arith, without_first sid rest, rw e at le))

from_sending :
    (n : ℕ) (s : Running)
    → length s.sending ≤ n
    → s.canceled ≡ true
    → s.loop ≡ receiving
    → holds_store s.hub ≡ false
    → s.hub ≢ closed
    → s.deleting ≡ []
    → CanStop s
from_sending zero s le c l free there no_more =
    from_quiet s.hub s c l refl free there (no_more, empty s.sending le)
from_sending (suc n) s le c l free there no_more = elim (List-cases s.sending) [
  | inl e ↦ from_quiet s.hub s c l refl free there (no_more, e)
  | inr (sid, rest, e) ↦ first (Step.reports sid s l (ap (has_sid sid) e ∙ has_first sid rest)) (
      from_sending n (record s { sending = without sid s.sending })
        (one_less n sid rest s.sending e le) c l free there no_more)
]

from_deleting :
    (n : ℕ) (s : Running)
    → length s.deleting ≤ n
    → s.canceled ≡ true
    → s.loop ≡ receiving
    → holds_store s.hub ≡ false
    → s.hub ≢ closed
    → CanStop s
from_deleting zero s le c l free there =
    from_sending (length s.sending) s (omega arith) c l free there (empty s.deleting le)
from_deleting (suc n) s le c l free there = elim (List-cases s.deleting) [
  | inl e ↦ from_sending (length s.sending) s (omega arith) c l free there e
  | inr (sid, rest, e) ↦ first (Step.deletes sid s free (ap (has_sid sid) e ∙ has_first sid rest)) (
      from_deleting n
        (record s {
          handlers = without sid s.handlers;
          deleting = without sid s.deleting;
          sending = sid ∷ s.sending;
        })
        (one_less n sid rest s.deleting e le) c l free there)
]

-- When the context is canceled while the node still receives and the hub has not begun to leave,
-- whatever the storage and the handlers that are being closed wait for, there are steps that stop the
-- node.
pub can_stop :
    (s : Running)
    → s.canceled ≡ true
    → s.loop ≡ receiving
    → holds_store s.hub ≡ false
    → s.hub ≢ closed
    → (t : Running) × Steps s t × (t.loop ≡ stopped)
can_stop s c l free there = from_deleting (length s.deleting) s (omega arith) c l free there
