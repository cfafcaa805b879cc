-- ===== src/Cluster/Standalone/Running/Stuck.antt =====
-- The states of a standalone node from which it never stops: cluster/standalone.go,
-- cluster/eventstore.go, ws/hub.go, ws/handler.go and ws/hstore.go.
use minipush.Base.{Bool, true, false, ◌||◌, String, List, [], ◌∷◌, ◌≡◌, ◌≢◌, refl, sym, ◌∙◌, arith}
use minipush.Base.Keys.{◌==◌, string_eq, eq_iff}
use minipush.Cluster.Standalone.Running.{
  Loop, receiving, kicking, awaiting_storage, awaiting_hub, stopped, Ticker, waiting, pushing,
  ended, HubLoop, selecting, telling, leaving, closed, Running, has_sid, without, holds_store, Step,
  Steps,
}

-- A handler of the list is being closed.
abbrev pub held : List String → List String → Bool
held [] l = false
held (sid ∷ sids) l = has_sid sid l || held sids l

abbrev is_pushing : Ticker → Bool
is_pushing pushing = true
is_pushing _ = false

-- Whether the goroutines wait for each other, by what the node, the storage and the hub are at, and
-- the handlers that wait to be deleted and to send.
unfoldable pub blocked : Loop → Ticker → HubLoop → List String → List String → Bool
blocked stopped t h del snd = false
blocked l t selecting del snd = false
blocked receiving t (telling sids) del snd = false
blocked receiving t (leaving sids) del snd = is_pushing t || held sids del
blocked receiving t closed del snd = is_pushing t
blocked kicking t (telling sids) del snd = held sids del || held sids snd
blocked kicking t (leaving sids) del snd = true
blocked kicking t closed del snd = true
blocked awaiting_storage t (telling sids) del snd = held sids del || held sids snd
blocked awaiting_storage t (leaving sids) del snd = is_pushing t || (held sids del || held sids snd)
blocked awaiting_storage t closed del snd = is_pushing t
blocked awaiting_hub t (telling sids) del snd = held sids del || held sids snd
blocked awaiting_hub t (leaving sids) del snd = held sids del || held sids snd
blocked awaiting_hub t closed del snd = false

abbrev pub is_stuck : Running → Bool
is_stuck s = blocked s.loop s.ticker s.hub s.deleting s.sending

-- If the one then the other.
abbrev Le : Bool → Bool → Type 0
Le a b = a ≡ true → b ≡ true

or_mono : (a b c d : Bool) → Le a b → Le c d → Le (a || c) (b || d)
or_mono true b c d f g e = rw (f refl) refl
or_mono false true c d f g e = refl
or_mono false false c d f g e = g e

or_more : (p a b : Bool) → Le (p || a) (p || (a || b))
or_more p a b e = ground arith

or_right : (a b : Bool) → Le b (a || b)
or_right a b e = ground arith

moved :
    (a r b s a' r' c s' : Bool)
    → Le a (c || a')
    → Le (r || s) (r' || s')
    → Le ((a || r) || (b || s)) ((a' || r') || ((c || b) || s'))
moved a r b s a' r' c s' f g e = ground (arith, f, g)

false-true : false ≡ true → ⊥
false-true e = cc

-- More goroutines that wait unblock nothing.
blocked_mono :
    (l : Loop) (h : HubLoop) (t t' : Ticker) (del del' snd snd' : List String)
    → Le (is_pushing t) (is_pushing t')
    → ((sids : List String) → Le (held sids del) (held sids del'))
    → ((sids : List String) → Le (held sids snd) (held sids snd'))
    → Le (blocked l t h del snd) (blocked l t' h del' snd')
unfolding blocked
blocked_mono stopped h t t' del del' snd snd' p f g e = e
blocked_mono receiving selecting t t' del del' snd snd' p f g e = e
blocked_mono receiving (telling sids) t t' del del' snd snd' p f g e = e
blocked_mono receiving (leaving sids) t t' del del' snd snd' p f g e = or_mono _ _ _ _ p (f sids) e
blocked_mono receiving closed t t' del del' snd snd' p f g e = p e
blocked_mono kicking selecting t t' del del' snd snd' p f g e = e
blocked_mono kicking (telling sids) t t' del del' snd snd' p f g e =
    or_mono _ _ _ _ (f sids) (g sids) e
blocked_mono kicking (leaving sids) t t' del del' snd snd' p f g e = refl
blocked_mono kicking closed t t' del del' snd snd' p f g e = refl
blocked_mono awaiting_storage selecting t t' del del' snd snd' p f g e = e
blocked_mono awaiting_storage (telling sids) t t' del del' snd snd' p f g e =
    or_mono _ _ _ _ (f sids) (g sids) e
blocked_mono awaiting_storage (leaving sids) t t' del del' snd snd' p f g e =
    or_mono _ _ _ _ p (or_mono _ _ _ _ (f sids) (g sids)) e
blocked_mono awaiting_storage closed t t' del del' snd snd' p f g e = p e
blocked_mono awaiting_hub selecting t t' del del' snd snd' p f g e = e
blocked_mono awaiting_hub (telling sids) t t' del del' snd snd' p f g e =
    or_mono _ _ _ _ (f sids) (g sids) e
blocked_mono awaiting_hub (leaving sids) t t' del del' snd snd' p f g e =
    or_mono _ _ _ _ (f sids) (g sids) e
blocked_mono awaiting_hub closed t t' del del' snd snd' p f g e = e

-- A handler that is deleted from the store goes on to wait.
blocked-deletes :
    (l : Loop) (h : HubLoop) (t : Ticker) (del del' snd snd' : List String)
    → holds_store h ≡ false
    → ((sids : List String)
        → Le (held sids del || held sids snd) (held sids del' || held sids snd'))
    → Le (blocked l t h del snd) (blocked l t h del' snd')
unfolding blocked
blocked-deletes l (leaving sids) t del del' snd snd' free f e = absurd (false-true (sym free))
blocked-deletes stopped h t del del' snd snd' free f e = e
blocked-deletes receiving selecting t del del' snd snd' free f e = e
blocked-deletes receiving (telling sids) t del del' snd snd' free f e = e
blocked-deletes receiving closed t del del' snd snd' free f e = e
blocked-deletes kicking selecting t del del' snd snd' free f e = e
blocked-deletes kicking (telling sids) t del del' snd snd' free f e = f sids e
blocked-deletes kicking closed t del del' snd snd' free f e = e
blocked-deletes awaiting_storage selecting t del del' snd snd' free f e = e
blocked-deletes awaiting_storage (telling sids) t del del' snd snd' free f e = f sids e
blocked-deletes awaiting_storage closed t del del' snd snd' free f e = e
blocked-deletes awaiting_hub selecting t del del' snd snd' free f e = e
blocked-deletes awaiting_hub (telling sids) t del del' snd snd' free f e = f sids e
blocked-deletes awaiting_hub closed t del del' snd snd' free f e = e

-- A node that no longer receives unblocks nothing.
blocked-kicking :
    (h : HubLoop) (t : Ticker) (del snd : List String)
    → Le (blocked receiving t h del snd) (blocked kicking t h del snd)
unfolding blocked
blocked-kicking selecting t del snd e = e
blocked-kicking (telling sids) t del snd e = absurd (false-true e)
blocked-kicking (leaving sids) t del snd e = refl
blocked-kicking closed t del snd e = refl

blocked-awaiting :
    (h : HubLoop) (t : Ticker) (del snd : List String)
    → Le (blocked receiving t h del snd) (blocked awaiting_storage t h del snd)
unfolding blocked
blocked-awaiting selecting t del snd e = e
blocked-awaiting (telling sids) t del snd e = absurd (false-true e)
blocked-awaiting (leaving sids) t del snd e =
    or_more (is_pushing t) (held sids del) (held sids snd) e
blocked-awaiting closed t del snd e = e

blocked-storage_stops :
    (h : HubLoop) (del snd : List String)
    → Le (blocked awaiting_storage ended h del snd) (blocked awaiting_hub ended h del snd)
unfolding blocked
blocked-storage_stops selecting del snd e = e
blocked-storage_stops (telling sids) del snd e = e
blocked-storage_stops (leaving sids) del snd e = e
blocked-storage_stops closed del snd e = absurd (false-true e)

blocked-reports :
    (h : HubLoop) (t : Ticker) (del snd snd' : List String)
    → Le (blocked receiving t h del snd) (blocked receiving t h del snd')
unfolding blocked
blocked-reports selecting t del snd snd' e = e
blocked-reports (telling sids) t del snd snd' e = e
blocked-reports (leaving sids) t del snd snd' e = e
blocked-reports closed t del snd snd' e = e

-- The hub passes a handler whose lock is free.
blocked-pass :
    (l : Loop) (t : Ticker) (sid : String) (sids del snd : List String)
    → has_sid sid del ≡ false
    → has_sid sid snd ≡ false
    → Le (blocked l t (telling (sid ∷ sids)) del snd) (blocked l t (telling sids) del snd)
      × Le (blocked l t (leaving (sid ∷ sids)) del snd) (blocked l t (leaving sids) del snd)
unfolding blocked
blocked-pass stopped t sid sids del snd p q = (λ e. e, λ e. e)
blocked-pass receiving t sid sids del snd p q = (λ e. e, λ e. rw p at e)
blocked-pass kicking t sid sids del snd p q = (λ e. rw (p, q) at e, λ e. e)
blocked-pass awaiting_storage t sid sids del snd p q = (λ e. rw (p, q) at e, λ e. rw (p, q) at e)
blocked-pass awaiting_hub t sid sids del snd p q = (λ e. rw (p, q) at e, λ e. rw (p, q) at e)

blocked-closes :
    (l : Loop) (t : Ticker) (del snd : List String)
    → Le (blocked l t (leaving []) del snd) (blocked l t closed del snd)
unfolding blocked
blocked-closes stopped t del snd e = e
blocked-closes receiving pushing del snd e = refl
blocked-closes receiving waiting del snd e = e
blocked-closes receiving ended del snd e = e
blocked-closes kicking t del snd e = refl
blocked-closes awaiting_storage pushing del snd e = refl
blocked-closes awaiting_storage waiting del snd e = e
blocked-closes awaiting_storage ended del snd e = e
blocked-closes awaiting_hub t del snd e = e

held-cons : (sid : String) (l sids : List String) → Le (held sids l) (held sids (sid ∷ l))
held-cons sid l [] e = e
held-cons sid l (x ∷ sids) e =
    or_mono (has_sid x l) ((sid == x) || has_sid x l) (held sids l) (held sids (sid ∷ l))
      (or_right (sid == x) (has_sid x l)) (held-cons sid l sids) e

has-without :
    (sid x : String) (l : List String) → Le (has_sid x l) ((sid == x) || has_sid x (without sid l))
has-without sid x [] e = absurd (false-true e)
has-without sid x (y ∷ l) e =
    ground (arith, has-without sid x l, eq_iff y sid, eq_iff y x, eq_iff sid x)

held-deletes :
    (sid : String) (sids del snd : List String)
    → Le (held sids del || held sids snd) (held sids (without sid del) || held sids (sid ∷ snd))
held-deletes sid [] del snd e = e
held-deletes sid (x ∷ sids) del snd e =
    moved (has_sid x del) (held sids del) (has_sid x snd) (held sids snd)
      (has_sid x (without sid del)) (held sids (without sid del)) (sid == x) (held sids (sid ∷ snd))
      (has-without sid x del) (held-deletes sid sids del snd) e

-- The hub waits for no one.
unblocked : (l : Loop) (t : Ticker) (del snd : List String) → blocked l t selecting del snd ≡ false
unfolding blocked
unblocked receiving t del snd = refl
unblocked kicking t del snd = refl
unblocked awaiting_storage t del snd = refl
unblocked awaiting_hub t del snd = refl
unblocked stopped t del snd = refl

told_all :
    (l : Loop) (t : Ticker) (del snd : List String) → blocked l t (telling []) del snd ≡ false
unfolding blocked
told_all receiving t del snd = refl
told_all kicking t del snd = refl
told_all awaiting_storage t del snd = refl
told_all awaiting_hub t del snd = refl
told_all stopped t del snd = refl

open_store : (s : Running) → s.hub ≡ selecting → is_stuck s ≡ true → ⊥
open_store s h e = false-true (sym (unblocked s.loop s.ticker s.deleting s.sending) ∙ (rw h at e))

Step-stuck : {s t : Running} → Step s t → Le (is_stuck s) (is_stuck t)
unfolding blocked
Step-stuck (Step.connects sid s h) e = e
Step-stuck (Step.ticks s h) e =
    blocked_mono s.loop s.hub s.ticker pushing s.deleting s.deleting s.sending s.sending (λ _. refl)
      (λ sids d. d) (λ sids d. d) e
Step-stuck (Step.kicks s h) e = blocked-kicking s.hub s.ticker s.deleting s.sending (rw h at e)
Step-stuck (Step.pushes sids s h k) e = absurd (open_store s k e)
Step-stuck (Step.hands sids s h k) e = absurd (open_store s k e)
Step-stuck (Step.appends sid sids s h (p, q)) e =
    (blocked-pass s.loop s.ticker sid sids s.deleting s.sending p q).0 (rw h at e)
Step-stuck (Step.told s h) e =
    absurd (false-true (sym (told_all s.loop s.ticker s.deleting s.sending) ∙ (rw h at e)))
Step-stuck (Step.closes sid s h k) e =
    blocked_mono s.loop s.hub s.ticker s.ticker s.deleting (sid ∷ s.deleting) s.sending s.sending
      (λ p. p) (λ sids. held-cons sid s.deleting sids) (λ sids d. d) e
Step-stuck (Step.deletes sid s h k) e =
    blocked-deletes s.loop s.hub s.ticker s.deleting (without sid s.deleting) s.sending
      (sid ∷ s.sending) h (λ sids. held-deletes sid sids s.deleting s.sending) e
Step-stuck (Step.reports sid s h k) e =
    rw h (blocked-reports s.hub s.ticker s.deleting s.sending (without sid s.sending) (rw h at e))
Step-stuck (Step.cancels s) e = e
Step-stuck (Step.leaves_loop s h k) e =
    blocked-awaiting s.hub s.ticker s.deleting s.sending (rw k at e)
Step-stuck (Step.ends_ticker s h k) e =
    blocked_mono s.loop s.hub waiting ended s.deleting s.deleting s.sending s.sending (λ p. p)
      (λ sids d. d) (λ sids d. d) (rw k at e)
Step-stuck (Step.leaves_hub s h k) e = absurd (open_store s k e)
Step-stuck (Step.closes_one sid sids s h (p, q)) e =
    (blocked-pass s.loop s.ticker sid sids s.deleting s.sending p q).1 (rw h at e)
Step-stuck (Step.closes_all s h) e = blocked-closes s.loop s.ticker s.deleting s.sending (rw h at e)
Step-stuck (Step.storage_stops s h k) e =
    rw k (blocked-storage_stops s.hub s.deleting s.sending (rw (h, k) at e))
Step-stuck (Step.stops s h k) e = absurd (false-true (rw (h, k) at e))

Steps-stuck : {s t : Running} → Steps s t → Le (is_stuck s) (is_stuck t)
Steps-stuck (Steps.here s) e = e
Steps-stuck (Steps.then s t u x r) e = Steps-stuck r (Step-stuck x e)

not_stopped :
    (l : Loop) (t : Ticker) (h : HubLoop) (del snd : List String)
    → blocked l t h del snd ≡ true
    → l ≢ stopped
unfolding blocked
not_stopped l t h del snd e p = false-true (rw p at e)

-- A state in which the goroutines wait for each other stays so, and the node never stops.
pub never_stops :
    (s t : Running) → is_stuck s ≡ true → Steps s t → (is_stuck t ≡ true) × (t.loop ≢ stopped)
never_stops s t e r =
    let later = Steps-stuck r e in
    (later, not_stopped t.loop t.ticker t.hub t.deleting t.sending later)
