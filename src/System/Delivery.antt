-- ===== src/System/Delivery.antt =====
-- An event from the consumer to the users: `consumeLoop` and `check` of cluster/eventstore.go, and the
-- loop of `Run` of ws/hub.go, which gets what `check` pushes.
use minipush.Base.{
  ℕ, true, false, String, some, List, [], ◌∷◌, ◌++◌, length, ◌≡◌, refl, ap, ◌∙◌, inr,
}
use mathlib.Core.Option
use minipush.Base.Int.{ℤ, pos}
use minipush.Base.Keys.{int_eq, string_eq}
use minipush.Base.Dict.{get, Distinct}
use minipush.Base.Dict.Each.{Each, get-Each}
use minipush.Base.Results.{ok}
use minipush.Proto.{LeaderMsg, no_leader_msg}
use minipush.Store.Events.{SavedEvent, Database, save}
use minipush.Store.Events.Sequences.{IsLawful, head_of}
use minipush.Store.Events.Recipients.{Fits}
use minipush.Cluster.Storage.{UserSeq, Cache, check, is_due}
use minipush.Cluster.Storage.Growing.{save_and_put, Reach, Reach-IsBelow}
use minipush.Cluster.Storage.Growing.Pushed.{check_pushes, named_head, not_empty_get}
use minipush.Ws.Handler.{Handler}
use minipush.Ws.Hub.{Hub, Handlers, on_leader_msg, tell_head_seqs, head_seq_value}
use minipush.Ws.Hub.Telling.{HasRoom}
use minipush.Ws.Hub.Telling.Heads.{told, tell, tell_head_seqs_lem}

-- No handler blocks.
abbrev pub AllRoom : Handlers → Type 0
AllRoom hs = Each (λ k v. HasRoom v) hs

abbrev heads_msg : List (ℤ × ℤ) → LeaderMsg
heads_msg out = record no_leader_msg { head_seq = out }

on_heads :
    (uid seq : ℤ) (out : List (ℤ × ℤ)) (hub : Hub)
    → get uid out ≡ some seq
    → on_leader_msg (heads_msg out) hub ≡ tell_head_seqs out hub
unfolding on_leader_msg
on_heads uid seq out hub e = rw (not_empty_get uid seq out e) refl

told_head :
    (uid seq : ℤ) (out : List (ℤ × ℤ)) (v : Handler)
    → v.session.uid ≡ uid
    → v.closing ≡ false
    → get uid out ≡ some seq
    → told out v ≡ record v { data_chan = v.data_chan ++ head_seq_value seq ∷ [] }
told_head uid seq out v same lives e =
    ap (λ o. tell o v) (ap (λ i. get i out) same ∙ e) ∙ rw lives refl

-- A handler of a user is given the head.
abbrev Informs : List (ℤ × ℤ) → ℤ → String → Handler → Hub → Type 0
Informs out seq sid v hub =
    (hub' : Hub) × (on_leader_msg (heads_msg out) hub ≡ some hub')
    × (get sid hub'.handlers
        ≡ some (record v { data_chan = v.data_chan ++ head_seq_value seq ∷ [] }))

informs :
    (uid seq : ℤ) (out : List (ℤ × ℤ)) (sid : String) (v : Handler) (hub : Hub)
    → Distinct out
    → get uid out ≡ some seq
    → Distinct hub.handlers
    → AllRoom hub.handlers
    → get sid hub.handlers ≡ some v
    → v.session.uid ≡ uid
    → v.closing ≡ false
    → Informs out seq sid v hub
informs uid seq out sid v hub d e dh room at_sid same lives =
    let (hs, f, all) =
      tell_head_seqs_lem out hub d dh
        (λ k w p. inr (get-Each (λ k v. HasRoom v) k w hub.handlers p room)) in
    (
      record hub { handlers = hs },
      on_heads uid seq out hub e ∙ f,
      all sid
          ∙ ap (Option.map (told out)) at_sid
          ∙ ap (λ w. some w) (told_head uid seq out v same lives e),
    )

module _ {D : Type 0} (db : Database D) (law : IsLawful db) where
  -- The consumer saves an event in a state that it can reach, the save names a user, and the cache is
  -- checked when the user's entry is due and no message is being sent. Then the check pushes one
  -- message, and in a hub whose handlers all have room, a handler of the user that is not closing
  -- gets, after what it had, the user's head sequence as the database has it after the save.
  pub on_leader_msg-save :
      (e : SavedEvent) (now later : ℕ) (m : List (ℤ × ℤ)) (d d' : D) (c c' : Cache) (uid seq : ℤ)
      (entry : UserSeq) (sid : String) (v : Handler) (hub : Hub)
      → Reach db law d c
      → Fits db law (length e.to) d
      → save db e d ≡ (ok m, d')
      → get uid m ≡ some seq
      → save_and_put db e now d c ≡ some (d', c')
      → get uid c'.kv ≡ some entry
      → is_due later entry ≡ true
      → c'.sending ≡ false
      → Distinct hub.handlers
      → AllRoom hub.handlers
      → get sid hub.handlers ≡ some v
      → v.session.uid ≡ uid
      → v.closing ≡ false
      → (msg : LeaderMsg) × ((check later c').push_chan ≡ c'.push_chan ++ msg ∷ [])
        × ((hub' : Hub) × (on_leader_msg msg hub ≡ some hub')
            × (get sid hub'.handlers
                ≡ some (record v {
                  data_chan = v.data_chan ++ head_seq_value (pos (head_of law uid d')) ∷ [];
                })))
  on_leader_msg-save e now later m d d' c c' uid seq entry sid v hub r fits q named p at_uid due
        idle dh room at_sid same lives =
      let b' = Reach-IsBelow db law (Reach.saves e now d d' c c' r fits p) in
      let (out, pushed, heads, distinct) = check_pushes later uid entry c' b'.0 idle at_uid due in
      let top =
        named_head db law e now m d d' c c' uid seq entry (Reach-IsBelow db law r) fits q named p
          at_uid in
      (
        heads_msg out,
        pushed,
        informs uid (pos (head_of law uid d')) out sid v hub distinct (heads ∙ ap (λ s. some s) top)
            dh room at_sid same lives,
      )
