-- ===== src/Cluster/Storage/Consuming/Order.antt =====
-- The order in which `consumeLoop` of cluster/eventstore.go saves and commits messages.
use minipush.Base.{
  ℕ, Bool, true, false, Option, List, [], ◌∷◌, ◌++◌, ltb, length, ◌≡◌, ◌⊎◌, refl, inl, inr,
  Bool-cases, Option-cases, sym, ap, ◌∙◌, subst,
}
use minipush.Base.Int.{ℤ}
use minipush.Proto.{E2eMsg}
use minipush.Cluster.Storage.{Message, Storage, decode_kafka_msg, put_cache, backoff}
use minipush.Cluster.Storage.Waiting.{IsWait, backoff_lem}
use minipush.Cluster.Storage.Consuming.{
  Phase, fetching, saving, committing, returned, panicked, Fault, canceled, other, Answer, fetched,
  saved, committed, failed, Consumer, start, retry, finish, on_fetch, on_save, on_fault,
  on_save_fault, respond, consume,
}

-- What the event store has accepted and kafka has not been told: the message of the commit.
abbrev pub Pending : Phase → List ℤ → Type 0
Pending fetching rest = rest ≡ []
Pending (saving _ _) rest = rest ≡ []
Pending (committing msg) rest = rest ≡ msg.offset ∷ []
Pending returned rest = (rest ≡ []) ⊎ ((offset : ℤ) × (rest ≡ offset ∷ []))
Pending panicked rest = (rest ≡ []) ⊎ ((offset : ℤ) × (rest ≡ offset ∷ []))

pub record IsInOrder (c : Consumer) : Type 0 where
  pub wait : IsWait c.sleep
  pub rest : List ℤ
  pub pending : Pending c.phase rest
  pub saves_eq : c.saves ≡ c.commits ++ rest

-- An ended loop accepts what any phase leaves.
ended :
    (p : Phase) (rest : List ℤ)
    → Pending p rest
    → (rest ≡ []) ⊎ ((offset : ℤ) × (rest ≡ offset ∷ []))
ended fetching rest e = inl e
ended (saving _ _) rest e = inl e
ended (committing msg) rest e = inr (msg.offset, e)
ended returned rest e = e
ended panicked rest e = e

backoff-IsWait : (d : ℕ) → IsWait d → IsWait (backoff d)
backoff-IsWait d w = let (least, most, _) = backoff_lem d w in inr (least, most)

finish-IsInOrder :
    (p : Phase) (c : Consumer)
    → (p ≡ returned) ⊎ (p ≡ panicked)
    → IsInOrder c
    → IsInOrder (finish p c)
finish-IsInOrder p c h i = record {
  wait = i.wait;
  rest = i.rest;
  pending = elim h [
    | inl e ↦ rw (e, Pending) (ended c.phase i.rest i.pending)
    | inr e ↦ rw (e, Pending) (ended c.phase i.rest i.pending)
  ];
  saves_eq = i.saves_eq;
}

retry-IsInOrder : (stopped : Bool) (c : Consumer) → IsInOrder c → IsInOrder (retry stopped c)
unfolding retry
retry-IsInOrder true c i = record {
  wait = backoff-IsWait c.sleep i.wait;
  rest = i.rest;
  pending = ended c.phase i.rest i.pending;
  saves_eq = i.saves_eq;
}
retry-IsInOrder false c i = record {
  wait = backoff-IsWait c.sleep i.wait;
  rest = i.rest;
  pending = i.pending;
  saves_eq = i.saves_eq;
}

on_fault-IsInOrder : (f : Fault) (c : Consumer) → IsInOrder c → IsInOrder (on_fault f c)
unfolding on_fault
on_fault-IsInOrder canceled c i = finish-IsInOrder returned c (inl refl) i
on_fault-IsInOrder (other _ stopped) c i = retry-IsInOrder stopped c i

on_save_fault-IsInOrder : (f : Fault) (c : Consumer) → IsInOrder c → IsInOrder (on_save_fault f c)
unfolding on_save_fault
on_save_fault-IsInOrder canceled c i = finish-IsInOrder returned c (inl refl) i
on_save_fault-IsInOrder (other true stopped) c i = finish-IsInOrder panicked c (inr refl) i
on_save_fault-IsInOrder (other false stopped) c i = retry-IsInOrder stopped c i

on_fetch-IsInOrder :
    (u : List ℕ → Option E2eMsg) (msg : Message) (now : ℤ) (c : Consumer)
    → c.phase ≡ fetching
    → IsInOrder c
    → IsInOrder (on_fetch u msg now c)
unfolding on_fetch
on_fetch-IsInOrder u msg now c p i = elim (Option-cases (decode_kafka_msg u now msg c.storage)) [
  | inl e ↦
      rw (e, on_fetch)
        (record { wait = inl refl; rest = i.rest; pending = i.pending; saves_eq = i.saves_eq })
  | inr (v, e) ↦
      rw (e, on_fetch)
        (record {
          wait = inl refl;
          rest = i.rest;
          pending = subst (λ q. Pending q i.rest) p i.pending;
          saves_eq = i.saves_eq;
        })
]

append_nil {ℓ} : {A : Type ℓ} (xs : List A) → xs ++ [] ≡ xs
append_nil [] = refl
append_nil (x ∷ xs) = rw (append_nil xs) refl

on_save-IsInOrder :
    (msg : Message) (v : E2eMsg) (res : List (ℤ × ℤ)) (now : ℕ) (c : Consumer)
    → c.phase ≡ saving msg v
    → IsInOrder c
    → IsInOrder (on_save msg res now c)
unfolding on_save
on_save-IsInOrder msg v res now c p i =
    let none_left =
      i.saves_eq ∙ rw (subst (λ q. Pending q i.rest) p i.pending) (append_nil c.commits) in
    let done : IsInOrder
        (record c { sleep = 0; saves = c.saves ++ msg.offset ∷ []; phase = committing msg }) =
      record {
        wait = inl refl;
        rest = msg.offset ∷ [];
        pending = refl;
        saves_eq = ap (λ l. l ++ msg.offset ∷ []) none_left;
      } in
    elim (Bool-cases (ltb 0 (length res))) [
      | inl y ↦ elim (Option-cases (put_cache now res c.storage.cache)) [
        | inl n ↦ rw (y, n) (finish-IsInOrder panicked _ (inr refl) done)
        | inr (cache, e) ↦
            rw (y, e)
              (record {
                wait = inl refl;
                rest = msg.offset ∷ [];
                pending = refl;
                saves_eq = done.saves_eq;
              })
      ]
      | inr n ↦ rw n done
    ]

on_commit-IsInOrder :
    (msg : Message) (c : Consumer)
    → c.phase ≡ committing msg
    → IsInOrder c
    → IsInOrder (record c { sleep = 0; commits = c.commits ++ msg.offset ∷ []; phase = fetching })
on_commit-IsInOrder msg c p i = record {
  wait = inl refl;
  rest = [];
  pending = refl;
  saves_eq =
      i.saves_eq
      ∙ (ap (λ l. c.commits ++ l) (subst (λ q. Pending q i.rest) p i.pending)
          ∙ sym (append_nil (c.commits ++ msg.offset ∷ [])));
}

respond-IsInOrder :
    (u : List ℕ → Option E2eMsg) (p : Phase) (a : Answer) (c : Consumer)
    → c.phase ≡ p
    → IsInOrder c
    → IsInOrder (respond u p a c)
unfolding respond
respond-IsInOrder u fetching (fetched msg now) c e i = on_fetch-IsInOrder u msg now c e i
respond-IsInOrder u fetching (failed f) c e i = on_fault-IsInOrder f c i
respond-IsInOrder u fetching (saved res now) c e i = i
respond-IsInOrder u fetching committed c e i = i
respond-IsInOrder u (saving msg v) (saved res now) c e i = on_save-IsInOrder msg v res now c e i
respond-IsInOrder u (saving msg v) (failed f) c e i = on_save_fault-IsInOrder f c i
respond-IsInOrder u (saving msg v) (fetched _ _) c e i = i
respond-IsInOrder u (saving msg v) committed c e i = i
respond-IsInOrder u (committing msg) committed c e i = on_commit-IsInOrder msg c e i
respond-IsInOrder u (committing msg) (failed f) c e i = on_fault-IsInOrder f c i
respond-IsInOrder u (committing msg) (fetched _ _) c e i = i
respond-IsInOrder u (committing msg) (saved _ _) c e i = i
respond-IsInOrder u returned a c e i = i
respond-IsInOrder u panicked a c e i = i

consume_from :
    (u : List ℕ → Option E2eMsg) (answers : List Answer) (c : Consumer)
    → IsInOrder c
    → IsInOrder (consume u answers c)
unfolding consume
consume_from u [] c i = i
consume_from u (a ∷ answers) c i =
    consume_from u answers (respond u c.phase a c) (respond-IsInOrder u c.phase a c refl i)

-- Whatever the fetches, saves and commits of the loop answer from its start on, the messages that
-- kafka was told of are those that the event store has accepted, in the same order, less at most the
-- last one, which is the message of the commit that is on its way; and the wait before a retry is
-- none, or at least the least and less than the greatest.
pub consume-IsInOrder :
    (u : List ℕ → Option E2eMsg) (answers : List Answer) (s : Storage)
    → IsInOrder (consume u answers (start s))
consume-IsInOrder u answers s =
    consume_from u answers (start s)
      (record { wait = inl refl; rest = []; pending = refl; saves_eq = refl })
