-- ===== src/Cluster/Storage/Consuming.antt =====
-- The loop `consumeLoop` of cluster/eventstore.go, as a machine that waits for one call to answer.
pub mod Order
use minipush.Base.{
  ℕ, zero, ◌+◌, Bool, true, false, Option, none, some, List, [], ◌∷◌, ◌++◌, ltb, length,
  if◌then◌else◌, ◌≡◌, ◌⊎◌, refl, arith, inl, inr, Bool-cases, Option-cases, sym, ap, ◌∙◌, subst,
}
use minipush.Base.Int.{ℤ}
use minipush.Proto.{E2eMsg}
use minipush.Cluster.Storage.{
  Cache, Message, Storage, decode_kafka_msg, put_cache, backoff, backoff_min_interval,
  backoff_max_interval,
}
use minipush.Cluster.Storage.Waiting.{IsWait, backoff_lem}

-- The call that the loop is in, or how the loop ended.
pub data Phase : Type 0 where
  fetching : Phase
  saving : Message → E2eMsg → Phase
  committing : Message → Phase
  returned panicked : Phase

-- The error of a call: `dup_key` is what IsDupKeyError says of it, `stopped` tells that the context
-- ends the wait before the call is tried again.
pub data Fault : Type 0 where
  canceled : Fault
  other : (dup_key stopped : Bool) → Fault

-- The answer of the call: a message with the wall clock, the new head seqs with the monotonic clock.
pub data Answer : Type 0 where
  fetched : Message → (now : ℤ) → Answer
  saved : List (ℤ × ℤ) → (now : ℕ) → Answer
  committed : Answer
  failed : Fault → Answer

-- `saves` and `commits` are the offsets that the event store and kafka have accepted.
pub record Consumer : Type 0 where
  pub phase : Phase
  pub sleep : ℕ
  pub storage : Storage
  pub saves : List ℤ
  pub commits : List ℤ

abbrev pub start : Storage → Consumer
start s = record { phase = fetching; sleep = 0; storage = s; saves = []; commits = [] }

-- backoff(&sleep), then the select.
unfoldable pub retry : Bool → Consumer → Consumer
retry stopped c =
    if stopped
    then record c { sleep = backoff c.sleep; phase = returned }
    else record c { sleep = backoff c.sleep }

abbrev pub finish : Phase → Consumer → Consumer
finish phase c = record c { phase = phase }

unfoldable pub on_fetch : (List ℕ → Option E2eMsg) → Message → ℤ → Consumer → Consumer
on_fetch unmarshal msg now c = elim (decode_kafka_msg unmarshal now msg c.storage) [
  | none ↦ record c { sleep = 0 }
  | some value ↦ record c { sleep = 0; phase = saving msg value }
]

unfoldable pub on_save : Message → List (ℤ × ℤ) → ℕ → Consumer → Consumer
on_save msg res now c =
    let done : Consumer = record c {
      sleep = 0;
      saves = c.saves ++ msg.offset ∷ [];
      phase = committing msg;
    } in
    if ltb 0 (length res)
    then (elim (put_cache now res c.storage.cache) [
      | none ↦ finish panicked done
      | some cache ↦ record done { storage = record c.storage { cache = cache } }
    ])
    else done

-- A failed fetch or commit.
unfoldable pub on_fault : Fault → Consumer → Consumer
unfolding retry
on_fault canceled c = finish returned c
on_fault (other dup_key stopped) c = retry stopped c

unfoldable pub on_save_fault : Fault → Consumer → Consumer
unfolding retry
on_save_fault canceled c = finish returned c
on_save_fault (other dup_key stopped) c = if dup_key then finish panicked c else retry stopped c

-- An answer that is not the answer of the call in the phase does not come.
unfoldable pub respond : (List ℕ → Option E2eMsg) → Phase → Answer → Consumer → Consumer
unfolding on_fetch on_save on_fault on_save_fault
respond u fetching (fetched msg now) c = on_fetch u msg now c
respond u fetching (failed f) c = on_fault f c
respond u (saving msg v) (saved res now) c = on_save msg res now c
respond u (saving msg v) (failed f) c = on_save_fault f c
respond u (committing msg) committed c = record c {
  sleep = 0;
  commits = c.commits ++ msg.offset ∷ [];
  phase = fetching;
}
respond u (committing msg) (failed f) c = on_fault f c
respond u _ _ c = c

unfoldable pub consume : (List ℕ → Option E2eMsg) → List Answer → Consumer → Consumer
unfolding respond
consume u [] c = c
consume u (a ∷ answers) c = consume u answers (respond u c.phase a c)
