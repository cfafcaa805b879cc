-- ===== src/Cluster/Storage.antt =====
-- The consumer of events: `storage` and `cache` of cluster/eventstore.go. Durations and instants are
-- in nanoseconds; the instants of the cache are readings of the monotonic clock.
pub mod Starting
pub mod Checking
pub mod Waiting
pub mod Consuming
pub mod Putting
pub mod Growing
pub mod Deleting
use minipush.Base.{
  ℕ, ◌+◌, ◌-◌, ◌*◌, ◌/◌, ◌%◌, Bool, true, false, ◌&&◌, ◌||◌, Option, none, some, List, [], ◌∷◌,
  ◌++◌, ltb, leb, eqb, length, if◌then◌else◌,
}
use minipush.Base.Int.{ℤ, pos, negsuc, ◌-ℤ◌, ◌+ℤ◌, ltb_ℤ, wrap64}
use minipush.Base.Keys.{◌==◌, int_eq}
use minipush.Base.Options.{◌>>=◌}
use minipush.Base.Dict.{get, put}
use minipush.Proto.{E2eMsg, LeaderMsg, no_leader_msg}

abbrev pub second : ℕ
second = 1000000000

abbrev pub store_cache_ttl : ℕ
store_cache_ttl = 5 * second

abbrev pub backoff_min_interval : ℕ
backoff_min_interval = second

abbrev pub backoff_max_interval : ℕ
backoff_max_interval = 60 * second

pub record UserSeq : Type 0 where
  pub head_seq : ℤ
  pub counter : ℤ
  pub cache_time : ℕ

pub record Cache : Type 0 where
  pub kv : List (ℤ × UserSeq)
  pub sending : Bool
  pub push_chan : List LeaderMsg

unfoldable pub new_cache : Cache
new_cache = record { kv = []; sending = false; push_chan = [] }

-- The body of the loop of `put`; `none` is the panic.
unfoldable pub put_seq : ℕ → ℤ → ℤ → List (ℤ × UserSeq) → Option (List (ℤ × UserSeq))
put_seq now uid seq kv = elim (get uid kv) [
  | some v ↦
      if ltb_ℤ v.head_seq seq
      then some (put uid (record v { head_seq = seq; counter = wrap64 (v.counter +ℤ pos 1) }) kv)
      else none
  | none ↦ some (put uid (record { counter = pos 1; head_seq = seq; cache_time = now }) kv)
]

unfoldable pub put_seqs : ℕ → List (ℤ × ℤ) → List (ℤ × UserSeq) → Option (List (ℤ × UserSeq))
unfolding put_seq
put_seqs now [] kv = some kv
put_seqs now ((uid, seq) ∷ heads) kv = do kv' ← put_seq now uid seq kv; put_seqs now heads kv'

unfoldable pub put_cache : ℕ → List (ℤ × ℤ) → Cache → Option Cache
unfolding put_seqs
put_cache now heads c = do kv ← put_seqs now heads c.kv; some (record c { kv = kv })

-- A count is at most a number of seconds.
abbrev not_above : ℤ → ℕ → Bool
not_above (pos n) dur = leb (n * second) dur
not_above (negsuc n) dur = true

-- freq <= 1 || dur > storeCacheTTL, with freq the count over the seconds of dur. A count is at least
-- 1, so for dur = 0 freq is infinite; below the TTL the quotient in float64 is at most 1 exactly if
-- the count is at most the seconds.
unfoldable pub is_due : ℕ → UserSeq → Bool
is_due now v = let dur = now - v.cache_time in not_above v.counter dur || ltb store_cache_ttl dur

-- The loop of `check`: the entries that stay, and `out`.
unfoldable pub check_all : ℕ → List (ℤ × UserSeq) → List (ℤ × UserSeq) × List (ℤ × ℤ)
unfolding is_due
check_all now [] = ([], [])
check_all now ((uid, v) ∷ kv) =
    let (kept, out) = check_all now kv in
    if is_due now v then (kept, (uid, v.head_seq) ∷ out) else ((uid, v) ∷ kept, out)

unfoldable pub check : ℕ → Cache → Cache
unfolding check_all
check now c =
    let (kept, out) = check_all now c.kv in
    if c.sending then c else record c {
      kv = kept;
      push_chan =
          if ltb 0 (length out)
          then c.push_chan ++ record no_leader_msg { head_seq = out } ∷ []
          else c.push_chan;
    }

-- *d times 1.5 in float64 is exact below 2^52.
unfoldable pub backoff : ℕ → ℕ
backoff d =
    if eqb d 0
    then backoff_min_interval
    else (let d' = d * 3 / 2 in
        if ltb d' backoff_max_interval then d' - d' % 1000000 else backoff_min_interval)

-- kafka.Message: instants of the wall clock are integers.
pub record Message : Type 0 where
  pub offset : ℤ
  pub time : ℤ
  pub value : List ℕ

pub record Storage : Type 0 where
  pub clean_events : Bool
  pub del_events_ttl_days : ℤ
  pub value_max_bytes : ℤ
  pub cache : Cache

abbrev pub max_int32 : ℤ
max_int32 = pos 2147483647

unfoldable pub new_storage : Bool → ℤ → ℤ → Storage
unfolding new_cache
new_storage clean_events events_ttl_days value_max_bytes = record {
  clean_events = clean_events;
  del_events_ttl_days = if clean_events then events_ttl_days else max_int32;
  value_max_bytes = value_max_bytes;
  cache = new_cache;
}

-- time.Duration(days) * 24 * time.Hour
unfoldable pub days_span : ℤ → ℤ
days_span (pos n) = wrap64 (pos (n * 86400 * second))
days_span (negsuc n) = wrap64 (negsuc ((n + 1) * 86400 * second - 1))

-- time.Since, which stops at the bounds of a Duration.
unfoldable pub since : ℤ → ℤ → ℤ
since now t =
    let d = now -ℤ t in
    if ltb_ℤ (pos 9223372036854775807) d
    then pos 9223372036854775807
    else if ltb_ℤ d (negsuc 9223372036854775807)
    then negsuc 9223372036854775807
    else d

unfoldable pub should_discard : ℤ → Message → Storage → Bool
unfolding since days_span
should_discard now msg s =
    ltb_ℤ (pos 0) s.del_events_ttl_days
    && ltb_ℤ (days_span s.del_events_ttl_days) (since now msg.time)

-- `unmarshal` is json.Unmarshal into an E2EMsg.
unfoldable pub decode_kafka_msg : (List ℕ → Option E2eMsg) → ℤ → Message → Storage → Option E2eMsg
unfolding should_discard
decode_kafka_msg unmarshal now msg s =
    if ltb_ℤ s.value_max_bytes (pos (length msg.value)) then none else elim (unmarshal msg.value) [
      | none ↦ none
      | some v ↦ if should_discard now msg s then none else some v
    ]
