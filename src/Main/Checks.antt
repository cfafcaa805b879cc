-- ===== src/Main/Checks.antt =====
-- What flags the validation of main.go lets through.
use minipush.Base.{
  ℕ, ◌≤◌, Bool, true, false, String, if◌then◌else◌, ◌≡◌, refl, arith, inl, inr, Bool-cases, ◌⊎◌,
  not, ◌&&◌, eqb, ltb,
}
use minipush.Base.Keys.{◌==◌, string_eq}
use minipush.Main.{Flags, outside, Platform, validate_addr, validate_roles, validate_flags}

pass : (b : Bool) (n : ℕ) → (if b then 1 else n) ≡ 0 → (b ≡ false) × (n ≡ 0)
pass true n h = absurd (omega (arith, h))
pass false n h = (refl, h)

one_zero : ◌≡◌ {A = ℕ} 1 0 → ⊥
one_zero h = omega (arith, h)

not-false : (b : Bool) → not b ≡ false → b ≡ true
not-false b h = ground arith

quota_within : (n : ℕ) → eqb n 0 ≡ false → ltb 10 n ≡ false → (1 ≤ n) × (n ≤ 10)
quota_within n h k = ground arith

within : (least most n : ℕ) → outside least most n ≡ false → (least ≤ n) × (n ≤ most)
within least most n h = ground arith

ttl_within :
    (flags : Flags)
    → flags.clean_events && outside 7 100 flags.event_ttl_days ≡ false
    → flags.clean_events ≡ true
    → (7 ≤ flags.event_ttl_days) × (flags.event_ttl_days ≤ 100)
ttl_within flags h c = ground arith

-- The roles that a node may have.
abbrev pub HasRole : Flags → Type 0
HasRole flags =
    (flags.standalone ≡ true)
    ⊎ ((flags.leader ≡ true) ⊎ ((flags.follower ≡ true) × ((flags.join == "") ≡ false)))

roles : (platform : Platform) (flags : Flags) → validate_roles platform flags ≡ 0 → HasRole flags
unfolding validate_roles
roles platform flags h = elim (Bool-cases flags.standalone) [
  | inl s ↦ inl s
  | inr s ↦ elim (Bool-cases flags.leader) [
    | inl l ↦ inr (inl l)
    | inr l ↦ elim (Bool-cases flags.follower) [
      | inl f ↦ let rest = rw (s, l, f) at h in inr (inr (f, (pass (flags.join == "") _ rest).0))
      | inr f ↦ absurd (one_zero (rw (s, l, f) at h))
    ]
  ]
]

-- Flags that pass have an own address that passes `validateAddr`, a session quota from 1 to 10, a
-- limit of GetEvents from 25 to 100, and, if outdated events are to be deleted, a time to live from
-- 7 to 100 days; and the node is standalone, a leader, or a follower with an address to join.
pub validate_flags_lem :
    (platform : Platform) (flags : Flags)
    → validate_flags platform flags ≡ 0
    → (validate_addr platform flags flags.addr ≡ true)
      × ((1 ≤ flags.session_quota) × (flags.session_quota ≤ 10))
      × ((25 ≤ flags.get_events_limit) × (flags.get_events_limit ≤ 100))
      × (flags.clean_events ≡ true → (7 ≤ flags.event_ttl_days) × (flags.event_ttl_days ≤ 100))
      × HasRole flags
unfolding validate_flags
validate_flags_lem platform flags h =
    let (_, h1) = pass (flags.addr == "") _ h in
    let (addr, h2) = pass (not (validate_addr platform flags flags.addr)) _ h1 in
    let (_, h3) = pass (flags.pid_file == "") _ h2 in
    let (_, h4) = pass (flags.pprof_dir == "") _ h3 in
    let (ttl, h5) = pass (flags.clean_events && outside 7 100 flags.event_ttl_days) _ h4 in
    let (limit, h6) = pass (outside 25 100 flags.get_events_limit) _ h5 in
    let (_, h7) = pass (flags.kafka_brokers == "") _ h6 in
    let (_, h8) = pass (flags.mysql_dsn == "") _ h7 in
    let (quota, h9) = pass (eqb flags.session_quota 0) _ h8 in
    let (most, role) = pass (ltb 10 flags.session_quota) _ h9 in
    (
      not-false _ addr,
      quota_within flags.session_quota quota most,
      within 25 100 flags.get_events_limit limit,
      ttl_within flags ttl,
      roles platform flags role,
    )

-- Which address a follower joins does not matter to the validation: any two that are not empty give
-- the same answer, whatever they are.
pub validate_flags_join :
    (platform : Platform) (flags : Flags) (join join' : String)
    → (join == "") ≡ false
    → (join' == "") ≡ false
    → validate_flags platform (record flags { join = join })
      ≡ validate_flags platform (record flags { join = join' })
unfolding validate_flags validate_roles validate_addr
validate_flags_join platform flags join join' n n' = rw (n, n') refl
