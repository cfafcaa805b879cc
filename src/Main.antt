-- ===== src/Main.antt =====
-- The start of the program: the flags of main.go and their validation. The parsing of addresses and
-- the file system are given from outside.
pub mod Checks
pub mod PidFile
pub mod Signals
pub mod Starting
pub mod Config
use minipush.Base.{
  ℕ, Bool, true, false, not, ◌&&◌, ◌||◌, String, Option, none, some, ltb, eqb, if◌then◌else◌,
}
use minipush.Base.Keys.{◌==◌, string_eq}

-- The flags that `validateFlags` reads, and the one for messages of clients.
pub record Flags : Type 0 where
  pub addr : String
  pub pid_file : String
  pub mysql_dsn : String
  pub kafka_brokers : String
  pub session_quota : ℕ
  pub event_ttl_days : ℕ
  pub get_events_limit : ℕ
  pub clean_events : Bool
  pub pprof_dir : String
  pub standalone : Bool
  pub leader : Bool
  pub follower : Bool
  pub join : String
  pub enable_demo : Bool
  pub demo_static_dir : String
  pub enable_client_msg : Bool

-- net.SplitHostPort, net.ParseIP with the answers of IsLoopback and IsPrivate, and whether os.Stat
-- succeeds.
pub record Platform : Type 0 where
  pub split_host_port : String → Option (String × String)
  pub parse_ip : String → Option (Bool × Bool)
  pub stat : String → Bool

-- Of ws/eventapi.go.
abbrev pub min_ttl_days : ℕ
min_ttl_days = 7

abbrev pub max_ttl_days : ℕ
max_ttl_days = 100

abbrev pub min_get_events_limit : ℕ
min_get_events_limit = 25

abbrev pub max_get_events_limit : ℕ
max_get_events_limit = 100

-- True if there is no error. The argument is not used: the address is read from the flag.
unfoldable pub validate_addr : Platform → Flags → String → Bool
validate_addr platform flags s = elim (platform.split_host_port flags.addr) [
  | none ↦ false
  | some (ips, _) ↦ elim (platform.parse_ip ips) [
    | none ↦ false
    | some (is_loopback, is_private) ↦ if not is_loopback && not is_private then false else true
  ]
]

abbrev pub outside : ℕ → ℕ → ℕ → Bool
outside least most n = ltb n least || ltb most n

-- if !*flagStandalone { ... }
unfoldable pub validate_roles : Platform → Flags → ℕ
unfolding validate_addr
validate_roles platform flags =
    let demo : ℕ =
      if flags.standalone || flags.follower
      then (if flags.enable_demo
          then (if flags.demo_static_dir == ""
              then 1
              else if platform.stat flags.demo_static_dir
              then 0
              else 1)
          else 0)
      else 0 in
    if flags.standalone
    then 0
    else if flags.leader
    then demo
    else if flags.follower
    then (if flags.join == ""
        then 1
        else if validate_addr platform flags flags.join
        then demo
        else 1)
    else 1

unfoldable pub validate_flags : Platform → Flags → ℕ
unfolding validate_roles
validate_flags platform flags =
    if flags.addr == ""
    then 1
    else if not (validate_addr platform flags flags.addr)
    then 1
    else if flags.pid_file == ""
    then 1
    else if flags.pprof_dir == ""
    then 1
    else if flags.clean_events && outside min_ttl_days max_ttl_days flags.event_ttl_days
    then 1
    else if outside min_get_events_limit max_get_events_limit flags.get_events_limit
    then 1
    else if flags.kafka_brokers == ""
    then 1
    else if flags.mysql_dsn == ""
    then 1
    else if eqb flags.session_quota 0
    then 1
    else if ltb 10 flags.session_quota
    then 1
    else validate_roles platform flags
