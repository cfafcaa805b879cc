-- ===== src/Ws/Api.antt =====
-- Serving client requests: `EventApi` of ws/eventapi.go over the interface `IEventStore` of
-- store/api.go, as far as it calls it. `S` is the state of the store.
pub mod Checks
pub mod Stored
pub mod Digits
use Prim.Native.String.{◌++◌ as append}
use minipush.Base.{
  ℕ, zero, suc, ◌+◌, ◌/◌, ◌%◌, Bool, true, false, String, Option, none, some, List, [], ◌∷◌, ◌++◌,
  ltb, eqb, if◌then◌else◌, ◌≡◌, refl,
}
pub use minipush.Base.Results.{Result, ok, err}
use minipush.Base.Int.{ℤ, pos, negsuc, ◌-ℤ◌, ltb_ℤ, leb_ℤ, wrap32, eqb_ℤ}
use minipush.Proto.{
  WsConf, StatsReq, StatsResp, GetEventsReq, GetEventsResp, SetReadReq, SetReadResp,
  GetReadStatesReq, GetReadStatesResp, ClientMsg, no_client_msg, Error,
}

-- A call fails with a text in the store, with an `Error` message in the API.
abbrev pub Call : Type 0 → Type 0 → Type 0
Call S A = S → Result A String × S

pub record EventStore (S : Type 0) : Type 0 where
  pub stats : ℤ → ℤ → StatsReq → Call S StatsResp
  pub get_events : ℤ → GetEventsReq → Call S GetEventsResp
  pub set_read : ℤ → ℤ → Call S SetReadResp
  pub get_read_states : ℤ → ℤ → GetReadStatesReq → Call S GetReadStatesResp

abbrev pub error_code_invalid_arguments : ℤ
error_code_invalid_arguments = pos 3

abbrev pub error_code_internal : ℤ
error_code_internal = pos 13

unfoldable pub new_invalid_argument_error : Option ClientMsg → List String → Error
new_invalid_argument_error req errs = record {
  code = error_code_invalid_arguments;
  params = errs;
  req = req;
}

unfoldable pub new_internal_error : ClientMsg → String → Error
new_internal_error req e = record { code = error_code_internal; params = e ∷ []; req = some req }

unfoldable pub intercept_error : Error → Error
intercept_error e =
    if eqb_ℤ e.code error_code_internal then record e { params = "temp storage error" ∷ [] } else e

-- fmt.Sprintf("%d"): the digits of a number, with enough fuel for an int32.
abbrev digit_text : ℕ → String
digit_text d =
    if eqb d 0
    then "0"
    else if eqb d 1
    then "1"
    else if eqb d 2
    then "2"
    else if eqb d 3
    then "3"
    else if eqb d 4
    then "4"
    else if eqb d 5
    then "5"
    else if eqb d 6
    then "6"
    else if eqb d 7
    then "7"
    else if eqb d 8
    then "8"
    else "9"

unfoldable pub digits : ℕ → ℕ → String
digits zero n = ""
digits (suc fuel) n =
    let rest = digits fuel (n / 10) in
    if ltb n 10 then digit_text n else append rest (digit_text (n % 10))

unfoldable pub int_text : ℤ → String
unfolding digits
int_text (pos n) = digits 10 n
int_text (negsuc n) = append "-" (digits 10 (suc n))

abbrev pub limit_text : ℤ → String
limit_text limit = append "seq range: exceeds limit: " (int_text limit)

abbrev pub not_positive : ℤ → Bool
not_positive n = leb_ℤ n (pos 0)

-- The checks of GetEvents, in order; `errs` is what they append.
unfoldable pub get_events_errors : WsConf → GetEventsReq → List String
get_events_errors conf req =
    (if not_positive req.from_seq then "from_seq: should be positive integer" ∷ [] else [])
    ++ ((if not_positive req.to_seq then "to_seq: should be positive integer" ∷ [] else [])
        ++ (if leb_ℤ conf.get_events_limit (wrap32 (req.from_seq -ℤ req.to_seq))
            then limit_text conf.get_events_limit ∷ []
            else []))

abbrev pub Answer : Type 0 → Type 0 → Type 0
Answer S A = Result A Error × S

-- if err != nil { return nil, newInternalError(req, err.Error()) }
abbrev pub or_internal : {S A : Type 0} → ClientMsg → Result A String × S → Answer S A
or_internal req (ok resp, s) = (ok resp, s)
or_internal req (err e, s) = (err (new_internal_error req e), s)

abbrev pub with_conf : WsConf → StatsResp → StatsResp
with_conf conf resp = record resp { conf = some conf }

abbrev pub map_ok : {S A B : Type 0} → (A → B) → Answer S A → Answer S B
map_ok f (ok a, s) = (ok (f a), s)
map_ok f (err e, s) = (err e, s)

-- `conf` and `store` are the fields of `EventApi`.
module _ {S : Type 0} (conf : WsConf) (store : EventStore S) where
  unfoldable pub stats : ℤ → StatsReq → S → Answer S StatsResp
  unfolding new_internal_error
  stats uid req s = map_ok (with_conf conf) (
      or_internal (record no_client_msg { stats = some req })
        (store.stats uid conf.event_ttl_days req s))

  unfoldable pub get_events : ℤ → GetEventsReq → S → Answer S GetEventsResp
  unfolding get_events_errors new_invalid_argument_error new_internal_error
  get_events uid req s = elim (get_events_errors conf req) [
    | [] ↦ or_internal (record no_client_msg { get_events = some req }) (store.get_events uid req s)
    | e ∷ errs ↦ (
      err (
          new_invalid_argument_error (some (record no_client_msg { get_events = some req }))
            (e ∷ errs)),
      s,
    )
  ]

  unfoldable pub set_read : ℤ → SetReadReq → S → Answer S SetReadResp
  unfolding new_invalid_argument_error new_internal_error
  set_read uid req s =
      if not_positive req.seq
      then (
        err (
            new_invalid_argument_error (some (record no_client_msg { set_read = some req }))
              ("seq: should be positive integer" ∷ [])),
        s,
      )
      else or_internal (record no_client_msg { set_read = some req }) (store.set_read uid req.seq s)

  unfoldable pub get_read_states : ℤ → GetReadStatesReq → S → Answer S GetReadStatesResp
  unfolding new_invalid_argument_error new_internal_error
  get_read_states uid req s =
      if not_positive req.head_seq
      then (
        err (
            new_invalid_argument_error (some (record no_client_msg { get_read_states = some req }))
              ("head_seq: should be positive integer" ∷ [])),
        s,
      )
      else or_internal (record no_client_msg { get_read_states = some req })
          (store.get_read_states uid conf.event_ttl_days req s)

limit_message : limit_text (pos 100) ≡ "seq range: exceeds limit: 100"
unfolding int_text
limit_message = refl
