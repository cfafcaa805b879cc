-- ===== src/Ws/Api/Checks.antt =====
-- Which requests reach the store: the checks of ws/eventapi.go.
use minipush.Base.{
  false, String, some, List, [], ◌∷◌, ◌≡◌, ◌⊎◌, inl, inr, refl, arith, ◌↔◌, List-cases, sym, ◌∙◌,
}
use minipush.Base.Int.{ℤ, pos, ◌-ℤ◌, ◌+ℤ◌, ◌≤ℤ◌, ◌<ℤ◌, leb_ℤ, wrap32, InInt32}
use minipush.Proto.{WsConf, GetEventsReq, no_client_msg, Error}
use minipush.Ws.Api.{
  EventStore, err, error_code_invalid_arguments, new_invalid_argument_error, get_events_errors,
  get_events, or_internal,
}

small_difference :
    (a b limit : ℤ)
    → pos 0 <ℤ a
    → a ≤ℤ b
    → InInt32 a
    → InInt32 b
    → pos 0 <ℤ limit
    → leb_ℤ limit (wrap32 (a -ℤ b)) ≡ false
unfolding wrap32 ◌-ℤ◌
small_difference a b limit h le ia ib l = ground arith

-- A request whose range runs upwards from a positive sequence passes the checks, however long the
-- range is: the limit of the configuration, if positive, never stops it, and the store is asked.
pub get_events_unlimited :
    {S : Type 0} (conf : WsConf) (store : EventStore S) (uid : ℤ) (req : GetEventsReq) (s : S)
    → pos 0 <ℤ conf.get_events_limit
    → pos 0 <ℤ req.from_seq
    → req.from_seq ≤ℤ req.to_seq
    → InInt32 req.from_seq
    → InInt32 req.to_seq
    → get_events conf store uid req s
      ≡ or_internal (record no_client_msg { get_events = some req }) (store.get_events uid req s)
unfolding get_events
get_events_unlimited conf store uid req s l h le ia ib =
    ground (arith, small_difference req.from_seq req.to_seq conf.get_events_limit h le ia ib l)

-- A range is short enough: its first sequence is less than the limit above its last one.
abbrev pub IsServable : WsConf → GetEventsReq → Type 0
IsServable conf req =
    (pos 0 <ℤ req.from_seq)
    × (pos 0 <ℤ req.to_seq)
    × (req.from_seq <ℤ (req.to_seq +ℤ conf.get_events_limit))

exact_difference :
    (a b limit : ℤ)
    → pos 0 <ℤ a
    → pos 0 <ℤ b
    → InInt32 a
    → InInt32 b
    → (wrap32 (a -ℤ b) <ℤ limit) ↔ (a <ℤ (b +ℤ limit))
unfolding wrap32 ◌-ℤ◌ ◌+ℤ◌
exact_difference a b limit h k ia ib = ground arith

cons-nil : {x : String} {xs : List String} → x ∷ xs ≡ [] → ⊥
cons-nil e = cc

get_events_errors_iff :
    (conf : WsConf) (req : GetEventsReq)
    → (get_events_errors conf req ≡ []) ↔ (
        (pos 0 <ℤ req.from_seq)
        × (pos 0 <ℤ req.to_seq)
        × (wrap32 (req.from_seq -ℤ req.to_seq) <ℤ conf.get_events_limit))
unfolding get_events_errors
get_events_errors_iff conf req = ground arith

errors_cases :
    (conf : WsConf) (req : GetEventsReq)
    → InInt32 req.from_seq
    → InInt32 req.to_seq
    → (IsServable conf req × (get_events_errors conf req ≡ []))
      ⊎ ((IsServable conf req → ⊥)
          × ((e : String) × (es : List String) × (get_events_errors conf req ≡ e ∷ es)))
errors_cases conf req ia ib =
    let pass = get_events_errors_iff conf req in
    let same = exact_difference req.from_seq req.to_seq conf.get_events_limit in
    elim (List-cases (get_events_errors conf req)) [
      | inl none ↦ let (h, k, l) = pass.0 none in inl ((h, k, (same h k ia ib).0 l), none)
      | inr (e, es, p) ↦
          inr (λ (h, k, l). cons-nil (sym p ∙ pass.1 (h, k, (same h k ia ib).1 l)), (e, es, p))
    ]

-- For int32 sequences, the store is asked exactly if both are positive and the first is below the sum
-- of the last and the limit, with no regard to overflow; otherwise the answer is an error for invalid
-- arguments that names the request, and the store is as it was. So a range that runs upwards is never
-- too long.
pub get_events-IsServable :
    {S : Type 0} (conf : WsConf) (store : EventStore S) (uid : ℤ) (req : GetEventsReq) (s : S)
    → InInt32 req.from_seq
    → InInt32 req.to_seq
    → (IsServable conf req
        × (get_events conf store uid req s
            ≡ or_internal
                (record no_client_msg { get_events = some req })
                (store.get_events uid req s)))
      ⊎ ((IsServable conf req → ⊥)
          × ((e : Error) × (get_events conf store uid req s ≡ (err e, s))
              × (e.code ≡ error_code_invalid_arguments)
              × (e.req ≡ some (record no_client_msg { get_events = some req }))))
unfolding get_events new_invalid_argument_error
get_events-IsServable conf store uid req s ia ib = elim (errors_cases conf req ia ib) [
  | inl (fits, e) ↦ inl (fits, rw (e, get_events) refl)
  | inr (not_fits, (e, es, p)) ↦ inr (
    not_fits,
    (
      new_invalid_argument_error (some (record no_client_msg { get_events = some req })) (e ∷ es),
      rw (p, get_events) refl,
      refl,
      refl,
    ),
  )
]
