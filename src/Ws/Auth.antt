-- ===== src/Ws/Auth.antt =====
-- The authentication that main.go gives to the hub: `Client` of auth/auth.go and `MockClient` of
-- auth/mock.go. strconv.ParseInt, for base 10 and 32 bits, is given from outside.
use minipush.Base.{
  true, String, Option, none, some, if◌then◌else◌, ◌≡◌, ◌⊎◌, refl, ap, ◌∙◌, inl, inr, Bool-cases,
  Option-cases,
}
use minipush.Base.Int.{ℤ, pos, InInt32, wrap32, wrap32_id}
use minipush.Base.Keys.{◌==◌, string_eq, eq_iff}
use minipush.Base.Dict.{get, get-put}
use minipush.Proto.{Session}
use minipush.Ws.Api.{Result, ok, err}
use minipush.Ws.Handler.{Handler, new_handler}
use minipush.Ws.Hub.{Hub, forbidden, unavailable, serving, serve_http, add_handler}

pub data AuthError : Type 0 where
  empty_uid parse_error : AuthError

-- The value of the cookie x-uid, if there is one.
unfoldable pub auth : (String → Option ℤ) → Option String → Result ℤ AuthError
auth parse_int cookie =
    let uid_str : String = elim cookie [ none ↦ "" | some v ↦ v ] in
    if uid_str == ""
    then err empty_uid
    else elim (parse_int uid_str) [ none ↦ err parse_error | some uid ↦ ok (wrap32 uid) ]

abbrev pub uid_of : Result ℤ AuthError → Option ℤ
uid_of (ok uid) = some uid
uid_of (err e) = none

-- What strconv.ParseInt gives for 32 bits fits in an int32.
abbrev pub FitsInt32 : (String → Option ℤ) → Type 0
FitsInt32 parse_int = (s : String) (uid : ℤ) → parse_int s ≡ some uid → InInt32 uid

-- Either no user is named, or the cookie is the text of the user's id.
auth_cases :
    (parse_int : String → Option ℤ) (cookie : Option String)
    → FitsInt32 parse_int
    → (uid_of (auth parse_int cookie) ≡ none)
      ⊎ ((s : String) × (uid : ℤ) × (cookie ≡ some s)
          × (parse_int s ≡ some uid)
          × (uid_of (auth parse_int cookie) ≡ some uid))
unfolding auth
auth_cases parse_int none fits = inl refl
auth_cases parse_int (some s) fits = elim (Bool-cases (s == "")) [
  | inl y ↦ inl (rw (y, auth) refl)
  | inr n ↦ elim (Option-cases (parse_int s)) [
    | inl e ↦ inl (rw (n, e, auth) refl)
    | inr (uid, e) ↦
        inr (s, uid, refl, e, rw (n, e, auth) (ap (λ u. some u) (wrap32_id uid (fits s uid e))))
  ]
]

-- The session of a new connection.
abbrev new_session : ℤ → String → ℤ → String → Session
new_session uid sid now ip = record {
  hub_id = "";
  uid = uid;
  sid = sid;
  ip = ip;
  create_time = now;
  kickoff_time = pos 0;
}

refused :
    (sid : String) (now : ℤ) (ip : String) (h : Hub)
    → h.online ≡ true
    → serve_http none sid now ip true h ≡ (h, forbidden)
unfolding serve_http
refused sid now ip h online = ap (λ b. if b then (h, forbidden) else (h, unavailable)) online

served :
    (uid : ℤ) (sid : String) (now : ℤ) (ip : String) (h : Hub)
    → h.online ≡ true
    → serve_http (some uid) sid now ip true h
      ≡ (add_handler (new_handler (new_session uid sid now ip)) h, serving)
unfolding serve_http
served uid sid now ip h online =
    ap
      (λ b.
        if b
        then (add_handler (new_handler (new_session uid sid now ip)) h, serving)
        else (h, unavailable))
      online

-- If ParseInt keeps to 32 bits, a request to a hub that is online, for which the upgrade succeeds, is
-- forbidden and changes nothing, or its cookie is the text of a number, and it is served with a new
-- handler, which the hub has under its session id and whose user has just that number.
pub serve_http-auth :
    (parse_int : String → Option ℤ) (cookie : Option String) (sid : String) (now : ℤ) (ip : String)
    (h : Hub)
    → FitsInt32 parse_int
    → h.online ≡ true
    → (serve_http (uid_of (auth parse_int cookie)) sid now ip true h ≡ (h, forbidden))
      ⊎ ((s : String) × (uid : ℤ) × (cookie ≡ some s)
          × (parse_int s ≡ some uid)
          × ((v : Handler) × (serve_http (uid_of (auth parse_int cookie)) sid now ip true h
                ≡ (add_handler v h, serving))
              × (get sid (add_handler v h).handlers ≡ some v)
              × (v.session.uid ≡ uid)))
unfolding add_handler new_handler
serve_http-auth parse_int cookie sid now ip h fits online =
    elim (auth_cases parse_int cookie fits) [
      | inl n ↦ inl (ap (λ o. serve_http o sid now ip true h) n ∙ refused sid now ip h online)
      | inr (s, uid, e, f, g) ↦
          let v = new_handler (new_session uid sid now ip) in
          inr (
            s,
            uid,
            e,
            f,
            (
              v,
              ap (λ o. serve_http o sid now ip true h) g ∙ served uid sid now ip h online,
              get-put sid sid v h.handlers ∙ rw ((eq_iff sid sid).1 refl) refl,
              refl,
            ),
          )
    ]
