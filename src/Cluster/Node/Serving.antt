-- ===== src/Cluster/Node/Serving.antt =====
-- `ServeHTTP` of cluster/cluster.go and `newClient` of cluster/client.go.
use Prim.Native.Char.{code}
use Prim.Native.String.{◌++◌ as append}
use minipush.Base.{
  ℕ, Bool, true, false, ◌&&◌, String, Option, none, some, eqb, if◌then◌else◌, ◌≡◌, refl,
}
use minipush.Base.Results.{Result, ok, err}
use minipush.Cluster.Node.{Roles}

-- strings.HasPrefix
unfoldable pub has_prefix : String → String → Bool
has_prefix s String.[] = true
has_prefix String.[] (String.◌∷◌ d prefix) = false
has_prefix (String.◌∷◌ c s) (String.◌∷◌ d prefix) =
    let rest = has_prefix s prefix in eqb (code c) (code d) && rest

-- The gRPC server, an answer that the service is not available, or the mux of the node.
pub data Target : Type 0 where
  grpc_server service_unavailable mux : Target

unfoldable pub serve_http : Roles → ℕ → String → Target
unfolding has_prefix
serve_http roles proto_major content_type =
    if eqb proto_major 2 && has_prefix content_type "application/grpc"
    then (if roles.run_leader then grpc_server else service_unavailable)
    else mux

-- Whether the dial succeeds, and the text of the error of the call of Route, if there is one; `none`
-- is the panic.
unfoldable pub new_client : Bool → Option String → Option (Result Unit String)
new_client dial route =
    if dial
    then some (elim route [ none ↦ ok tt | some e ↦ err (append "error call client.Route: " e) ])
    else none

tested :
    (serve_http (record { run_leader = true; run_follower = false }) 2 "application/grpc+proto"
      ≡ grpc_server)
    × (serve_http (record { run_leader = false; run_follower = true }) 2 "application/grpc"
        ≡ service_unavailable)
    × (serve_http (record { run_leader = true; run_follower = true }) 1 "application/grpc" ≡ mux)
unfolding serve_http
tested = (refl, refl, refl)
