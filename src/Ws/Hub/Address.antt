-- ===== src/Ws/Hub/Address.antt =====
-- The address of a peer: `getRemoteIP` of ws/hub.go. net.SplitHostPort is given from outside.
use Prim.Native.Char.{Char, code}
use minipush.Base.{String, List, [], ◌∷◌, eqb, if◌then◌else◌, ◌≡◌, refl}
use minipush.Base.Keys.{◌==◌, string_eq}

-- The first part gets one more character.
prepend : Char → List String → List String
prepend c [] = []
prepend c (part ∷ parts) = String.◌∷◌ c part ∷ parts

-- strings.Split(s, ",")
unfoldable pub split : String → List String
unfolding prepend
split String.[] = "" ∷ []
split (String.◌∷◌ c s) =
    let parts = split s in if eqb (code c) 44 then "" ∷ parts else prepend c parts

-- for _, x := range slice { if x != "" { ip = x } }
unfoldable pub last_part : List String → String → String
last_part [] ip = ip
last_part (x ∷ slice) ip = last_part slice (if x == "" then ip else x)

-- The two headers, the remote address, and the host of an address, "" if it does not split.
unfoldable pub get_remote_ip : (String → String) → String → String → String → String
unfolding split last_part
get_remote_ip host x_real_ip x_forwarded_for remote_addr =
    let ip : String =
      if x_real_ip == ""
      then (if x_forwarded_for == ""
          then x_real_ip
          else last_part (split x_forwarded_for) x_real_ip)
      else x_real_ip in
    if ip == "" then host remote_addr else ip

tested :
    (get_remote_ip (λ a. "9.9.9.9") "" "1.1.1.1,2.2.2.2," "9.9.9.9:80" ≡ "2.2.2.2")
    × (get_remote_ip (λ a. "9.9.9.9") "" "," "9.9.9.9:80" ≡ "9.9.9.9")
unfolding get_remote_ip
tested = (refl, refl)
