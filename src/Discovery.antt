-- ===== src/Discovery.antt =====
-- src/session/discovery.rs: the list of connection managers.
--
-- The JSON decoder is a parameter: it gives the entries of the list.
use steamroids.Prelude.{Bool, true, List, [], ◌∷◌, ◌++◌, Option, some, none, if◌then◌else◌}
use steamroids.Prelude.Text.{codes}
use steamroids.Prelude.Split.{same_text}
use steamroids.Error.{Result, ok, err, network, msg, ◌>>=◌}
use steamroids.Wire.{Bytes}
use steamroids.Codec.{decode_or}
use steamroids.Proxy.{ProxyConfig}
use steamroids.Auth.SignIn.{F32}
use steamroids.Persona.Web.{Http, status_check}

abbrev pub directory_url : Bytes
directory_url = codes "https://api.steampowered.com/ISteamDirectory/GetCMListForConnect/v1/"

-- What the HTTP library appends for the query.
abbrev query : Bytes
query = codes "?cmtype=websockets&format=json&cellid=0"

pub record CmServer : Type 0 where
  pub endpoint : Bytes
  pub datacenter : Option Bytes
  pub load : Option F32

unfoldable pub ws_url : CmServer → Bytes
ws_url s = codes "wss://" ++ (s.endpoint ++ codes "/cmsocket/")

pub record ServerEntry : Type 0 where
  pub endpoint : Bytes
  pub kind : Option Bytes
  pub dc : Option Bytes
  pub load : Option F32

-- An entry that omits its type is kept.
unfoldable pub is_websocket : ServerEntry → Bool
unfolding same_text
is_websocket e = elim e.kind [ none ↦ true | some k ↦ same_text k (codes "websockets") ]

abbrev pub server_of : ServerEntry → CmServer
server_of e = record { endpoint = e.endpoint; datacenter = e.dc; load = e.load }

unfoldable pub websocket_servers : List ServerEntry → List CmServer
unfolding is_websocket
websocket_servers [] = []
websocket_servers (e ∷ es) =
    let rest = websocket_servers es in if is_websocket e then server_of e ∷ rest else rest

nonempty_servers : List CmServer → Result (List CmServer)
nonempty_servers [] = err (network (msg "GetCMListForConnect returned no websocket servers"))
nonempty_servers (s ∷ ss) = ok (s ∷ ss)

unfoldable pub parse_servers : (Bytes → Option (List ServerEntry)) → Bytes → Result (List CmServer)
unfolding websocket_servers nonempty_servers
parse_servers from_str body = do
  entries ←
      decode_or (network (msg "GetCMListForConnect: unparseable response: {e}")) (from_str body)
  nonempty_servers (websocket_servers entries)

-- The body is read before the status is looked at.
discovered_body : Http → Option ProxyConfig → Result Bytes
unfolding status_check
discovered_body http proxy = do
  u ← http.client proxy
  response ←
      decode_or (network (msg "GetCMListForConnect: {e}")) (http.get (directory_url ++ query))
  body ← decode_or (network (msg "GetCMListForConnect body: {e}")) response.body
  v ← status_check "GetCMListForConnect: HTTP {status}" response.status
  ok body

unfoldable pub discover_cm_servers :
    Http → (Bytes → Option (List ServerEntry)) → Option ProxyConfig → Result (List CmServer)
unfolding parse_servers discovered_body
discover_cm_servers http from_str proxy = do
  body ← discovered_body http proxy
  parse_servers from_str body
