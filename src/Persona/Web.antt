-- ===== src/Persona/Web.antt =====
-- src/persona.rs: `resolve_vanity_url` and `fetch_avatar`, and what src/session/discovery.rs shares
-- with them: one GET over HTTP.
--
-- The HTTP client is a parameter.
use steamroids.Prelude.{ℕ, String, Bool, ◌++◌, Option, some, none, leb, ◌&&◌, if◌then◌else◌}
use steamroids.Prelude.Text.{codes}
use steamroids.Prelude.Parse.{parse_u64}
use steamroids.Prelude.Split.{split_once, trim}
use steamroids.Error.{Result, ok, err, network, msg, msg1, ◌>>=◌}
use steamroids.Wire.{Bytes}
use steamroids.Codec.{decode_or}
use steamroids.Proxy.{ProxyConfig}

pub record HttpResponse : Type 0 where
  pub status : ℕ
  -- `none`: reading it fails.
  pub body : Option Bytes

pub record Http : Type 0 where
  -- The construction of a client.
  pub client : Option ProxyConfig → Result (Unit {0})
  -- The response to a GET of a URL (`none`: there is none).
  pub get : Bytes → Option HttpResponse

abbrev pub is_success : ℕ → Bool
is_success status = leb 200 status && leb status 299

unfoldable pub status_check : String → ℕ → Result (Unit {0})
status_check refused status =
    if is_success status then ok tt else err (network (msg1 refused status))

-- The status is looked at before the body.
unfoldable pub http_get :
    Http → Option ProxyConfig → String → String → String → Bytes → Result Bytes
unfolding status_check
http_get http proxy failed refused cut url = do
  u ← http.client proxy
  response ← decode_or (network (msg failed)) (http.get url)
  v ← status_check refused response.status
  decode_or (network (msg cut)) response.body

abbrev after_once : Bytes → Bytes → Option Bytes
after_once pat s = elim (split_once pat s) [ none ↦ none | some (before, after) ↦ some after ]

abbrev before_once : Bytes → Bytes → Option Bytes
before_once pat s = elim (split_once pat s) [ none ↦ none | some (before, after) ↦ some before ]

unfoldable pub extract_steam_id64 : Bytes → Option ℕ
unfolding split_once trim parse_u64
extract_steam_id64 xml = elim (after_once (codes "<steamID64>") xml) [
  | none ↦ none
  | some rest ↦ elim (before_once (codes "</steamID64>") rest) [
    | none ↦ none
    | some value ↦ parse_u64 (trim value)
  ]
]

unfoldable pub resolve_vanity_url : Http → Bytes → Option ProxyConfig → Result (Option ℕ)
unfolding http_get extract_steam_id64
resolve_vanity_url http name proxy = do
  body ←
      http_get http proxy "vanity lookup: {e}" "vanity lookup: HTTP {status}"
        "vanity lookup body: {e}"
        (codes "https://steamcommunity.com/id/" ++ (name ++ codes "?xml=1"))
  ok (extract_steam_id64 body)

unfoldable pub fetch_avatar : Http → Bytes → Option ProxyConfig → Result Bytes
unfolding http_get
fetch_avatar http url proxy =
    http_get http proxy "fetch avatar: {e}" "fetch avatar: HTTP {status}" "fetch avatar body: {e}"
      url
