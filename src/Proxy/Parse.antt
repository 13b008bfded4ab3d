-- ===== src/Proxy/Parse.antt =====
-- src/transport/proxy.rs: what becomes of a proxy URL.
--
-- The URL parser is a parameter, which gives the parts of the URL; the port is absent when it is not
-- written or is the default of the scheme.
use steamroids.Prelude.{
  ℕ, ◌+◌, ◌-◌, ◌*◌, Bool, true, false, [], ◌∷◌, Option, some, none, ◌&&◌, ◌||◌, ◌==◌, leb,
  if◌then◌else◌,
}
use mathlib.Core.Option.{get_or}
use steamroids.Prelude.Text.{codes}
use steamroids.Prelude.Parse.{is_digit}
use steamroids.Prelude.Split.{split_once, same_text}
use steamroids.Prelude.Utf8.{from_utf8_lossy}
use steamroids.Error.{str, Result, ok, err, url_parse, invalid_config, invalid_url, msg, ◌>>=◌}
use steamroids.Wire.{Bytes}
use steamroids.Codec.{decode_or}
use steamroids.Proxy.{ProxyKind, socks5, http_connect, ProxyCredentials, ProxyConfig, contains}

-- `url::Url` as the code reads it.
pub record Url : Type 0 where
  pub scheme : Bytes
  pub host_str : Option Bytes
  pub port : Option ℕ
  pub port_or_known_default : Option ℕ
  pub username : Bytes
  pub password : Option Bytes

unfoldable pub hex_nibble : ℕ → Option ℕ
hex_nibble b =
    if leb b'0' b && leb b b'9'
    then some (b - b'0')
    else if leb b'a' b && leb b b'f'
    then some (b - b'a' + 10)
    else if leb b'A' b && leb b b'F'
    then some (b - b'A' + 10)
    else none

-- The byte that an escape spells out.
unfoldable pub escape_value : ℕ → ℕ → ℕ → Option ℕ
unfolding hex_nibble
escape_value c h l = elim (hex_nibble h) [
  | none ↦ none
  | some high ↦ elim (hex_nibble l) [
    | none ↦ none
    | some low ↦ if c == b'%' then some (high * 16 + low) else none
  ]
]

unfoldable pub percent_bytes : Bytes → Bytes
unfolding escape_value
percent_bytes [] = []
percent_bytes (a ∷ []) = a ∷ []
percent_bytes (a ∷ b ∷ []) = a ∷ b ∷ []
percent_bytes (c ∷ h ∷ l ∷ bs) = elim (escape_value c h l) [
  | some value ↦ value ∷ percent_bytes bs
  | none ↦ c ∷ percent_bytes (h ∷ l ∷ bs)
]

unfoldable pub percent_decode : Bytes → Bytes
unfolding percent_bytes from_utf8_lossy
percent_decode input = from_utf8_lossy (percent_bytes input)

-- What is before the first byte that ends the authority.
unfoldable pub until_slash : Bytes → Bytes
until_slash [] = []
until_slash (b ∷ bs) =
    let rest = until_slash bs in if b == b'/' || (b == b'?' || b == b'#') then [] else b ∷ rest

-- `rsplit_once(sep).map_or(s, |(_, t)| t)`: what is after the last separator, or everything.
unfoldable pub after_last : ℕ → Bytes → Bytes
unfolding contains
after_last sep [] = []
after_last sep (b ∷ bs) =
    let later = after_last sep bs in
    if contains sep bs then later else if b == sep then bs else b ∷ bs

unfoldable pub all_digits : Bytes → Bool
all_digits [] = true
all_digits (b ∷ bs) = is_digit b && all_digits bs

unfoldable pub is_port : Bytes → Bool
unfolding all_digits
is_port [] = false
is_port (b ∷ bs) = all_digits (b ∷ bs)

unfoldable pub port_written : Option (Bytes × Bytes) → Bool
unfolding is_port
port_written none = false
port_written (some (host, port)) = is_port port

unfoldable pub has_port : Bytes → Bool
unfolding port_written split_once after_last
has_port authority =
    port_written (split_once (codes ":") (after_last b']' (after_last b'@' authority)))

unfoldable pub has_explicit_port : Bytes → Bool
unfolding has_port until_slash split_once
has_explicit_port raw = elim (split_once (codes "://") raw) [
  | none ↦ false
  | some (scheme, rest) ↦ has_port (until_slash rest)
]

unfoldable pub default_port : Bytes → Option ℕ
unfolding same_text
default_port scheme =
    if same_text scheme (codes "socks5") || same_text scheme (codes "socks5h")
    then some 1080
    else if same_text scheme (codes "http")
    then some 8080
    else if same_text scheme (codes "https")
    then some 443
    else none

unfoldable pub resolve_port : Url → Bytes → Result ℕ
unfolding default_port has_explicit_port
resolve_port url raw = elim url.port [
  | some port ↦ ok port
  | none ↦
      decode_or (invalid_url (msg "proxy URL missing port"))
        (if has_explicit_port raw then url.port_or_known_default else default_port url.scheme)
]

unfoldable pub kind_of : Bytes → Result ProxyKind
unfolding same_text
kind_of scheme =
    if same_text scheme (codes "socks5") || same_text scheme (codes "socks5h")
    then ok socks5
    else if same_text scheme (codes "http") || same_text scheme (codes "https")
    then ok http_connect
    else err (
        invalid_config
          (record { template = "unsupported proxy scheme: {other}"; parts = str scheme ∷ [] }))

-- The last byte of a text that starts with a square bracket is dropped if it closes that.
unfoldable pub without_closing : Bytes → Option Bytes
without_closing [] = none
without_closing (b ∷ []) = if b == b']' then some [] else none
without_closing (b ∷ c ∷ bs) = elim (without_closing (c ∷ bs)) [
  | none ↦ none
  | some inner ↦ some (b ∷ inner)
]

unfoldable pub credentials_of : Bytes → Bytes → Option ProxyCredentials
credentials_of [] [] = none
credentials_of [] (b ∷ bs) = some (record { username = []; password = b ∷ bs })
credentials_of (a ∷ name) word = some (record { username = a ∷ name; password = word })

unfoldable pub unbracket : Bytes → Bytes
unfolding without_closing
unbracket [] = []
unbracket (b ∷ bs) = if b == b'[' then get_or (without_closing bs) (b ∷ bs) else b ∷ bs

-- `url_of` is `Url::parse`.
unfoldable pub parse : (Bytes → Option Url) → Bytes → Result ProxyConfig
unfolding kind_of unbracket resolve_port percent_decode credentials_of
parse url_of url_str = do
  url ← decode_or (url_parse (msg "{e}")) (url_of url_str)
  kind ← kind_of url.scheme
  host ← decode_or (invalid_url (msg "proxy URL missing host")) url.host_str
  port ← resolve_port url url_str
  ok (record {
    kind = kind;
    host = unbracket host;
    port = port;
    credentials =
        credentials_of (percent_decode url.username) (percent_decode (get_or url.password []));
    tls_to_proxy = same_text url.scheme (codes "https");
  })
