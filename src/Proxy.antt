-- ===== src/Proxy.antt =====
-- src/transport/proxy.rs and src/transport/mod.rs: proxy addresses.
--
-- The sockets, TLS and SOCKS5 are not modelled. Texts are lists of bytes.
pub mod Parse
pub mod Percent
pub mod Port
mod Runs
use steamroids.Prelude.{ℕ, Bool, true, false, [], ◌∷◌, ◌++◌, Option, ◌==◌, ◌||◌, if◌then◌else◌}
use steamroids.Prelude.Text.{codes, decimal}
use steamroids.Wire.{Bytes}

pub data ProxyKind : Type 0 where
  socks5 http_connect : ProxyKind

pub record ProxyCredentials : Type 0 where
  pub username : Bytes
  pub password : Bytes

pub record ProxyConfig : Type 0 where
  pub kind : ProxyKind
  pub host : Bytes
  pub port : ℕ
  pub credentials : Option ProxyCredentials
  pub tls_to_proxy : Bool

-- `contains`.
unfoldable pub contains : ℕ → Bytes → Bool
contains c [] = false
contains c (b ∷ bs) = b == c || contains c bs

-- `host:port`, with square brackets round an IPv6 literal.
unfoldable pub authority : Bytes → ℕ → Bytes
unfolding contains
authority host port =
    if contains b':' host
    then codes "[" ++ (host ++ (codes "]:" ++ decimal port))
    else host ++ (codes ":" ++ decimal port)

scheme_of : ProxyKind → Bool → Bytes
scheme_of socks5 tls = codes "socks5"
scheme_of http_connect true = codes "https"
scheme_of http_connect false = codes "http"

pub scheme_label : ProxyConfig → Bytes
unfolding scheme_of
scheme_label p = scheme_of p.kind p.tls_to_proxy

pub display : ProxyConfig → Bytes
display p = scheme_label p ++ (codes "://" ++ authority p.host p.port)
