-- ===== src/Proxy/Runs.antt =====
-- Proxy URLs at concrete inputs.
use steamroids.Prelude.{◌≡◌, arith, refl, inr, false, [], ◌∷◌, some, none, inl}
use steamroids.Prelude.Text.{codes}
use steamroids.Error.{ok}
use steamroids.Proxy.{http_connect}
use steamroids.Prelude.Utf8.{from_utf8_lossy, lossy_from, next_char, start_char, continuations}
use steamroids.Proxy.Parse.{
  Url, hex_nibble, percent_decode, percent_bytes, escape_value, resolve_port, all_digits, parse,
}
use steamroids.Proxy.Percent.{
  Escapes, decimal, lower, upper, done, plain, escape, percent_decode-Escapes,
}
use steamroids.Proxy.Port.{IsUrl, resolve_port-IsUrl}

-- `p%4as%4A` is `pJsJ`.
written : Escapes (codes "p%4as%4A") (codes "pJsJ")
written =
    plain b'p' (codes "%4as%4A") (codes "JsJ") (λ e. absurd (omega arith))
      (escape b'4' b'a' 4 10 (codes "s%4A") (codes "sJ") (decimal 4 (omega arith))
        (lower 0 (omega arith))
        (plain b's' (codes "%4A") (codes "J") (λ e. absurd (omega arith))
          (escape b'4' b'A' 4 10 [] [] (decimal 4 (omega arith)) (upper 0 (omega arith)) done)))

percent_decode-Escapes_example : percent_decode (codes "p%4as%4A") ≡ from_utf8_lossy (codes "pJsJ")
percent_decode-Escapes_example = percent_decode-Escapes (codes "p%4as%4A") (codes "pJsJ") written

-- A character of two bytes in escapes, and a byte that is none.
two_bytes : percent_decode (codes "%C3%a9%ff") ≡ 0xC3 ∷ 0xA9 ∷ 0xEF ∷ 0xBF ∷ 0xBD ∷ []
unfolding percent_decode from_utf8_lossy lossy_from percent_bytes escape_value next_char start_char
    continuations hex_nibble
two_bytes = refl

-- The URL parser drops a port that is the default of its scheme.
abbrev url : Url
url = record {
  scheme = codes "http";
  host_str = some (codes "[::1]");
  port = none;
  port_or_known_default = some 80;
  username = codes "u";
  password = none;
}

parts-IsUrl : IsUrl (codes "http") (codes "u@") (codes "[::1]") [] (codes "/x") (codes ":80")
parts-IsUrl = (
  (refl, (refl, (refl, (refl, tt)))),
  inr (codes "u", refl),
  inr (codes "[::1", refl),
  (refl, (refl, (refl, (refl, (refl, (refl, (refl, (refl, tt)))))))),
  (refl, (refl, (refl, tt))),
  tt,
  (refl, (refl, (refl, (refl, (refl, (refl, (refl, (refl, (refl, (refl, tt)))))))))),
  refl,
)

resolve_port-IsUrl_example : resolve_port url (codes "http://u@[::1]:80/x") ≡ ok 80
unfolding all_digits
resolve_port-IsUrl_example =
    resolve_port-IsUrl (codes "http") (codes "u@") (codes "[::1]") [] (codes "/x") url 80
      (codes ":80") parts-IsUrl (inl (b'8', codes "0", refl, refl, inr (refl, refl)))

parsed :
    parse (λ raw. some url) (codes "http://u@[::1]/x")
    ≡ ok (record {
      kind = http_connect;
      host = codes "::1";
      port = 8080;
      credentials = some (record { username = codes "u"; password = [] });
      tls_to_proxy = false;
    })
unfolding parse
parsed = refl
