-- ===== src/Proxy/Port.antt =====
-- When a proxy URL counts as having a port.
use steamroids.Prelude.{
  ℕ, ◌≡◌, ◌∙◌, subst, refl, inl, inr, ◌⊎◌, true, false, [], ◌∷◌, ◌++◌, some, none, All, ◌==◌, ◌||◌,
  Bool-cases, append_assoc, append-nil, arith, ap,
}
use steamroids.Prelude.Text.{codes}
use steamroids.Prelude.Split.{IsFree, split_once, strip_prefix}
use steamroids.Error.{ok}
use steamroids.Wire.{Bytes}
use steamroids.Proxy.{contains}
use steamroids.Proxy.Parse.{
  Url, until_slash, after_last, all_digits, has_port, port_written, is_port, has_explicit_port,
  resolve_port, default_port,
}

-- What may end an authority: nothing, or a slash, a question mark or a hash.
abbrev pub EndsAuthority : Bytes → Type 0
EndsAuthority [] = Unit {0}
EndsAuthority (b ∷ bs) = (b == b'/' || (b == b'?' || b == b'#')) ≡ true

abbrev pub IsAuthority : Bytes → Type 0
IsAuthority = All (λ (b : ℕ). (b == b'/' || (b == b'?' || b == b'#')) ≡ false)

-- Nothing, or a part that a separator ends.
abbrev pub EndsWith : ℕ → Bytes → Type 0
EndsWith sep part = (part ≡ []) ⊎ ((start : Bytes) × (part ≡ start ++ (sep ∷ [])))

split_once-scheme :
    (scheme rest : Bytes)
    → IsFree b':' scheme
    → split_once (codes "://") (scheme ++ (codes "://" ++ rest)) ≡ some (scheme, rest)
unfolding split_once strip_prefix
split_once-scheme [] rest free = refl
split_once-scheme (b ∷ bs) rest (other, free) =
    rw (other, split_once, strip_prefix, split_once-scheme bs rest free) refl

split_once-colon :
    (name port : Bytes)
    → IsFree b':' name
    → split_once (codes ":") (name ++ (b':' ∷ port)) ≡ some (name, port)
unfolding split_once strip_prefix
split_once-colon [] port free = refl
split_once-colon (b ∷ bs) port (other, free) =
    rw (other, split_once, strip_prefix, split_once-colon bs port free) refl

split_once-none : (name : Bytes) → IsFree b':' name → split_once (codes ":") name ≡ none
unfolding split_once strip_prefix
split_once-none [] free = refl
split_once-none (b ∷ bs) (other, free) =
    rw (other, split_once, strip_prefix, split_once-none bs free) refl

until_slash-authority :
    (auth tail : Bytes) → IsAuthority auth → EndsAuthority tail → until_slash (auth ++ tail) ≡ auth
unfolding until_slash
until_slash-authority [] [] free ends = refl
until_slash-authority [] (b ∷ bs) free ends = rw ends refl
until_slash-authority (b ∷ bs) tail (other, free) ends =
    rw (other, until_slash-authority bs tail free ends) refl

contains-IsFree : (sep : ℕ) (bs : Bytes) → IsFree sep bs → contains sep bs ≡ false
unfolding contains
contains-IsFree sep [] free = refl
contains-IsFree sep (b ∷ bs) (other, free) = rw (other, contains-IsFree sep bs free) refl

contains-middle : (sep : ℕ) (start rest : Bytes) → contains sep (start ++ (sep ∷ rest)) ≡ true
unfolding contains
contains-middle sep [] rest = let same : (sep == sep) ≡ true = ground arith in rw same refl
contains-middle sep (b ∷ bs) rest = elim (Bool-cases (b == sep)) [
  | inl here ↦ rw here refl
  | inr other ↦ rw (other, contains-middle sep bs rest) refl
]

after_last-IsFree : (sep : ℕ) (bs : Bytes) → IsFree sep bs → after_last sep bs ≡ bs
unfolding after_last
after_last-IsFree sep [] free = refl
after_last-IsFree sep (b ∷ bs) (other, free) = rw (contains-IsFree sep bs free, other) refl

after_last-middle :
    (sep : ℕ) (start rest : Bytes) → IsFree sep rest → after_last sep (start ++ (sep ∷ rest)) ≡ rest
unfolding after_last
after_last-middle sep [] rest free =
    let same : (sep == sep) ≡ true = ground arith in rw (contains-IsFree sep rest free, same) refl
after_last-middle sep (b ∷ bs) rest free =
    rw (contains-middle sep bs rest, after_last-middle sep bs rest free) refl

after_last-EndsWith :
    (sep : ℕ) (part rest : Bytes)
    → EndsWith sep part
    → IsFree sep rest
    → after_last sep (part ++ rest) ≡ rest
after_last-EndsWith sep part rest (inl e) free = rw e (after_last-IsFree sep rest free)
after_last-EndsWith sep part rest (inr (start, e)) free =
    rw (e, append_assoc start (sep ∷ []) rest) (after_last-middle sep start rest free)

module _ (scheme user bracket name tail : Bytes) where
  -- A URL by its parts: what precedes the host ends with `@` or is absent, an IPv6 literal in
  -- brackets or the host's name, and what follows the authority.
  abbrev pub raw_url : Bytes → Bytes
  raw_url port = scheme ++ (codes "://" ++ ((user ++ (bracket ++ (name ++ port))) ++ tail))

  abbrev pub IsUrl : Bytes → Type 0
  IsUrl port =
      IsFree b':' scheme
      × EndsWith b'@' user
      × EndsWith b']' bracket
      × IsFree b'@' (bracket ++ (name ++ port))
      × IsFree b']' (name ++ port)
      × IsFree b':' name
      × IsAuthority (user ++ (bracket ++ (name ++ port)))
      × EndsAuthority tail

  explicit-port :
      (port : Bytes)
      → IsUrl port
      → has_explicit_port (raw_url port) ≡ port_written (split_once (codes ":") (name ++ port))
  unfolding has_explicit_port has_port
  explicit-port port (free, at_sign, bracketed, no_at, no_bracket, no_colon, auth, ends) = rw (
    has_explicit_port,
    split_once-scheme scheme ((user ++ (bracket ++ (name ++ port))) ++ tail) free,
    until_slash-authority (user ++ (bracket ++ (name ++ port))) tail auth ends,
    has_port,
    after_last-EndsWith b'@' user (bracket ++ (name ++ port)) at_sign no_at,
    after_last-EndsWith b']' bracket (name ++ port) bracketed no_bracket,
  )

  -- A port is written, as digits after a colon, and the URL parser gives its number, or gives none
  -- and the number as the default of the scheme; or no port is written, the parser gives none, and
  -- the number is the default of this crate for the scheme.
  abbrev pub HasPort : Url → Bytes → ℕ → Type 0
  HasPort url port number =
      ((d : ℕ) × (digits : Bytes) × (port ≡ b':' ∷ d ∷ digits)
        × (all_digits (d ∷ digits) ≡ true)
        × ((url.port ≡ some number)
            ⊎ ((url.port ≡ none) × (url.port_or_known_default ≡ some number))))
      ⊎ ((port ≡ []) × (url.port ≡ none) × (default_port url.scheme ≡ some number))

  explicit-written :
      (d : ℕ) (digits : Bytes)
      → IsUrl (b':' ∷ d ∷ digits)
      → all_digits (d ∷ digits) ≡ true
      → has_explicit_port (raw_url (b':' ∷ d ∷ digits)) ≡ true
  unfolding port_written is_port
  explicit-written d digits shape numeric =
      let (free, at_sign, bracketed, no_at, no_bracket, no_colon, auth, ends) = shape in
      explicit-port (b':' ∷ d ∷ digits) shape
      ∙ rw (split_once-colon name (d ∷ digits) no_colon, numeric, port_written, is_port) refl

  explicit-absent : IsUrl [] → has_explicit_port (raw_url []) ≡ false
  unfolding port_written
  explicit-absent shape =
      let (free, at_sign, bracketed, no_at, no_bracket, no_colon, auth, ends) = shape in
      explicit-port [] shape
      ∙ rw (append-nil name, split_once-none name no_colon, port_written) refl

  -- A port that is written in the authority of a URL is kept as the port of the proxy, whether or
  -- not it is the default of the scheme for the URL parser; where none is written, the port is the
  -- default of this crate.
  pub resolve_port-IsUrl :
      (url : Url) (number : ℕ) (port : Bytes)
      → IsUrl port
      → HasPort url port number
      → resolve_port url (raw_url port) ≡ ok number
  unfolding resolve_port
  resolve_port-IsUrl url number port shape (inl (d, digits, here, numeric, given)) =
      let explicit : has_explicit_port (raw_url port) ≡ true =
        ap (λ (p : Bytes). has_explicit_port (raw_url p)) here
        ∙ explicit-written d digits (subst IsUrl here shape) numeric in
      elim given [
        | inl known ↦ rw (known, resolve_port) refl
        | inr (dropped, default) ↦ rw (dropped, explicit, default, resolve_port) refl
      ]
  resolve_port-IsUrl url number port shape (inr (here, absent, default)) =
      let implicit : has_explicit_port (raw_url port) ≡ false =
        ap (λ (p : Bytes). has_explicit_port (raw_url p)) here
        ∙ explicit-absent (subst IsUrl here shape) in
      rw (absent, implicit, default, resolve_port) refl
