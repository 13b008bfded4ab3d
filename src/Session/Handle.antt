-- ===== src/Session/Handle.antt =====
-- src/session/driver.rs: the client side, what the methods of `SessionHandle` make of the driver's
-- answers.
--
-- What the environment decides is an argument: whether the driver still takes commands (`queued`),
-- and what comes back on the channel of the caller.
use steamroids.Prelude.{
  ℕ, ◌+◌, ◌≡◌, ◌∙◌, Bool-cases, Option-cases, arith, ◌⊎◌, ◌↔◌, refl, sym, ap, subst, inl, inr, Bool,
  true, false, Option, some, none, if◌then◌else◌,
}
use mathlib.Core.Option.{some-injective}
use steamroids.Prelude.Int.{ℤ, pos, negsuc, is_code}
use steamroids.Error.{Error, Result, ok, err, Result-cases, web_socket, timeout, codec, msg, ◌>>=◌}
use steamroids.Error.Eresult
use steamroids.Wire.{Proto}
use steamroids.Codec.{SteamMessage, decode_or}
use steamroids.Session.Driver.{check_reply_eresult}
use steamroids.Session.Driver.Connected.{Command, request}

abbrev pub default_request_timeout : ℕ
default_request_timeout = 30

-- What the oneshot channel yields before the caller's own timer.
pub data Reception (A : Type 0) : Type 0 where
  answered : A → Reception A
  sender_dropped : Reception A
  expired : Reception A

-- The command of a request that is made at some time.
unfoldable pub request_command : {M : Type 0} → Proto M → ℕ → M → ℕ → ℕ → ℕ → Command
request_command p emsg req now budget caller = request emsg (p.encode req) (now + budget) caller

unfoldable pub received_reply : Reception (Result SteamMessage) → Result SteamMessage
received_reply (answered r) = r
received_reply sender_dropped = err (web_socket (msg "session driver dropped the request"))
received_reply expired = err (timeout "steam request")

unfoldable pub checked : Bool → SteamMessage → Result (Unit {0})
checked true m = check_reply_eresult m
checked false m = ok tt

unfoldable pub decoded_reply :
    {M : Type 0} → Proto M → Bool → Reception (Result SteamMessage) → Result M
unfolding received_reply checked
decoded_reply p check_eresult reception = do
  m ← received_reply reception
  u ← checked check_eresult m
  decode_or (codec (msg "decode response: {e}")) (p.decode m.body)

unfoldable pub dispatch_request :
    {M : Type 0} → Proto M → Bool → Reception (Result SteamMessage) → Bool → Result M
unfolding decoded_reply
dispatch_request p queued reception check_eresult =
    if queued
    then decoded_reply p check_eresult reception
    else err (web_socket (msg "session driver stopped"))

-- `notify` and `logoff`, which wait for the driver without a timer (`none`: it dropped the sender).
unfoldable pub notify_result : Bool → Option (Result (Unit {0})) → Result (Unit {0})
notify_result false ack = err (web_socket (msg "session driver stopped"))
notify_result true (some r) = r
notify_result true none = err (web_socket (msg "session driver dropped the notification"))

unfoldable pub logoff_result : Bool → Option (Unit {0}) → Result (Unit {0})
logoff_result false ack = err (web_socket (msg "session driver stopped"))
logoff_result true ack = ok tt

-- A reply whose header carries no code, or the code for success.
abbrev pub IsAccepted : SteamMessage → Type 0
IsAccepted m = (m.header.eresult ≡ none) ⊎ (m.header.eresult ≡ some (pos Eresult.ok))

-- What a caller gets is the message that decodes, out of a reply that it may take.
abbrev pub Obtains :
    {M : Type 0} → Proto M → Bool → Reception (Result SteamMessage) → Bool → M → Type 0
Obtains p queued reception check_eresult found =
    (queued ≡ true)
    × (m : SteamMessage) × (reception ≡ answered (ok m))
    × (check_eresult ≡ true → IsAccepted m)
    × (p.decode m.body ≡ some found)

is_success : (er : ℤ) → (is_code er Eresult.ok ≡ true) ↔ (er ≡ pos Eresult.ok)
is_success (pos n) = (ground arith, ground arith)
is_success (negsuc n) = (ground arith, ground arith)

check-IsAccepted : (m : SteamMessage) → (check_reply_eresult m ≡ ok tt) ↔ IsAccepted m
unfolding check_reply_eresult
check-IsAccepted m = elim (Option-cases m.header.eresult) [
  | inl absent ↦ (λ h. inl absent, λ a. rw (absent, check_reply_eresult) refl)
  | inr (er, code) ↦ elim (Bool-cases (is_code er Eresult.ok)) [
    | inl good ↦ (
      (λ h. inr (code ∙ ap some ((is_success er).0 good))),
      (λ a. rw (code, good, check_reply_eresult) refl),
    )
    | inr bad ↦ (
      (λ h. absurd (cc (rw (code, bad, check_reply_eresult) at h))),
      (λ a. elim a [
        | inl absent ↦ absurd (cc (sym absent ∙ code))
        | inr success ↦
            absurd (
              cc (bad, (is_success er).1 (some-injective er (pos Eresult.ok) (sym code ∙ success))))
      ]),
    )
  ]
]

checked-IsAccepted :
    (b : Bool) (m : SteamMessage) → (checked b m ≡ ok tt) ↔ (b ≡ true → IsAccepted m)
unfolding checked
checked-IsAccepted true m =
    ((λ h. λ e. (check-IsAccepted m).0 h), (λ f. (check-IsAccepted m).1 (f refl)))
checked-IsAccepted false m = ((λ h. λ e. absurd (cc e)), (λ f. refl))

decode_or-some :
    {M : Type 0} (e : Error) (o : Option M) (found : M)
    → (decode_or e o ≡ ok found) ↔ (o ≡ some found)
decode_or-some e none found = ((λ h. absurd (cc h)), (λ h. absurd (cc h)))
decode_or-some e (some m) found = ((λ h. cc), (λ h. cc))

module _ {M : Type 0} (p : Proto M) (check_eresult : Bool) (found : M) where
  undecodable : Error
  undecodable = codec (msg "decode response: {e}")

  reply-Obtains :
      (reception : Reception (Result SteamMessage))
      → (decoded_reply p check_eresult reception ≡ ok found)
        ↔ Obtains p true reception check_eresult found
  unfolding decoded_reply received_reply undecodable
  reply-Obtains sender_dropped =
      ((λ h. absurd (cc h)), (λ o. let (q, x, same, accepted, decodes) = o in absurd (cc same)))
  reply-Obtains expired =
      ((λ h. absurd (cc h)), (λ o. let (q, x, same, accepted, decodes) = o in absurd (cc same)))
  reply-Obtains (answered (err e)) =
      ((λ h. absurd (cc h)), (λ o. let (q, x, same, accepted, decodes) = o in absurd (cc same)))
  reply-Obtains (answered (ok m)) = (
    (λ h. elim (Result-cases (checked check_eresult m)) [
      | inl (u, good) ↦ (
        refl,
        m,
        refl,
        (checked-IsAccepted check_eresult m).0 good,
        (decode_or-some undecodable (p.decode m.body) found).0 (rw good at h),
      )
      | inr (e, bad) ↦ absurd (cc (rw bad at h))
    ]),
    (λ o.
        let (q, x, same, accepted, decodes) = o in
        let here : m ≡ x = cc in
        let fits : check_eresult ≡ true → IsAccepted m =
          subst (λ (y : SteamMessage). check_eresult ≡ true → IsAccepted y) (sym here) accepted in
        let reads : p.decode m.body ≡ some found =
          subst (λ (y : SteamMessage). p.decode y.body ≡ some found) (sym here) decodes in
        rw ((checked-IsAccepted check_eresult m).1 fits)
          ((decode_or-some undecodable (p.decode m.body) found).1 reads)),
  )

  -- A request gives its caller a message exactly when the driver took the command and answered it
  -- with a reply before the time was up, the reply carries no code or that of success, if the caller
  -- wants that checked, and the message decodes from its body.
  pub dispatch_request-Obtains :
      (queued : Bool) (reception : Reception (Result SteamMessage))
      → (dispatch_request p queued reception check_eresult ≡ ok found)
        ↔ Obtains p queued reception check_eresult found
  unfolding dispatch_request
  dispatch_request-Obtains true reception = reply-Obtains reception
  dispatch_request-Obtains false reception =
      ((λ h. absurd (cc h)), (λ o. let (q, x, same, accepted, decodes) = o in absurd (cc q)))
