-- ===== src/Session/Connection/Response.antt =====
-- What a message means to a logon: the response that accepts, and what is ignored.
use mathlib.Core.Option.{get_or}
use steamroids.Prelude.{
  ℕ, max, ◌≡◌, ◌≢◌, ◌↔◌, ◌∙◌, sym, ap, refl, true, Option, some, none, ◌==◌, Bool-cases,
  Option-cases, inl, inr, arith,
}
use steamroids.Prelude.Int.{ℤ, pos, negsuc, is_code}
use steamroids.Error.{ok}
use steamroids.Error.Eresult
use steamroids.Codec.{SteamMessage}
use steamroids.Session.Connection.Logon.{
  LogonProtos, LogonResponse, LoggedOn, Ids, verdict, on_response, accept, seconds,
  default_heartbeat_secs, emsg_client_logon_response, logged_off_type,
}

-- A message that is neither the response nor a logoff.
abbrev pub IsIgnored : SteamMessage → Type 0
IsIgnored m = (m.emsg ≢ emsg_client_logon_response) × (m.emsg ≢ logged_off_type)

-- The seconds between heartbeats: 9 unless the response says, and at least 1.
abbrev pub heartbeat_of : Option ℤ → ℕ
heartbeat_of none = 9
heartbeat_of (some (pos n)) = max n 1
heartbeat_of (some (negsuc n)) = 1

-- A response with the code OK, which assigns the ids in its header where these are present.
abbrev pub IsAccepted : LogonProtos → Ids → SteamMessage → Ids → LoggedOn → Type 0
IsAccepted p ids m ids' details =
    (m.emsg ≡ emsg_client_logon_response)
    × (resp : LogonResponse) × (p.response.decode m.body ≡ some resp)
    × (resp.eresult ≡ some (pos Eresult.ok))
    × (ids' ≡ record {
      steam_id = get_or m.header.steamid ids.steam_id;
      session_id = get_or m.header.client_sessionid ids.session_id;
    })
    × (details ≡ record {
      steam_id = get_or m.header.steamid ids.steam_id;
      session_id = get_or m.header.client_sessionid ids.session_id;
      heartbeat_interval = heartbeat_of resp.heartbeat_seconds;
    })

heartbeat_of-seconds : (h : Option ℤ) → seconds (get_or h default_heartbeat_secs) ≡ heartbeat_of h
unfolding seconds
heartbeat_of-seconds none = refl
heartbeat_of-seconds (some (pos n)) = refl
heartbeat_of-seconds (some (negsuc n)) = refl

ok_code :
    (code : Option ℤ)
    → is_code (get_or code (pos Eresult.fail)) Eresult.ok ≡ true
    → code ≡ some (pos Eresult.ok)
ok_code none h = absurd (cc h)
ok_code (some (pos n)) h = ap (λ k. some (pos k)) (ground (arith, h))
ok_code (some (negsuc n)) h = absurd (cc h)

module _ (p : LogonProtos) (ids : Ids) where
  on_response-IsAccepted :
      (m : SteamMessage) (ids' : Ids) (details : LoggedOn)
      → m.emsg ≡ emsg_client_logon_response
      → (on_response p ids m ≡ ok (ids', details)) ↔ IsAccepted p ids m ids' details
  unfolding on_response accept
  on_response-IsAccepted m ids' details type = elim (Option-cases (p.response.decode m.body)) [
    | inl bad ↦ (
      (λ h. absurd (cc (rw (bad, on_response) at h))),
      (λ t. let (e, resp, good, code, same_ids, same_details) = t in absurd (cc (sym bad ∙ good))),
    )
    | inr (resp, good) ↦
        let here = is_code (get_or resp.eresult (pos Eresult.fail)) Eresult.ok in
        elim (Bool-cases here) [
          | inr refused ↦ (
            (λ h. absurd (cc (rw (good, refused, on_response) at h))),
            (λ t.
                let (e, resp', good', code, same_ids, same_details) = t in
                let same : resp ≡ resp' = cc (sym good ∙ good') in
                absurd (cc (rw (same, code) at refused))),
          )
          | inl fine ↦ (
            (λ h.
                let both =
                  rw (good, fine, on_response, heartbeat_of-seconds resp.heartbeat_seconds) at h in
                (type, resp, good, ok_code resp.eresult fine, cc both, cc both)),
            (λ t.
                let (e, resp', good', code, same_ids, same_details) = t in
                rw
                  (
                    good',
                    code,
                    on_response,
                    heartbeat_of-seconds resp'.heartbeat_seconds,
                    same_ids,
                    same_details,
                  )
                  refl),
          )
        ]
  ]

  pub verdict-IsAccepted :
      (m : SteamMessage) (ids' : Ids) (details : LoggedOn)
      → (verdict p ids m ≡ some (ok (ids', details))) ↔ IsAccepted p ids m ids' details
  unfolding verdict
  verdict-IsAccepted m ids' details = elim (Bool-cases (m.emsg == emsg_client_logon_response)) [
    | inl same ↦
        let type : m.emsg ≡ emsg_client_logon_response = ground (arith, same) in
        let (forth, back) = on_response-IsAccepted m ids' details type in
        ((λ h. forth (cc (rw (same, verdict) at h))), (λ t. rw (same, verdict) (ap some (back t))))
    | inr other ↦ elim (Bool-cases (m.emsg == logged_off_type)) [
      | inl off ↦ (
        (λ h. absurd (cc (rw (other, off, verdict) at h))),
        (λ t. absurd (ground (arith, other, t.0))),
      )
      | inr neither ↦ (
        (λ h. absurd (cc (rw (other, neither, verdict) at h))),
        (λ t. absurd (ground (arith, other, t.0))),
      )
    ]
  ]

  pub verdict-IsIgnored : (m : SteamMessage) → (verdict p ids m ≡ none) ↔ IsIgnored m
  unfolding verdict
  verdict-IsIgnored m = elim (Bool-cases (m.emsg == emsg_client_logon_response)) [
    | inl same ↦
        ((λ h. absurd (cc (rw (same, verdict) at h))), (λ t. absurd (t.0 (ground (arith, same)))))
    | inr other ↦ elim (Bool-cases (m.emsg == logged_off_type)) [
      | inl off ↦ (
        (λ h. absurd (cc (rw (other, off, verdict) at h))),
        (λ t. absurd (t.1 (ground (arith, off)))),
      )
      | inr neither ↦ (
        (λ h.
            ((λ e. absurd (ground (arith, other, e))), (λ e. absurd (ground (arith, neither, e))))),
        (λ t. rw (other, neither, verdict) refl),
      )
    ]
  ]
