-- ===== src/Persona/Info.antt =====
-- src/persona.rs: `request_profile_info`.
use steamroids.Prelude.{ℕ, true, List, Option, some, none, ◌==◌, if◌then◌else◌}
use mathlib.Core.Option.{get_or}
use steamroids.Prelude.Int.{ℤ, pos, is_code}
use steamroids.Error.{Result, ok, err, remote, msg_int, ◌>>=◌}
use steamroids.Error.Eresult
use steamroids.Wire.{Bytes, Proto}
use steamroids.Session.Remote.{Remote, Sent, ask}
use steamroids.Auth.SignIn.Begin.{filter_nonempty}
use steamroids.Persona.{ProfileInfo}

abbrev pub emsg_client_friend_profile_info : ℕ
emsg_client_friend_profile_info = 5535

-- `CMsgClientFriendProfileInfo` and its response.
pub record ProfileInfoMsg : Type 0 where
  pub steamid_friend : Option ℕ

pub record ProfileInfoReply : Type 0 where
  pub eresult : Option ℤ
  pub steamid_friend : Option ℕ
  pub time_created : Option ℕ
  pub real_name : Option Bytes
  pub city_name : Option Bytes
  pub state_name : Option Bytes
  pub country_name : Option Bytes
  pub summary : Option Bytes

filter_nonzero : Option ℕ → Option ℕ
filter_nonzero none = none
filter_nonzero (some t) = if t == 0 then none else some t

unfoldable pub profile_info_from_response : ProfileInfoReply → ℕ → Result ProfileInfo
unfolding filter_nonempty filter_nonzero
profile_info_from_response response steam_id =
    let code = get_or response.eresult (pos Eresult.fail) in
    let info : ProfileInfo = record {
      steam_id = get_or response.steamid_friend steam_id;
      real_name = filter_nonempty response.real_name;
      country = filter_nonempty response.country_name;
      state = filter_nonempty response.state_name;
      city = filter_nonempty response.city_name;
      summary = filter_nonempty response.summary;
      created_at = filter_nonzero response.time_created;
    } in
    if is_code code Eresult.ok
    then ok info
    else err (remote (msg_int "profile info: eresult {code}" code))

unfoldable pub request_profile_info :
    Remote
    → Proto ProfileInfoMsg
    → Proto ProfileInfoReply
    → ℕ
    → List Sent
    → Result ProfileInfo × List Sent
unfolding ask profile_info_from_response
request_profile_info env q p steam_id sent =
    let (response, sent') =
      ask env q p true emsg_client_friend_profile_info (record { steamid_friend = some steam_id })
        sent in
    (response >>= λ r. profile_info_from_response r steam_id, sent')
