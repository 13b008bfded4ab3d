-- ===== src/Error/Eresult.antt =====
-- src/error.rs, module `eresult`: Steam's result codes.
use Prim.Native.Nat.{ℕ}

abbrev pub ok : ℕ
ok = 1

abbrev pub fail : ℕ
fail = 2

abbrev pub no_connection : ℕ
no_connection = 3

abbrev pub invalid_password : ℕ
invalid_password = 5

abbrev pub busy : ℕ
busy = 10

abbrev pub timeout : ℕ
timeout = 16

abbrev pub service_unavailable : ℕ
service_unavailable = 20

abbrev pub duplicate_request : ℕ
duplicate_request = 29

abbrev pub try_another_cm : ℕ
try_another_cm = 48

abbrev pub account_logon_denied : ℕ
account_logon_denied = 63

abbrev pub rate_limit_exceeded : ℕ
rate_limit_exceeded = 84

abbrev pub account_login_denied_need_two_factor : ℕ
account_login_denied_need_two_factor = 85

abbrev pub account_login_denied_throttle : ℕ
account_login_denied_throttle = 87

abbrev pub two_factor_code_mismatch : ℕ
two_factor_code_mismatch = 88
