-- ===== src/Ban/Tests.antt =====
-- Runs of the ban manager, and the theorems about it at concrete inputs.
use jamera_server.Base.{◌≡◌, refl, ◌&&◌, [], ◌∷◌, ltb, ◌==◌, arith}
use jamera_server.Ban.{BanManager, add32, is_ip_disabled}
use jamera_server.Base.Dict.{lookup}
use jamera_server.Ban.Logins.{fail_at, is_ip_disabled-fail_at}

abbrev manager : BanManager
manager = record {
  ip_login_map = [];
  ip_connect_map = [];
  login_timeout = 60;
  max_login_tries = 3;
  retry_timeout = 5;
}

is_ip_disabled-fail_at_example :
    is_ip_disabled (fail_at 7 (100 ∷ 110 ∷ 120 ∷ []) manager) 150 7
    ≡ (3 == 3 && ltb 150 (add32 120 60))
unfolding lookup
is_ip_disabled-fail_at_example =
    is_ip_disabled-fail_at 150 7 100 (110 ∷ 120 ∷ []) manager (omega arith) refl (omega arith)
      (omega arith)
