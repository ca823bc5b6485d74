-- ===== src/Ban.antt =====
-- The part of the ban manager that is kept in memory, source 7.6/ban.h and ban.cpp: how often an
-- address may try to log in, and how often it may connect. (The bans themselves are rows of the
-- data base, and the methods on them are its queries.) The seconds of std::time and the
-- milliseconds of OTSYS_TIME are arguments. (Nothing in the source calls acceptConnection.)
pub mod Logins
pub mod Connections
mod Tests
use jamera_server.Base.{
  ℕ, suc, ◌+◌, ◌-◌, ◌/◌, ◌%◌, ◌^◌, Bool, true, false, ◌&&◌, ◌||◌, not, Option, none, some, List, [],
  ◌∷◌, ltb, leb, ◌==◌, if◌then◌else◌,
}
use jamera_server.Base.Dict.{Dict, lookup, insert}

-- LoginBlock
pub record LoginBlock : Type 0 where
  pub last_login_time : ℕ
  pub number_of_logins : ℕ

-- ipLoginMap, ipConnectMap (a ConnectBlock is its lastConnection) and the settings.
pub record BanManager : Type 0 where
  pub ip_login_map : Dict LoginBlock
  pub ip_connect_map : Dict ℕ
  pub login_timeout : ℕ
  pub max_login_tries : ℕ
  pub retry_timeout : ℕ

-- loadSettings, from the three numbers of the configuration.
pub load_settings : ℕ → ℕ → ℕ → BanManager → BanManager
load_settings login_tries retry_timeout login_timeout b = record b {
  max_login_tries = login_tries % 2 ^ 32;
  retry_timeout = (retry_timeout % 2 ^ 32) / 1000;
  login_timeout = (login_timeout % 2 ^ 32) / 1000;
}

-- a + b in uint32_t, and a - b in uint64_t.
abbrev pub add32 : ℕ → ℕ → ℕ
add32 a b = (a + b) % 2 ^ 32

abbrev pub sub64 : ℕ → ℕ → ℕ
sub64 a b = (a + 2 ^ 64 - b) % 2 ^ 64

-- The test of isIpDisabled on the entry that was found.
abbrev pub is_blocked : BanManager → ℕ → LoginBlock → Bool
is_blocked b now lb =
    leb b.max_login_tries lb.number_of_logins && ltb now (add32 lb.last_login_time b.login_timeout)

-- isIpDisabled
pub is_ip_disabled : BanManager → ℕ → ℕ → Bool
is_ip_disabled b now clientip =
    if b.max_login_tries == 0
    then false
    else if clientip == 0
    then false
    else elim (lookup clientip b.ip_login_map) [ none ↦ false | some lb ↦ is_blocked b now lb ]

-- What addLoginAttempt does to the entry of the address: it starts again from 0 once the limit
-- was reached, counts a failure and a retry that comes too soon, and forgets all at a success.
pub count_attempt : BanManager → ℕ → Bool → LoginBlock → LoginBlock
count_attempt b now is_success lb =
    let start = if leb b.max_login_tries lb.number_of_logins then 0 else lb.number_of_logins in
    record {
      last_login_time = now;
      number_of_logins =
          if not is_success || ltb now (add32 lb.last_login_time b.retry_timeout)
          then add32 start 1
          else 0;
    }

-- The entry that addLoginAttempt works on: a new one if there was none.
abbrev pub login_block : Option LoginBlock → LoginBlock
login_block none = record { last_login_time = 0; number_of_logins = 0 }
login_block (some lb) = lb

-- addLoginAttempt
pub add_login_attempt : ℕ → ℕ → Bool → BanManager → BanManager
unfolding count_attempt
add_login_attempt now clientip is_success b = if clientip == 0 then b else record b {
  ip_login_map =
      insert clientip
        (count_attempt b now is_success (login_block (lookup clientip b.ip_login_map)))
        b.ip_login_map;
}

-- acceptConnection
pub accept_connection : ℕ → ℕ → BanManager → Bool × BanManager
accept_connection now clientip b =
    if clientip == 0 then (false, b) else elim (lookup clientip b.ip_connect_map) [
      | none ↦ (true, record b { ip_connect_map = insert clientip now b.ip_connect_map })
      | some last ↦
          if ltb (sub64 now last) 1000
          then (false, b)
          else (true, record b { ip_connect_map = insert clientip now b.ip_connect_map })
    ]
