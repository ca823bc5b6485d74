-- ===== src/Ban/Logins.antt =====
-- The limit on login attempts.
use jamera_server.Base.{
  ℕ, ◌+◌, ◌^◌, ◌≤◌, ◌<◌, ◌≡◌, ◌≢◌, Bool, true, false, ◌&&◌, List, [], ◌∷◌, ltb, ◌==◌, if◌then◌else◌,
  arith, length,
}
use jamera_server.Base.Dict.{lookup, lookup-insert}
use jamera_server.Ban.{
  BanManager, LoginBlock, add32, is_blocked, is_ip_disabled, count_attempt, login_block,
  add_login_attempt,
}

-- The entry of an address.
abbrev pub block_of : ℕ → BanManager → LoginBlock
block_of ip b = login_block (lookup ip b.ip_login_map)

-- Failed attempts of one address, one at each of the times of the list.
pub fail_at : ℕ → List ℕ → BanManager → BanManager
fail_at ip [] b = b
fail_at ip (t ∷ ts) b = fail_at ip ts (add_login_attempt t ip false b)

abbrev pub last_time : List ℕ → ℕ → ℕ
last_time [] t = t
last_time (u ∷ us) t = last_time us u

block_of-add_login_attempt :
    (now ip other : ℕ) (ok : Bool) (b : BanManager)
    → ip ≢ 0
    → block_of other (add_login_attempt now ip ok b)
      ≡ (if ip == other then count_attempt b now ok (block_of ip b) else block_of other b)
unfolding add_login_attempt
block_of-add_login_attempt now ip other ok b nz =
    ground (arith, lookup-insert ip other (count_attempt b now ok (block_of ip b)) b.ip_login_map)

-- An attempt counts for the address that made it, and for no other.
pub add_login_attempt-other :
    (now at ip other : ℕ) (ok : Bool) (b : BanManager)
    → other ≢ ip
    → is_ip_disabled (add_login_attempt at ip ok b) now other ≡ is_ip_disabled b now other
unfolding add_login_attempt is_ip_disabled
add_login_attempt-other now at ip other ok b ne =
    ground (arith, lookup-insert ip other (count_attempt b at ok (block_of ip b)) b.ip_login_map)

add_login_attempt-settings :
    (now ip : ℕ) (ok : Bool) (b : BanManager)
    → let b' = add_login_attempt now ip ok b in
      (b'.max_login_tries ≡ b.max_login_tries) × (b'.login_timeout ≡ b.login_timeout)
unfolding add_login_attempt
add_login_attempt-settings now ip ok b = ground arith

count_attempt_failed :
    (now : ℕ) (b : BanManager) (lb : LoginBlock)
    → lb.number_of_logins < b.max_login_tries
    → b.max_login_tries < 2 ^ 32
    → count_attempt b now false lb
      ≡ record { last_login_time = now; number_of_logins = lb.number_of_logins + 1 }
unfolding count_attempt
count_attempt_failed now b lb below small = ground arith

-- The entry after a run of failures that does not go beyond the limit.
fail_at_block :
    (ip t : ℕ) (ts : List ℕ) (b : BanManager)
    → ip ≢ 0
    → (block_of ip b).number_of_logins + length (t ∷ ts) ≤ b.max_login_tries
    → b.max_login_tries < 2 ^ 32
    → let b' = fail_at ip (t ∷ ts) b in
      (block_of ip b' ≡ record {
        last_login_time = last_time ts t;
        number_of_logins = (block_of ip b).number_of_logins + length (t ∷ ts);
      })
      × (b'.max_login_tries ≡ b.max_login_tries)
      × (b'.login_timeout ≡ b.login_timeout)
unfolding fail_at
fail_at_block ip t [] b nz few small = ground (
  arith,
  block_of-add_login_attempt t ip ip false b nz,
  add_login_attempt-settings t ip false b,
  count_attempt_failed t b (block_of ip b),
)
fail_at_block ip t (u ∷ ts) b nz few small = ground (
  arith,
  block_of-add_login_attempt t ip ip false b nz,
  add_login_attempt-settings t ip false b,
  count_attempt_failed t b (block_of ip b),
  fail_at_block ip u ts (add_login_attempt t ip false b) nz,
)

is_ip_disabled_block :
    (now ip : ℕ) (b : BanManager)
    → ip ≢ 0
    → 0 < b.max_login_tries
    → is_ip_disabled b now ip ≡ is_blocked b now (block_of ip b)
unfolding is_ip_disabled
is_ip_disabled_block now ip b nz pos_max = ground arith

-- From an address with a clear record, n failed attempts in a row, n at most the limit, shut it
-- out exactly if n is the limit, and then until the time-out after the last of them.
pub is_ip_disabled-fail_at :
    (now ip t : ℕ) (ts : List ℕ) (b : BanManager)
    → ip ≢ 0
    → (block_of ip b).number_of_logins ≡ 0
    → length (t ∷ ts) ≤ b.max_login_tries
    → b.max_login_tries < 2 ^ 32
    → is_ip_disabled (fail_at ip (t ∷ ts) b) now ip
      ≡ (length (t ∷ ts) == b.max_login_tries && ltb now (add32 (last_time ts t) b.login_timeout))
is_ip_disabled-fail_at now ip t ts b nz clear few small =
    ground
      (arith, is_ip_disabled_block now ip (fail_at ip (t ∷ ts) b) nz, fail_at_block ip t ts b nz)

-- A successful login that does not come too soon after the last attempt clears the record.
pub add_login_attempt-success :
    (now at ip : ℕ) (b : BanManager)
    → add32 (block_of ip b).last_login_time b.retry_timeout ≤ at
    → is_ip_disabled (add_login_attempt at ip true b) now ip ≡ false
unfolding add_login_attempt is_ip_disabled
add_login_attempt-success now at ip b late =
    ground (arith, lookup-insert ip ip (count_attempt b at true (block_of ip b)) b.ip_login_map)

abbrev pub Within : BanManager → Type 0
Within b = (ip : ℕ) → (block_of ip b).number_of_logins ≤ b.max_login_tries

-- An attempt keeps every address's count within the limit, so that it never wraps.
pub add_login_attempt-Within :
    (now ip : ℕ) (ok : Bool) (b : BanManager)
    → 0 < b.max_login_tries
    → Within b
    → Within (add_login_attempt now ip ok b)
unfolding add_login_attempt
add_login_attempt-Within now ip ok b pos_max w other = ground (
  arith,
  lookup-insert ip other (count_attempt b now ok (block_of ip b)) b.ip_login_map,
  w ip,
  w other,
)
