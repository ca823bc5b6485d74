-- ===== src/Player.antt =====
-- The level of a player: source 7.6/player.h and player.cpp, with the gains of a vocation. Numbers
-- that double holds for the capacity are natural numbers here; levelPercent and what clients are
-- told is left out. A loop over levels that may not end runs on fuel, `none` when it is used up.
pub mod Vip
pub mod Required
pub mod Gain
pub mod Level
mod Tests
use jamera_server.Base.{
  ℕ, zero, suc, ◌+◌, ◌-◌, ◌*◌, ◌/◌, ◌%◌, ◌^◌, Bool, true, false, ◌&&◌, Option, none, some, ltb,
  ◌||◌, leb, ◌==◌, if◌then◌else◌,
}

-- ConfigManager::TYPE_FORMULA
pub data Formula : Type 0 where
  original : Formula
  tibianic : Formula
  mastercores : Formula

-- An int converted to 64 bits without sign.
abbrev pub widened : ℕ → ℕ
widened n = let low = n % 2 ^ 32 in if ltb low (2 ^ 31) then low else low + (2 ^ 64 - 2 ^ 32)

-- Player::getExpForLevel, for a level from 1 on; the cube of the other formulas is an int.
unfoldable pub get_exp_for_level : Formula → ℕ → ℕ
get_exp_for_level original level =
    let l = level - 1 in (50 * l * l * l + (2 ^ 64 - 150 * l * l % 2 ^ 64) + 400 * l) % 2 ^ 64 / 3
get_exp_for_level tibianic level =
    let l = level - 1 in (l * 35 * widened (l * l * l) % 2 ^ 64 / 500 + 10 * l) % 2 ^ 64
get_exp_for_level mastercores level =
    let l = level - 1 in (l * 50 * widened (l * l * l) % 2 ^ 64 / 500 + 10) % 2 ^ 64

-- gainHP, gainMana and gainCap of a vocation
pub record Vocation : Type 0 where
  pub hp_gain : ℕ
  pub mana_gain : ℕ
  pub cap_gain : ℕ

-- Health and mana are the bit patterns of an int32_t, below 2^32; the capacity, a double, is a
-- number. skill_loss and loss_percent are skillLoss and lossPercent[LOSS_EXPERIENCE].
pub record Player : Type 0 where
  pub experience : ℕ
  pub level : ℕ
  pub health : ℕ
  pub health_max : ℕ
  pub mana : ℕ
  pub mana_max : ℕ
  pub capacity : ℕ
  pub skill_loss : Bool
  pub loss_percent : ℕ

-- a + b in int32_t, and max(0, a - b) of the int32_t difference
abbrev pub plus : ℕ → ℕ → ℕ
plus a b = (a + b) % 2 ^ 32

abbrev pub minus_to_zero : ℕ → ℕ → ℕ
minus_to_zero a b = let d = (a + (2 ^ 32 - b % 2 ^ 32)) % 2 ^ 32 in if ltb d (2 ^ 31) then d else 0

-- What one level gives, and what it takes away.
abbrev pub gained : Vocation → Player → Player
gained v p = record p {
  health_max = plus p.health_max v.hp_gain;
  health = plus p.health v.hp_gain;
  mana_max = plus p.mana_max v.mana_gain;
  mana = plus p.mana v.mana_gain;
  capacity = p.capacity + v.cap_gain;
}

abbrev pub lowered : Vocation → Player → Player
lowered v p = record p {
  health_max = minus_to_zero p.health_max v.hp_gain;
  mana_max = minus_to_zero p.mana_max v.mana_gain;
  capacity = p.capacity - v.cap_gain;
}

-- The loop of addExperience, with newLevel, which is the level in the end.
unfoldable pub advance : ℕ → Formula → Vocation → ℕ → Player → Option Player
advance zero f v new_level p = none
advance (suc fuel) f v new_level p =
    let rest = advance fuel f v (suc new_level) (gained v p) in
    if leb (get_exp_for_level f (suc new_level)) p.experience
    then rest
    else some (record p { level = new_level })

-- Player::addExperience
unfoldable pub add_experience : ℕ → Formula → Vocation → ℕ → Player → Option Player
add_experience fuel f v exp p =
    let q = record p { experience = (p.experience + exp) % 2 ^ 64 } in
    if ltb (get_exp_for_level f (suc p.level)) (get_exp_for_level f p.level)
    then some q
    else advance fuel f v p.level q

-- Player::getLostExperience
unfoldable pub get_lost_experience : Player → ℕ
get_lost_experience p = if p.skill_loss then p.experience * p.loss_percent % 2 ^ 64 / 100 else 0

-- The loop of preSave, on the level.
unfoldable pub fall : Formula → Vocation → ℕ → Player → Player
fall f v zero p = record p { level = 0 }
fall f v (suc n) p =
    let rest = fall f v n (lowered v p) in
    if ltb 0 n && ltb p.experience (get_exp_for_level f (suc n))
    then rest
    else record p { level = suc n }

-- Player::preSave
unfoldable pub pre_save : Formula → Vocation → Player → Player
pre_save f v p =
    if p.health == 0 || leb (2 ^ 31) p.health
    then (let lost = get_lost_experience p in
        let q =
          fall f v p.level (record p { experience = (p.experience + 2 ^ 64 - lost) % 2 ^ 64 }) in
        record q { health = q.health_max; mana = q.mana_max })
    else p
