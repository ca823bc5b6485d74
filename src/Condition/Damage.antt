-- ===== src/Condition/Damage.antt =====
-- How a condition is filled and started: setTicks and startCondition of Condition, addDamage of
-- ConditionDamage in source 7.6/condition.cpp. The random list of init is left out.
use jamera_server.Base.{
  ℕ, zero, suc, ◌+◌, ◌-◌, ◌%◌, ◌^◌, is_empty, Option, none, some, ◌&&◌, Bool, true, false, ◌==◌,
  if◌then◌else◌, List, [], ◌∷◌, ◌++◌,
}
use jamera_server.Condition.{IntervalInfo, minus_one}
use jamera_server.Condition.Course.{Running, is_less, minus, with_list}

-- Condition::setTicks
abbrev pub set_ticks : ℕ → ℕ → Running → Running
set_ticks now ticks r = record {
  condition = record r.condition { ticks = ticks };
  end_time = if is_less ticks 0 then now - minus 0 ticks else ticks + now;
}

-- Condition::startCondition
unfoldable pub start_condition : ℕ → Running → Running
start_condition now r =
    if is_less 0 r.condition.ticks then record r { end_time = r.condition.ticks + now } else r

unfoldable pub next_of : List IntervalInfo → Running → Option (ℕ × Running)
next_of [] r = none
next_of (i ∷ is) r = some (i.value, if r.condition.ticks == minus_one then r else with_list is r)

-- ConditionDamage::getNextDamage, none for false
unfoldable pub get_next_damage : Running → Option (ℕ × Running)
get_next_damage r =
    if r.condition.period_damage == 0
    then next_of r.condition.damage_list r
    else some (r.condition.period_damage, r)

-- What startCondition leaves, the damage that it deals, and what it returns
pub record Started : Type 0 where
  pub running : Running
  pub dealt : List ℕ
  pub starts : Bool

abbrev pub deal_first : Bool → Running → Option (ℕ × Running) → Started
deal_first hits r none = record { running = r; dealt = []; starts = true }
deal_first hits r (some (damage, r')) = record { running = r'; dealt = damage ∷ []; starts = hits }

-- ConditionDamage::startCondition, where doDamage answers `hits`: none where init fills the list.
unfoldable pub start_damage : Bool → ℕ → Running → Option Started
start_damage hits now r =
    let s : Running = start_condition now r in
    if r.condition.period_damage == 0 && is_empty r.condition.damage_list
    then none
    else if r.condition.delayed
    then some (record { running = s; dealt = []; starts = true })
    else some (deal_first hits s (get_next_damage s))

-- A pass of the loop of addDamage
unfoldable pub add_round : ℕ → ℕ → ℕ → Running → Running
add_round now time value r =
    let i : IntervalInfo = record { time_left = time; value = value; interval = time } in
    let after : Running = with_list (r.condition.damage_list ++ i ∷ []) r in
    if r.condition.ticks == minus_one
    then after
    else set_ticks now ((r.condition.ticks + time) % 2 ^ 32) after

unfoldable pub add_rounds : ℕ → ℕ → ℕ → ℕ → Running → Running
add_rounds zero now time value r = r
add_rounds (suc n) now time value r = add_rounds n now time value (add_round now time value r)

-- ConditionDamage::addDamage, with what it returns
unfoldable pub add_damage : ℕ → ℕ → ℕ → ℕ → Running → Running × Bool
add_damage now rounds time value r =
    if rounds == minus_one
    then (
      record r {
        condition = record r.condition {
          period_damage = value;
          tick_interval = if is_less time 0 then minus 0 time else time;
          ticks = minus_one;
        };
      },
      true,
    )
    else if is_less 0 r.condition.period_damage
    then (r, false)
    else (add_rounds (if is_less 0 rounds then rounds else 0) now time value r, true)
