-- ===== src/Condition/Course.antt =====
-- The course of damage over time: executeCondition of ConditionDamage and Condition in source
-- 7.6/condition.cpp and onTickCondition of source 7.6/creature.cpp. endTime stands beside the
-- condition, the time of a call is an argument, and what doDamage gets is the answer; what it does
-- to the creature is left out.
use jamera_server.Base.{
  ℕ, zero, suc, ◌+◌, ◌-◌, ◌*◌, ◌%◌, ◌^◌, ◌≤◌, ◌<◌, ◌≡◌, refl, ap, ◌∙◌, Bool, true, false, not,
  Option, none, some, ltb, leb, ◌==◌, if◌then◌else◌, List, [], ◌∷◌, ◌++◌, All, arith,
}
use jamera_server.Condition.{IntervalInfo, ConditionDamage, minus_one}

pub record Running : Type 0 where
  pub condition : ConditionDamage
  pub end_time : ℕ

-- What executeCondition leaves, the damages that it deals, and what it returns
pub record Executed : Type 0 where
  pub running : Running
  pub dealt : List ℕ
  pub goes_on : Bool

-- a < b as int32_t, and a - b
abbrev pub is_less : ℕ → ℕ → Bool
is_less a b = ltb ((a + 2 ^ 31) % 2 ^ 32) ((b + 2 ^ 31) % 2 ^ 32)

abbrev pub minus : ℕ → ℕ → ℕ
minus a b = (a + (2 ^ 32 - b)) % 2 ^ 32

-- Creature::onTickCondition for the combat type of the field on the tile, which sets bRemove
abbrev pub on_tick_condition : ℕ → Option ℕ → Bool → Bool
on_tick_condition condition_type none b_remove = b_remove
on_tick_condition condition_type (some combat) b_remove =
    if condition_type == 2
    then not (combat == 8)
    else if condition_type == 4
    then not (combat == 2)
    else if condition_type == 1
    then not (combat == 4)
    else b_remove

-- Condition::executeCondition
abbrev pub execute_base : ℕ → ℕ → List ℕ → Running → Executed
execute_base now interval dealt r =
    let ticks = minus r.condition.ticks interval in
    if r.condition.ticks == minus_one
    then record { running = r; dealt = dealt; goes_on = true }
    else record {
      running = record r {
        condition = record r.condition { ticks = if is_less 0 ticks then ticks else 0 };
      };
      dealt = dealt;
      goes_on = leb now r.end_time;
    }

abbrev pub with_list : List IntervalInfo → Running → Running
with_list is r = record r { condition = record r.condition { damage_list = is } }

-- The damages of executeCondition, and the list after it, for a timeLeft that is lowered already
abbrev pub damages : ℕ → IntervalInfo → List ℕ
damages left i = if is_less 0 left then [] else i.value ∷ []

abbrev pub next_list : Bool → ℕ → IntervalInfo → List IntervalInfo → List IntervalInfo
next_list b_remove left i is =
    if is_less 0 left
    then record i { time_left = left } ∷ is
    else if b_remove
    then is
    else record i { time_left = i.interval } ∷ is

-- ConditionDamage::executeCondition for its list
unfoldable pub execute_list : Option ℕ → ℕ → ℕ → List IntervalInfo → Running → Executed
execute_list field now interval [] r = execute_base now interval [] r
execute_list field now interval (i ∷ is) r =
    let b_remove : Bool =
      on_tick_condition r.condition.condition_type field (not (r.condition.ticks == minus_one)) in
    let left : ℕ = minus i.time_left interval in
    let after : Running = with_list (next_list b_remove left i is) r in
    let later : ℕ = if is_less 0 r.condition.ticks then r.end_time + interval else r.end_time in
    if b_remove
    then execute_base now interval (damages left i) after
    else execute_base now 0 (damages left i) (record after { end_time = later })

-- ConditionDamage::executeCondition
unfoldable pub execute_condition : Option ℕ → ℕ → ℕ → Running → Executed
execute_condition field now interval r =
    let tick : ℕ = (r.condition.period_damage_tick + interval) % 2 ^ 32 in
    if r.condition.period_damage == 0
    then execute_list field now interval r.condition.damage_list r
    else if is_less tick r.condition.tick_interval
    then execute_base now interval []
        (record r { condition = record r.condition { period_damage_tick = tick } })
    else execute_base now interval (r.condition.period_damage ∷ [])
        (record r { condition = record r.condition { period_damage_tick = 0 } })

-- n calls of executeConditions, one interval after another from now on: what is dealt, and whether
-- the condition is still there, which is taken off when executeCondition returns false.
unfoldable pub runs : ℕ → ℕ → ℕ → Running → List ℕ × Bool
runs zero now interval r = ([], true)
runs (suc n) now interval r =
    let done = execute_condition none (now + interval) interval r in
    let rest = runs n (now + interval) interval done.running in
    if done.goes_on then (done.dealt ++ rest.0, rest.1) else (done.dealt, false)

unfoldable pub values : List IntervalInfo → List ℕ
values [] = []
values (i ∷ is) = i.value ∷ values is

unfoldable pub time_left_of : List IntervalInfo → ℕ
time_left_of [] = 0
time_left_of (i ∷ is) = i.time_left + time_left_of is

-- Its time left is the interval some times.
abbrev pub Multiple : ℕ → IntervalInfo → Type 0
Multiple interval i = (m : ℕ) × (i.time_left ≡ m * interval + interval)

-- A condition without damage by the period, with its ticks counted, whose damage waits for some
-- intervals each
pub record Ready (interval : ℕ) (r : Running) : Type 0 where
  pub no_period : r.condition.period_damage ≡ 0
  pub counted : r.condition.ticks < 2 ^ 31
  pub multiple : All (Multiple interval) r.condition.damage_list

-- One interval for the first of the list: the last one, or one more
last_step :
    (now interval : ℕ) (i : IntervalInfo) (is : List IntervalInfo) (r : Running)
    → 0 < interval
    → interval < 2 ^ 31
    → r.condition.ticks < 2 ^ 31
    → i.time_left ≡ interval
    → now ≤ r.end_time
    → let done = execute_list none now interval (i ∷ is) r in
      (done.dealt ≡ i.value ∷ [])
      × (done.goes_on ≡ true)
      × (done.running.condition.damage_list ≡ is)
      × (done.running.condition.period_damage ≡ r.condition.period_damage)
      × (done.running.condition.ticks < 2 ^ 31)
      × (done.running.end_time ≡ r.end_time)
unfolding execute_list
last_step now interval i is r p b t e l = ground arith

earlier_step :
    (now interval : ℕ) (i : IntervalInfo) (is : List IntervalInfo) (r : Running)
    → 0 < interval
    → interval < i.time_left
    → i.time_left < 2 ^ 31
    → r.condition.ticks < 2 ^ 31
    → now ≤ r.end_time
    → let done = execute_list none now interval (i ∷ is) r in
      (done.dealt ≡ [])
      × (done.goes_on ≡ true)
      × (done.running.condition.damage_list ≡ record i { time_left = i.time_left - interval } ∷ is)
      × (done.running.condition.period_damage ≡ r.condition.period_damage)
      × (done.running.condition.ticks < 2 ^ 31)
      × (done.running.end_time ≡ r.end_time)
unfolding execute_list
earlier_step now interval i is r p b t e l =
    let left : minus i.time_left interval ≡ i.time_left - interval = omega arith in
    let positive : is_less 0 (i.time_left - interval) ≡ true = ground arith in ground arith

-- The call is one of its list when there is no damage by the period.
execute_condition-list :
    (now interval : ℕ) (is : List IntervalInfo) (r : Running)
    → r.condition.period_damage ≡ 0
    → r.condition.damage_list ≡ is
    → execute_condition none now interval r ≡ execute_list none now interval is r
unfolding execute_condition
execute_condition-list now interval is r p e = rw (p, e, execute_condition) refl

runs-step :
    (n now interval : ℕ) (r : Running) (done : Executed) (vs : List ℕ)
    → execute_condition none (now + interval) interval r ≡ done
    → done.goes_on ≡ true
    → runs n (now + interval) interval done.running ≡ (vs, true)
    → runs (suc n) now interval r ≡ (done.dealt ++ vs, true)
unfolding runs
runs-step n now interval r done vs e on rest = rw (e, on, rest, runs) refl

-- A run whose list is given beside the condition
runs-list :
    (n now interval : ℕ) (is : List IntervalInfo) (r : Running)
    → 0 < interval
    → r.condition.period_damage ≡ 0
    → r.condition.ticks < 2 ^ 31
    → r.condition.damage_list ≡ is
    → All (Multiple interval) is
    → time_left_of is ≡ n * interval
    → time_left_of is < 2 ^ 31
    → now + n * interval ≤ r.end_time
    → runs n now interval r ≡ (values is, true)
unfolding values time_left_of runs
runs-list zero now interval [] r p h c e a t b l = refl
runs-list zero now interval (i ∷ is) r p h c e ((m, em), a) t b l = absurd (omega arith)
runs-list (suc n) now interval [] r p h c e a t b l = absurd (omega arith)
runs-list (suc n) now interval (i ∷ is) r p h c e ((zero, em), a) t b l =
    let on_list = execute_condition-list (now + interval) interval (i ∷ is) r h e in
    let done = execute_list none (now + interval) interval (i ∷ is) r in
    let (dealt, on, left, period, ticks, end) =
      last_step (now + interval) interval i is r p (omega arith) c (omega arith) (omega arith) in
    let rest =
      runs-list n (now + interval) interval is done.running p (period ∙ h) ticks left a
        (omega arith) (omega arith) (omega arith) in
    runs-step n now interval r done (values is) on_list on rest
    ∙ ap (λ ds. (ds ++ values is, true)) dealt
runs-list (suc n) now interval (i ∷ is) r p h c e ((suc m, em), a) t b l =
    let on_list = execute_condition-list (now + interval) interval (i ∷ is) r h e in
    let done = execute_list none (now + interval) interval (i ∷ is) r in
    let i' : IntervalInfo = record i { time_left = i.time_left - interval } in
    let (dealt, on, left, period, ticks, end) =
      earlier_step (now + interval) interval i is r p (omega arith) (omega arith) c (omega arith) in
    let rest =
      runs-list n (now + interval) interval (i' ∷ is) done.running p (period ∙ h) ticks left
        ((m, omega arith), a) (omega arith) (omega arith) (omega arith) in
    runs-step n now interval r done (values (i ∷ is)) on_list on rest
    ∙ ap (λ ds. (ds ++ values (i ∷ is), true)) dealt

-- Damage.
pub runs-deals :
    (n now interval : ℕ) (r : Running)
    → 0 < interval
    → Ready interval r
    → time_left_of r.condition.damage_list ≡ n * interval
    → n * interval < 2 ^ 31
    → now + n * interval ≤ r.end_time
    → runs n now interval r ≡ (values r.condition.damage_list, true)
runs-deals n now interval r p ready t b l =
    runs-list n now interval r.condition.damage_list r p ready.no_period ready.counted refl
      ready.multiple t (omega arith) l
