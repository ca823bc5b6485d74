-- ===== src/Condition/Generic.antt =====
-- The conditions of a creature that do nothing but last: Condition and ConditionGeneric of source
-- 7.6/condition.cpp, and the list of conditions with its calls in source 7.6/creature.cpp. The time
-- of a call and what isSuppress says are arguments. The creature is no monster, whose onAddCondition
-- is another; what clients are told of a condition is left out.
use jamera_server.Base.{
  ℕ, ◌+◌, ◌-◌, ◌^◌, Bool, false, not, ◌&&◌, ◌||◌, Option, none, some, ltb, leb, ◌==◌, if◌then◌else◌,
  List, [], ◌∷◌,
}
use jamera_server.Condition.{minus_one}
use jamera_server.Condition.Course.{is_less, minus}

pub record ConditionGeneric : Type 0 where
  pub id : ℕ
  pub ticks : ℕ
  pub end_time : ℕ
  pub condition_type : ℕ

-- Condition::setTicks
abbrev pub put_ticks : ℕ → ℕ → ConditionGeneric → ConditionGeneric
put_ticks now ticks c = record c {
  ticks = ticks;
  end_time = if is_less ticks 0 then now - minus 0 ticks else ticks + now;
}

-- ConditionGeneric::startCondition, which always returns true
abbrev pub start_generic : ℕ → ConditionGeneric → ConditionGeneric
start_generic now c = if is_less 0 c.ticks then record c { end_time = c.ticks + now } else c

-- ConditionGeneric::executeCondition, none for false
abbrev pub execute_generic : ℕ → ℕ → ConditionGeneric → Option ConditionGeneric
execute_generic now interval c =
    let ticks = minus c.ticks interval in
    if c.ticks == minus_one
    then some c
    else if leb now c.end_time
    then some (record c { ticks = if is_less 0 ticks then ticks else 0 })
    else none

-- Condition::updateCondition for the condition that is there
abbrev pub update_condition : ℕ → ConditionGeneric → ConditionGeneric → Bool
update_condition now added c =
    c.condition_type == added.condition_type
    && not (c.ticks == minus_one && is_less 0 added.ticks)
    && not (not (is_less added.ticks 0) && ltb (now + added.ticks) c.end_time)

-- ConditionGeneric::addCondition
abbrev pub merge : ℕ → ConditionGeneric → ConditionGeneric → ConditionGeneric
merge now added c = if update_condition now added c then put_ticks now added.ticks c else c

-- The list after Creature::addCondition, before onAddCondition: the one that getCondition finds
-- takes the new one up, or this is started and comes to the end.
unfoldable pub take_up : ℕ → ConditionGeneric → List ConditionGeneric → List ConditionGeneric
take_up now added [] = start_generic now added ∷ []
take_up now added (c ∷ cs) =
    let rest = take_up now added cs in
    if c.condition_type == added.condition_type && c.id == added.id
    then merge now added c ∷ cs
    else c ∷ rest

-- Creature::getCondition for a type and an id: whether it is there
unfoldable pub has_equal : ConditionGeneric → List ConditionGeneric → Bool
has_equal added [] = false
has_equal added (c ∷ cs) =
    (c.condition_type == added.condition_type && c.id == added.id) || has_equal added cs

abbrev pub put_back : Option ConditionGeneric → List ConditionGeneric → List ConditionGeneric
put_back none cs = cs
put_back (some c) cs = c ∷ cs

-- Creature::executeConditions
unfoldable pub execute_conditions : ℕ → ℕ → List ConditionGeneric → List ConditionGeneric
execute_conditions now interval [] = []
execute_conditions now interval (c ∷ cs) =
    put_back (execute_generic now interval c) (execute_conditions now interval cs)

-- Creature::removeCondition for a type and an id
unfoldable pub remove_condition : ℕ → ℕ → List ConditionGeneric → List ConditionGeneric
remove_condition condition_type id [] = []
remove_condition condition_type id (c ∷ cs) =
    let rest = remove_condition condition_type id cs in
    if c.condition_type == condition_type && c.id == id then rest else c ∷ rest

-- Creature::hasCondition, for what isSuppress says
abbrev pub in_time : ℕ → ℕ → ConditionGeneric → Bool
in_time now condition_type c =
    c.condition_type == condition_type && (c.end_time == 0 || leb now c.end_time)

unfoldable pub has_condition : ℕ → Bool → ℕ → List ConditionGeneric → Bool
has_condition now suppressed condition_type [] = false
has_condition now suppressed condition_type (c ∷ cs) =
    not suppressed
    && (in_time now condition_type c || has_condition now suppressed condition_type cs)

-- Creature::removeCondition for a type
unfoldable pub remove_type : ℕ → List ConditionGeneric → List ConditionGeneric
remove_type condition_type [] = []
remove_type condition_type (c ∷ cs) =
    let rest = remove_type condition_type cs in
    if c.condition_type == condition_type then rest else c ∷ rest

-- Creature::onAddCondition: CONDITION_PARALYZE takes CONDITION_HASTE off, and the other way round.
unfoldable pub on_add_condition : ℕ → (ℕ → Bool) → ℕ → List ConditionGeneric → List ConditionGeneric
on_add_condition now suppressed condition_type cs =
    if condition_type == 2 ^ 5 && has_condition now (suppressed (2 ^ 4)) (2 ^ 4) cs
    then remove_type (2 ^ 4) cs
    else if condition_type == 2 ^ 4 && has_condition now (suppressed (2 ^ 5)) (2 ^ 5) cs
    then remove_type (2 ^ 5) cs
    else cs

-- Creature::addCondition
unfoldable pub add_condition :
    ℕ → (ℕ → Bool) → ConditionGeneric → List ConditionGeneric → List ConditionGeneric
add_condition now suppressed added cs =
    if has_equal added cs
    then take_up now added cs
    else on_add_condition now suppressed added.condition_type (take_up now added cs)
