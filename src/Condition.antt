-- ===== src/Condition.antt =====
-- Damage over time: Condition and ConditionDamage of source 7.6/condition.h and condition.cpp, here as
-- they are stored with a player, with the loops over them in source 7.6/ioplayer.cpp. An int32_t is
-- its bit pattern, below 2^32. endTime, which is not stored, stands beside them in Condition/Course.
pub mod Bytes
pub mod Course
pub mod Damage
pub mod Dealing
pub mod Filling
pub mod Generic
pub mod Kept
pub mod Lasting
pub mod Resumed
pub mod Starting
pub mod Stored
mod Tests
use jamera_server.Base.{
  ℕ, zero, suc, ◌+◌, ◌-◌, ◌%◌, ◌^◌, Bool, true, false, not, ◌&&◌, ◌||◌, Option, none, some, ltb,
  leb, ◌==◌, if◌then◌else◌, List, [], ◌∷◌, ◌++◌, length, take, drop, contains,
}
use jamera_server.Base.Bytes.{from_le}
use jamera_server.PropStream.{
  PropStream, PropWriteStream, get_value, get_ulong, get_uchar, add_value, add_uchar, add_ulong,
}

pub record IntervalInfo : Type 0 where
  pub time_left : ℕ
  pub value : ℕ
  pub interval : ℕ

pub record ConditionDamage : Type 0 where
  pub id : ℕ
  pub ticks : ℕ
  pub condition_type : ℕ
  pub max_damage : ℕ
  pub min_damage : ℕ
  pub start_damage : ℕ
  pub period_damage : ℕ
  pub period_damage_tick : ℕ
  pub tick_interval : ℕ
  pub force_update : Bool
  pub delayed : Bool
  pub owner : ℕ
  pub damage_list : List IntervalInfo

-- ConditionDamage::ConditionDamage
abbrev pub condition_damage : ℕ → ℕ → ConditionDamage
condition_damage id condition_type = record {
  id = id;
  ticks = 0;
  condition_type = condition_type;
  max_damage = 0;
  min_damage = 0;
  start_damage = 0;
  period_damage = 0;
  period_damage_tick = 0;
  tick_interval = 2000;
  force_update = false;
  delayed = false;
  owner = 0;
  damage_list = [];
}

-- The bit pattern of -1
abbrev pub minus_one : ℕ
minus_one = 2 ^ 32 - 1

-- Condition::isPersistent; CONDITIONID_DEFAULT is -1 and CONDITIONID_COMBAT is 0.
unfoldable pub is_persistent : ConditionDamage → Bool
is_persistent c = not (c.ticks == minus_one) && (c.id == minus_one || c.id == 0)

-- Condition::serialize
unfoldable pub serialize_base : ConditionDamage → PropWriteStream → PropWriteStream
serialize_base c w =
    add_ulong c.ticks
      (add_uchar 3 (add_ulong c.id (add_uchar 2 (add_ulong c.condition_type (add_uchar 1 w)))))

-- ADD_VALUE of the bytes of an IntervalInfo
abbrev pub add_interval : IntervalInfo → PropWriteStream → PropWriteStream
add_interval i w = add_ulong i.interval (add_ulong i.value (add_ulong i.time_left w))

unfoldable pub serialize_list : List IntervalInfo → PropWriteStream → PropWriteStream
serialize_list [] w = w
serialize_list (i ∷ is) w = serialize_list is (add_interval i (add_uchar 10 w))

-- ConditionDamage::serialize
unfoldable pub serialize : ConditionDamage → PropWriteStream → PropWriteStream
serialize c w = serialize_list c.damage_list (
    add_ulong c.owner (
      add_uchar 9 (
        add_ulong c.period_damage (
          add_uchar 25
            (add_uchar (if c.delayed then 1 else 0) (add_uchar 8 (serialize_base c w)))))))

-- The loop of savePlayer over the conditions
unfoldable pub save : List ConditionDamage → PropWriteStream → PropWriteStream
save [] w = w
save (c ∷ cs) w = save cs (if is_persistent c then add_uchar 254 (serialize c w) else w)

-- GET_VALUE of an IntervalInfo
abbrev pub get_interval : PropStream → Option (IntervalInfo × PropStream)
get_interval s =
    if ltb (length s) 12
    then none
    else some (
      record {
        time_left = from_le (take 4 s);
        value = from_le (take 4 (drop 4 s));
        interval = from_le (take 4 (drop 4 (drop 4 s)));
      },
      drop 4 (drop 4 (drop 4 s)),
    )

abbrev pub with_ulong :
    (ℕ → ConditionDamage) → Option (ℕ × PropStream) → Option (ConditionDamage × PropStream)
with_ulong f none = none
with_ulong f (some (value, rest)) = some (f value, rest)

abbrev pub with_interval :
    ConditionDamage → Option (IntervalInfo × PropStream) → Option (ConditionDamage × PropStream)
with_interval c none = none
with_interval c (some (i, rest)) = some (
  record c {
    damage_list = c.damage_list ++ i ∷ [];
    ticks = if c.ticks == minus_one then c.ticks else (c.ticks + i.interval) % 2 ^ 32;
  },
  rest,
)

-- ConditionDamage::unserializeProp, none for false, which leaves the stream as it was
unfoldable pub unserialize_prop :
    ℕ → ConditionDamage → PropStream → Option (ConditionDamage × PropStream)
unserialize_prop attr c s =
    if attr == 8
    then with_ulong (λ value. record c { delayed = not (value == 0) }) (get_uchar s)
    else if attr == 25
    then with_ulong (λ value. record c { period_damage = value }) (get_ulong s)
    else if attr == 9
    then with_ulong (λ value. record c { owner = value }) (get_ulong s)
    else if attr == 10
    then with_interval c (get_interval s)
    else if attr == 1
    then with_ulong (λ value. record c { condition_type = value }) (get_ulong s)
    else if attr == 2
    then with_ulong (λ value. record c { id = value }) (get_ulong s)
    else if attr == 3
    then with_ulong (λ value. record c { ticks = value }) (get_ulong s)
    else if attr == 254
    then some (c, s)
    else none

-- What unserialize returns, with the stream then.
pub data Unserialized : Type 0 where
  out_of_fuel : Unserialized
  fails : PropStream → Unserialized
  ends : ConditionDamage → PropStream → Unserialized

-- Condition::unserialize
unfoldable pub unserialize : ℕ → ConditionDamage → PropStream → Unserialized
unserialize zero c s = out_of_fuel
unserialize (suc fuel) c s = elim (get_uchar s) [
  | none ↦ ends c s
  | some (attr, rest) ↦ elim (attr == 254) [
    | true ↦ ends c rest
    | false ↦ elim (unserialize_prop attr c rest) [
      | none ↦ fails rest
      | some (c', rest') ↦ unserialize fuel c' rest'
    ]
  ]
]

-- What createCondition makes of a stream: NULL, damage, or a condition of another class.
pub data Created : Type 0 where
  null : Created
  damage : ConditionDamage → PropStream → Created
  other : ℕ → ℕ → ℕ → PropStream → Created

-- The types CONDITION_HASTE to CONDITION_TRADE_MUTED
abbrev pub other_types : List ℕ
other_types =
    2 ^ 4
    ∷ 2 ^ 5
    ∷ 2 ^ 6
    ∷ 2 ^ 7
    ∷ 2 ^ 8
    ∷ 2 ^ 9
    ∷ 2 ^ 10
    ∷ 2 ^ 11
    ∷ 2 ^ 12
    ∷ 2 ^ 13
    ∷ 2 ^ 14
    ∷ 2 ^ 15
    ∷ 2 ^ 16
    ∷ 2 ^ 17
    ∷ 2 ^ 18
    ∷ 2 ^ 19
    ∷ []

abbrev pub is_damage : ℕ → Bool
is_damage condition_type = condition_type == 1 || condition_type == 2 || condition_type == 4

-- Condition::createCondition for an id, a type and ticks
unfoldable pub create : ℕ → ℕ → ℕ → PropStream → Created
create id condition_type ticks s =
    if is_damage condition_type
    then damage (condition_damage id condition_type) s
    else if contains condition_type other_types
    then other id condition_type ticks s
    else null

-- An attribute of createCondition and the number behind it
abbrev pub get_attr : ℕ → PropStream → Option (ℕ × PropStream)
get_attr attr s = elim (get_uchar s) [
  | none ↦ none
  | some (a, rest) ↦ if a == attr then get_ulong rest else none
]

-- Condition::createCondition for a stream
unfoldable pub create_condition : PropStream → Created
create_condition s = elim (get_attr 1 s) [
  | none ↦ null
  | some (condition_type, s1) ↦ elim (get_attr 2 s1) [
    | none ↦ null
    | some (id, s2) ↦ elim (get_attr 3 s2) [
      | none ↦ null
      | some (ticks, s3) ↦ create id condition_type ticks s3
    ]
  ]
]

abbrev pub keep : ConditionDamage → Option (List ConditionDamage) → Option (List ConditionDamage)
keep c none = none
keep c (some cs) = some (c ∷ cs)

-- The loop of loadPlayer, on fuel: none also at a condition of another class, whose unserialize is
-- not modelled.
unfoldable pub load : ℕ → PropStream → Option (List ConditionDamage)
load zero s = none
load (suc fuel) s = elim (create_condition s) [
  | null ↦ some []
  | other id condition_type ticks rest ↦ none
  | damage c rest ↦ elim (unserialize (suc (length rest)) c rest) [
    | out_of_fuel ↦ none
    | fails rest' ↦ load fuel rest'
    | ends c' rest' ↦ keep c' (load fuel rest')
  ]
]
