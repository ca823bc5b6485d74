-- ===== src/Condition/Stored.antt =====
-- What a player's saved conditions are when they are loaded again.
use mathlib.Core.List.{append-nil, append_assoc}
use jamera_server.Base.{
  ℕ, zero, suc, ◌+◌, ◌%◌, ◌^◌, ◌≤◌, ◌<◌, ◌≡◌, refl, ap, ◌∙◌, Bool, true, not, false, some, List,
  All, [], ◌∷◌, ◌++◌, length, if◌then◌else◌, arith, ◌==◌,
}
use jamera_server.Base.Bytes.{le_bytes, from_le-u32}
use jamera_server.PropStream.{get_uchar, init}
use jamera_server.PropStream.RoundTrip.{
  buffer-init, get_uchar-empty, get_ulong-append, get_uchar-append,
}
use jamera_server.Condition.{
  IntervalInfo, ConditionDamage, condition_damage, minus_one, is_persistent, save, get_interval,
  with_interval, unserialize_prop, ends, unserialize, damage, is_damage, create, get_attr,
  create_condition, keep, load,
}
use jamera_server.Condition.Bytes.{
  interval_bytes, list_bytes, own_bytes, base_bytes, all_bytes, save-buffer,
}

-- The sum of the intervals
unfoldable pub total : List IntervalInfo → ℕ
total [] = 0
total (i ∷ is) = i.interval + total is

-- What is loaded for a condition: the ticks that the intervals add up to, the list, the delay, the
-- owner and the period damage; all else as the constructor leaves it.
abbrev pub restored : ConditionDamage → ConditionDamage
restored c = record (condition_damage c.id c.condition_type) {
  ticks = total c.damage_list;
  period_damage = c.period_damage;
  delayed = c.delayed;
  owner = c.owner;
  damage_list = c.damage_list;
}

unfoldable pub restored_list : List ConditionDamage → List ConditionDamage
restored_list [] = []
restored_list (c ∷ cs) =
    let rest = restored_list cs in if is_persistent c then restored c ∷ rest else rest

-- Its three numbers are words.
abbrev pub InWords : IntervalInfo → Type 0
InWords i = (i.time_left < 2 ^ 32) × (i.value < 2 ^ 32) × (i.interval < 2 ^ 32)

-- A damage condition whose numbers are words and whose intervals add up to an int32_t
abbrev pub Storable : ConditionDamage → Type 0
Storable c =
    (is_damage c.condition_type ≡ true)
    × (c.condition_type < 2 ^ 32)
    × (c.id < 2 ^ 32)
    × (c.ticks < 2 ^ 32)
    × (c.period_damage < 2 ^ 32)
    × (c.owner < 2 ^ 32)
    × All InWords c.damage_list
    × (total c.damage_list < 2 ^ 31)

get_attr-append :
    (a v : ℕ) (rest : List ℕ)
    → a < 2 ^ 8
    → v < 2 ^ 32
    → get_attr a (le_bytes 1 a ++ (le_bytes 4 v ++ rest)) ≡ some (v, rest)
get_attr-append a v rest h k =
    rw (get_uchar-append a (le_bytes 4 v ++ rest) h, get_attr)
      (ground (arith, get_ulong-append v rest k))

create_condition-base_bytes :
    (c : ConditionDamage) (rest : List ℕ)
    → Storable c
    → create_condition (base_bytes c rest) ≡ damage (condition_damage c.id c.condition_type) rest
unfolding create_condition base_bytes create
create_condition-base_bytes c rest (kind, t, i, k, p, o, is, sum) =
    let after_id : List ℕ = le_bytes 1 3 ++ (le_bytes 4 c.ticks ++ rest) in
    rw
      (
        get_attr-append 1 c.condition_type (le_bytes 1 2 ++ (le_bytes 4 c.id ++ after_id))
            (omega arith) t,
        get_attr-append 2 c.id after_id (omega arith) i,
        get_attr-append 3 c.ticks rest (omega arith) k,
        kind,
        create_condition,
      )
      refl

unserialize-step :
    (fuel a : ℕ) (c c' : ConditionDamage) (s s' : List ℕ)
    → a < 254
    → unserialize_prop a c s ≡ some (c', s')
    → unserialize (suc fuel) c (le_bytes 1 a ++ s) ≡ unserialize fuel c' s'
unfolding unserialize
unserialize-step fuel a c c' s s' h e =
    rw (get_uchar-append a s (omega arith), unserialize) (ground (arith, e))

get_interval-append :
    (i : IntervalInfo) (rest : List ℕ)
    → InWords i
    → get_interval
        (le_bytes 4 i.time_left ++ (le_bytes 4 i.value ++ (le_bytes 4 i.interval ++ rest)))
      ≡ some (i, rest)
get_interval-append i rest (a, b, d) =
    ground (arith, from_le-u32 i.time_left a, from_le-u32 i.value b, from_le-u32 i.interval d)

abbrev added : ConditionDamage → List IntervalInfo → ConditionDamage
added c is = record c { damage_list = c.damage_list ++ is; ticks = c.ticks + total is }

with_interval-added :
    (c : ConditionDamage) (i : IntervalInfo) (rest : List ℕ)
    → c.ticks + i.interval < minus_one
    → with_interval c (some (i, rest)) ≡ some (added c (i ∷ []), rest)
unfolding total
with_interval-added c i rest h =
    let e : (c.ticks + i.interval) % 2 ^ 32 ≡ c.ticks + (i.interval + 0) = omega arith in
    ground (arith, e)

interval-step :
    (fuel : ℕ) (c : ConditionDamage) (i : IntervalInfo) (rest : List ℕ)
    → InWords i
    → c.ticks + i.interval < minus_one
    → unserialize (suc fuel) c (interval_bytes i rest) ≡ unserialize fuel (added c (i ∷ [])) rest
unfolding unserialize_prop
interval-step fuel c i rest w h =
    unserialize-step fuel 10 c _ _ rest (omega arith)
      (ap (with_interval c) (get_interval-append i rest w) ∙ with_interval-added c i rest h)

added-added :
    (c : ConditionDamage) (i : IntervalInfo) (is : List IntervalInfo)
    → added (added c (i ∷ [])) is ≡ added c (i ∷ is)
unfolding total
added-added c i is =
    let e : c.ticks + (i.interval + 0) + total is ≡ c.ticks + (i.interval + total is) =
      omega arith in
    rw (append_assoc c.damage_list (i ∷ []) is, e) refl

unserialize-list_bytes :
    (is : List IntervalInfo) (fuel : ℕ) (c : ConditionDamage) (rest : List ℕ)
    → length is < fuel
    → All InWords is
    → c.ticks + total is < minus_one
    → unserialize fuel c (list_bytes is (254 ∷ rest)) ≡ ends (added c is) rest
unfolding list_bytes total unserialize
unserialize-list_bytes is zero c rest h w t = elim h [ ]
unserialize-list_bytes [] (suc fuel) c rest h w t =
    rw (get_uchar-append 254 rest (omega arith), unserialize)
      (ground (arith, append-nil c.damage_list))
unserialize-list_bytes (i ∷ is) (suc fuel) c rest h (wi, w) t =
    interval-step fuel c i (list_bytes is (254 ∷ rest)) wi (omega arith)
    ∙ unserialize-list_bytes is fuel (added c (i ∷ [])) rest (omega arith) w (omega arith)
    ∙ ap (λ c'. ends c' rest) (added-added c i is)

flag-append :
    (b : Bool) (rest : List ℕ)
    → get_uchar (le_bytes 1 (if b then 1 else 0) ++ rest) ≡ some (if b then 1 else 0, rest)
flag-append true rest = get_uchar-append 1 rest (omega arith)
flag-append false rest = get_uchar-append 0 rest (omega arith)

flag-back : (b : Bool) → not ((if b then 1 else 0) == 0) ≡ b
flag-back true = refl
flag-back false = refl

unserialize-own_bytes :
    (fuel : ℕ) (c : ConditionDamage) (rest : List ℕ)
    → length c.damage_list < fuel
    → Storable c
    → unserialize
        (suc (suc (suc fuel)))
        (condition_damage c.id c.condition_type)
        (own_bytes c (254 ∷ rest))
      ≡ ends (restored c) rest
unfolding own_bytes unserialize_prop
unserialize-own_bytes fuel c rest h (kind, t, i, k, p, o, is, sum) =
    let flag : ℕ = if c.delayed then 1 else 0 in
    let intervals : List ℕ = list_bytes c.damage_list (254 ∷ rest) in
    let after_period : List ℕ = le_bytes 1 9 ++ (le_bytes 4 c.owner ++ intervals) in
    let after_flag : List ℕ = le_bytes 1 25 ++ (le_bytes 4 c.period_damage ++ after_period) in
    let start : ConditionDamage = condition_damage c.id c.condition_type in
    let c1 : ConditionDamage = record start { delayed = c.delayed } in
    let c2 : ConditionDamage = record c1 { period_damage = c.period_damage } in
    let c3 : ConditionDamage = record c2 { owner = c.owner } in
    unserialize-step (suc (suc fuel)) 8 start c1 (le_bytes 1 flag ++ after_flag) after_flag
      (omega arith) (rw (flag-append c.delayed after_flag, flag-back c.delayed) refl)
    ∙ unserialize-step (suc fuel) 25 c1 c2 (le_bytes 4 c.period_damage ++ after_period) after_period
        (omega arith) (rw (get_ulong-append c.period_damage after_period p) refl)
    ∙ unserialize-step fuel 9 c2 c3 (le_bytes 4 c.owner ++ intervals) intervals (omega arith)
        (rw (get_ulong-append c.owner intervals o) refl)
    ∙ unserialize-list_bytes c.damage_list fuel c3 rest h is (omega arith)
    ∙ ap (λ n. ends (record c3 { damage_list = c.damage_list; ticks = n }) rest) (omega arith)

length-list_bytes :
    (is : List IntervalInfo) (rest : List ℕ) → length is + length rest ≤ length (list_bytes is rest)
unfolding list_bytes
length-list_bytes [] rest = omega arith
length-list_bytes (i ∷ is) rest =
    let e : length is + length rest ≤ length (list_bytes is rest) = length-list_bytes is rest in
    omega arith

-- The fuel that load gives is enough for a condition.
unserialize-stored :
    (c : ConditionDamage) (rest : List ℕ)
    → Storable c
    → let bytes = own_bytes c (254 ∷ rest) in
      unserialize (suc (length bytes)) (condition_damage c.id c.condition_type) bytes
      ≡ ends (restored c) rest
unfolding own_bytes
unserialize-stored c rest h =
    let e : length c.damage_list + suc (length rest)
        ≤ length (list_bytes c.damage_list (254 ∷ rest)) =
      length-list_bytes c.damage_list (254 ∷ rest) in
    let n : ℕ = length (list_bytes c.damage_list (254 ∷ rest)) in
    let bytes : List ℕ = own_bytes c (254 ∷ rest) in
    let enough : suc (length bytes) ≡ suc (suc (suc (10 + n))) = omega arith in
    ap (λ k. unserialize k (condition_damage c.id c.condition_type) bytes) enough
    ∙ unserialize-own_bytes (10 + n) c rest (omega arith) h

load-step :
    (fuel : ℕ) (c : ConditionDamage) (rest : List ℕ)
    → Storable c
    → load (suc fuel) (base_bytes c (own_bytes c (254 ∷ rest))) ≡ keep (restored c) (load fuel rest)
unfolding load
load-step fuel c rest h =
    rw
      (
        create_condition-base_bytes c (own_bytes c (254 ∷ rest)) h,
        unserialize-stored c rest h,
        load,
      )
      refl

load-empty : (fuel : ℕ) → load (suc fuel) [] ≡ some []
unfolding load create_condition
load-empty fuel = rw (get_uchar-empty, load) refl

load-all_bytes :
    (fuel : ℕ) (cs : List ConditionDamage)
    → All Storable cs
    → length cs < fuel
    → load fuel (all_bytes cs) ≡ some (restored_list cs)
unfolding all_bytes restored_list
load-all_bytes zero cs h f = elim f [ ]
load-all_bytes (suc fuel) [] h f = load-empty fuel
load-all_bytes (suc fuel) (c ∷ cs) (hc, h) f = ground (
  arith,
  load-step fuel c (all_bytes cs) hc,
  load-all_bytes fuel cs h (omega arith),
  load-all_bytes (suc fuel) cs h (omega arith),
)

-- Damage conditions whose numbers are words and whose intervals add up to an int32_t come back
-- from what savePlayer writes, as many and in their order, but those that are not persistent: each
-- with its id, type, delay, owner, period damage and intervals, with the sum of the intervals for
-- its ticks, and with what the constructor sets for all else. The fuel of one more than the
-- conditions is enough.
pub load-save :
    (cs : List ConditionDamage)
    → All Storable cs
    → load (suc (length cs)) (save cs init).buffer ≡ some (restored_list cs)
load-save cs h =
    rw (save-buffer cs init, buffer-init) (load-all_bytes (suc (length cs)) cs h (omega arith))
