-- ===== src/Condition/Filling.antt =====
-- What addDamage puts into the list of a condition that its constructor has made.
use mathlib.Core.List.{append_assoc, append-nil}
use jamera_server.Base.{
  ℕ, zero, suc, ◌+◌, ◌*◌, ◌%◌, ◌^◌, ◌≤◌, ◌<◌, ◌≡◌, refl, sym, ap, ◌∙◌, Bool, false, ◌==◌,
  if◌then◌else◌, List, [], ◌∷◌, ◌++◌, All, All-append, replicate, arith,
}
use jamera_server.Condition.{IntervalInfo, condition_damage, minus_one}
use jamera_server.Condition.Course.{Running, is_less, values, time_left_of, Multiple}
use jamera_server.Condition.Damage.{add_round, add_rounds, add_damage}

-- A damage of so many rounds, each after so many intervals and one
pub record Wound : Type 0 where
  pub rounds : ℕ
  pub waits : ℕ
  pub value : ℕ

unfoldable pub add_all : ℕ → ℕ → List Wound → Running → Running
add_all now interval [] r = r
add_all now interval (d ∷ ds) r =
    add_all now interval ds (add_damage now d.rounds (d.waits * interval + interval) d.value r).0

unfoldable pub due : List Wound → List ℕ
due [] = []
due (d ∷ ds) = replicate d.rounds d.value ++ due ds

-- The intervals until the last
unfoldable pub length_of : List Wound → ℕ
length_of [] = 0
length_of (d ∷ ds) = d.rounds * (d.waits + 1) + length_of ds

pub record Built (interval : ℕ) (r : Running) : Type 0 where
  pub no_period : r.condition.period_damage ≡ 0
  pub multiple : All (Multiple interval) r.condition.damage_list
  pub counted : r.condition.ticks ≡ time_left_of r.condition.damage_list

pub values-append : (xs ys : List IntervalInfo) → values (xs ++ ys) ≡ values xs ++ values ys
unfolding values
values-append [] ys = refl
values-append (x ∷ xs) ys = ap (◌∷◌ x.value) (values-append xs ys)

time_left_of-append :
    (xs ys : List IntervalInfo) → time_left_of (xs ++ ys) ≡ time_left_of xs + time_left_of ys
unfolding time_left_of
time_left_of-append [] ys = omega arith
time_left_of-append (x ∷ xs) ys = let e = time_left_of-append xs ys in omega arith

add_round-Built :
    (now interval m value : ℕ) (r : Running)
    → let time = m * interval + interval in
      let after = add_round now time value r in
      Built interval r
      → r.condition.ticks + time < 2 ^ 31
      → Built interval after
        × (after.condition.ticks ≡ r.condition.ticks + time)
        × (values after.condition.damage_list ≡ values r.condition.damage_list ++ value ∷ [])
unfolding add_round values time_left_of
add_round-Built now interval m value r b h =
    let time : ℕ = m * interval + interval in
    let i : IntervalInfo = record { time_left = time; value = value; interval = time } in
    let counts : (r.condition.ticks == minus_one) ≡ false = ground arith in
    let sum : (r.condition.ticks + time) % 2 ^ 32 ≡ r.condition.ticks + time = omega arith in
    let total = time_left_of-append r.condition.damage_list (i ∷ []) in
    let c = b.counted in
    rw (counts, add_round)
      (
        record {
          no_period = b.no_period;
          multiple =
              All-append (Multiple interval) r.condition.damage_list (i ∷ []) b.multiple
                ((m, refl), tt);
          counted = sum ∙ omega arith;
        },
        sum,
        values-append r.condition.damage_list (i ∷ []),
      )

add_rounds-Built :
    (n now interval m value : ℕ) (r : Running)
    → let time = m * interval + interval in
      let after = add_rounds n now time value r in
      Built interval r
      → r.condition.ticks + n * time < 2 ^ 31
      → Built interval after
        × (after.condition.ticks ≡ r.condition.ticks + n * time)
        × (values after.condition.damage_list ≡ values r.condition.damage_list ++ replicate n value)
unfolding add_rounds
add_rounds-Built zero now interval m value r b h =
    (b, omega arith, sym (append-nil (values r.condition.damage_list)))
add_rounds-Built (suc n) now interval m value r b h =
    let time : ℕ = m * interval + interval in
    let (b1, t1, v1) = add_round-Built now interval m value r b (omega arith) in
    let (b2, t2, v2) =
      add_rounds-Built n now interval m value (add_round now time value r) b1 (omega arith) in
    (
      b2,
      omega arith,
      v2
          ∙ ap (λ vs. vs ++ replicate n value) v1
          ∙ append_assoc (values r.condition.damage_list) (value ∷ []) (replicate n value),
    )

pub le-times : (n t : ℕ) → 0 < t → n ≤ n * t
le-times zero t h = omega arith
le-times (suc n) t h = let e = le-times n t h in omega arith

add_damage-rounds :
    (now n time value : ℕ) (r : Running)
    → r.condition.period_damage ≡ 0
    → n < 2 ^ 31
    → (add_damage now n time value r).0 ≡ add_rounds n now time value r
unfolding add_damage
add_damage-rounds now n time value r p h =
    let finite : (n == minus_one) ≡ false = ground arith in
    let same : (if is_less 0 n then n else 0) ≡ n = ground arith in
    rw (finite, p, same, add_damage) refl

pub add_all-Built :
    (now interval : ℕ) (ds : List Wound) (r : Running)
    → let after = add_all now interval ds r in
      0 < interval
      → Built interval r
      → r.condition.ticks + length_of ds * interval < 2 ^ 31
      → Built interval after
        × (after.condition.ticks ≡ r.condition.ticks + length_of ds * interval)
        × (values after.condition.damage_list ≡ values r.condition.damage_list ++ due ds)
unfolding add_all due length_of
add_all-Built now interval [] r p b h =
    (b, omega arith, sym (append-nil (values r.condition.damage_list)))
add_all-Built now interval (d ∷ ds) r p b h =
    let time : ℕ = d.waits * interval + interval in
    let few = le-times d.rounds time (omega arith) in
    let split : (d.rounds * (d.waits + 1) + length_of ds) * interval
        ≡ d.rounds * time + length_of ds * interval =
      omega arith in
    let (b1, t1, v1) = add_rounds-Built d.rounds now interval d.waits d.value r b (omega arith) in
    let (b2, t2, v2) =
      add_all-Built now interval ds (add_rounds d.rounds now time d.value r) p b1 (omega arith) in
    rw (add_damage-rounds now d.rounds time d.value r b.no_period (omega arith), add_all)
      (
        b2,
        omega arith,
        v2
            ∙ ap (λ vs. vs ++ due ds) v1
            ∙ append_assoc (values r.condition.damage_list) (replicate d.rounds d.value) (due ds),
      )

-- A condition as its constructor leaves it, but for its delay, and before it is started
abbrev pub fresh : ℕ → ℕ → Bool → Running
fresh id condition_type delayed = record {
  condition = record (condition_damage id condition_type) { delayed = delayed };
  end_time = 0;
}

pub fresh-Built :
    (interval id condition_type : ℕ) (delayed : Bool)
    → Built interval (fresh id condition_type delayed)
unfolding time_left_of
fresh-Built interval id condition_type delayed = record {
  no_period = refl;
  multiple = tt;
  counted = refl;
}

pub values-fresh :
    (id condition_type : ℕ) (delayed : Bool)
    → values (fresh id condition_type delayed).condition.damage_list ≡ []
unfolding values
values-fresh id condition_type delayed = refl
