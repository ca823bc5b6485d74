-- ===== src/Condition/Starting.antt =====
-- startCondition and executeCondition of a damage condition: together they deal its whole list.
use mathlib.Core.Path.{subst}
use jamera_server.Base.{
  ℕ, ◌+◌, ◌*◌, ◌^◌, ◌≤◌, ◌<◌, ◌≡◌, refl, sym, ap, ◌∙◌, some, Bool, true, false, ◌==◌, List, [], ◌∷◌,
  ◌++◌, All, arith,
}
use jamera_server.Condition.{IntervalInfo, minus_one}
use jamera_server.Condition.Course.{
  Running, is_less, with_list, values, time_left_of, Multiple, Ready, runs, runs-deals,
}
use jamera_server.Condition.Damage.{start_condition, next_of, get_next_damage, start_damage}

intervals_of :
    (interval : ℕ) (is : List IntervalInfo)
    → All (Multiple interval) is
    → (n : ℕ) × (time_left_of is ≡ n * interval)
unfolding time_left_of
intervals_of interval [] a = (0, omega arith)
intervals_of interval (i ∷ is) ((m, e), a) =
    let (n, en) = intervals_of interval is a in (m + 1 + n, omega arith)

-- Started, then run for some of the time that its ticks count, a condition deals its whole list.
abbrev pub Delivers : ℕ → ℕ → Running → Type 0
Delivers now interval r =
    (s : Running) × (vs : List ℕ) × (n : ℕ) × (start_damage true now r
      ≡ some (record { running = s; dealt = vs; starts = true }))
    × (n * interval ≤ time_left_of r.condition.damage_list)
    × ((runs n now interval s).1 ≡ true)
    × (vs ++ (runs n now interval s).0 ≡ values r.condition.damage_list)

-- A condition without damage by the period, whose damage waits for some intervals each, for no
-- longer than its ticks
pub record Startable (interval : ℕ) (r : Running) : Type 0 where
  pub no_period : r.condition.period_damage ≡ 0
  pub multiple : All (Multiple interval) r.condition.damage_list
  pub long_enough : time_left_of r.condition.damage_list ≤ r.condition.ticks

abbrev started_at : ℕ → Running → Running
started_at now r = record r { end_time = r.condition.ticks + now }

start-delayed :
    (now interval : ℕ) (i : IntervalInfo) (is : List IntervalInfo) (r : Running)
    → r.condition.period_damage ≡ 0
    → 0 < r.condition.ticks
    → r.condition.ticks < 2 ^ 31
    → r.condition.damage_list ≡ i ∷ is
    → r.condition.delayed ≡ true
    → start_damage true now r
      ≡ some (record { running = started_at now r; dealt = []; starts = true })
unfolding start_damage start_condition
start-delayed now interval i is r p t h e f =
    let counts : is_less 0 r.condition.ticks ≡ true = ground arith in
    rw (p, e, f, counts, start_damage, start_condition) refl

start-at_once :
    (now interval : ℕ) (i : IntervalInfo) (is : List IntervalInfo) (r : Running)
    → r.condition.period_damage ≡ 0
    → 0 < r.condition.ticks
    → r.condition.ticks < 2 ^ 31
    → r.condition.damage_list ≡ i ∷ is
    → r.condition.delayed ≡ false
    → start_damage true now r
      ≡ some (record {
        running = with_list is (started_at now r);
        dealt = i.value ∷ [];
        starts = true;
      })
unfolding start_damage start_condition get_next_damage next_of
start-at_once now interval i is r p t h e f =
    let counts : is_less 0 r.condition.ticks ≡ true = ground arith in
    let finite : (r.condition.ticks == minus_one) ≡ false = ground arith in
    rw (p, e, f, counts, finite, start_damage, start_condition) refl

pub start-Delivers :
    (now interval : ℕ) (i : IntervalInfo) (is : List IntervalInfo) (delayed : Bool) (r : Running)
    → 0 < interval
    → Startable interval r
    → 0 < r.condition.ticks
    → r.condition.ticks < 2 ^ 31
    → r.condition.damage_list ≡ i ∷ is
    → r.condition.delayed ≡ delayed
    → Delivers now interval r
unfolding values time_left_of
start-Delivers now interval i is true r p b t h e f =
    let c = b.long_enough in
    let (n, en) = intervals_of interval r.condition.damage_list b.multiple in
    let ready : Ready interval (started_at now r) = record {
      no_period = b.no_period;
      counted = h;
      multiple = b.multiple;
    } in
    let run = runs-deals n now interval (started_at now r) p ready en (omega arith) (omega arith) in
    (
      started_at now r,
      [],
      n,
      start-delayed now interval i is r b.no_period t h e f,
      omega arith,
      ap (λ x. x.1) run,
      ap (λ x. x.0) run,
    )
start-Delivers now interval i is false r p b t h e f =
    let c = b.long_enough in
    let s : Running = with_list is (started_at now r) in
    let (first, multiple) = subst (All (Multiple interval)) e b.multiple in
    let total = ap time_left_of e in
    let (n, en) = intervals_of interval is multiple in
    let ready : Ready interval s = record {
      no_period = b.no_period;
      counted = h;
      multiple = multiple;
    } in
    let run = runs-deals n now interval s p ready en (omega arith) (omega arith) in
    (
      s,
      i.value ∷ [],
      n,
      start-at_once now interval i is r b.no_period t h e f,
      omega arith,
      ap (λ x. x.1) run,
      ap (λ x. i.value ∷ x.0) run ∙ sym (ap values e),
    )
