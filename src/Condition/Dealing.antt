-- ===== src/Condition/Dealing.antt =====
-- What addDamage fills, startCondition and executeCondition deal: all rounds, in their order.
use jamera_server.Base.{
  ℕ, ◌*◌, ◌^◌, ◌≤◌, ◌<◌, ◌≡◌, refl, inl, inr, List-cases, ap, ◌∙◌, some, Bool, true, List, ◌++◌,
  arith,
}
use jamera_server.Condition.Course.{Running, values, time_left_of, runs}
use jamera_server.Condition.Damage.{start_damage}
use jamera_server.Condition.Filling.{
  Wound, add_all, due, length_of, add_all-Built, le-times, fresh, fresh-Built, values-fresh,
}
use jamera_server.Condition.Starting.{Startable, start-Delivers}

-- A new damage condition, delayed or not, that addDamage fills with some rounds, each of a whole
-- number of call intervals, is started; startCondition and at most as many calls of
-- executeCondition as the rounds last, each one interval after the other and on a tile without a
-- field, deal the damage of every round, each once and in their order, and none of these calls
-- takes the condition off before. Its first damage at the start is not blocked, and the ticks of
-- all rounds fit into an int32_t.
pub runs-due :
    (id condition_type created started interval : ℕ) (delayed : Bool) (ds : List Wound)
    → let filled = add_all created interval ds (fresh id condition_type delayed) in
      0 < interval
      → 0 < length_of ds
      → length_of ds * interval < 2 ^ 31
      → (s : Running) × (vs : List ℕ) × (n : ℕ) × (start_damage true started filled
          ≡ some (record { running = s; dealt = vs; starts = true }))
        × (n * interval ≤ length_of ds * interval)
        × ((runs n started interval s).1 ≡ true)
        × (vs ++ (runs n started interval s).0 ≡ due ds)
unfolding time_left_of
runs-due id condition_type created started interval delayed ds p some_left h =
    let new : Running = fresh id condition_type delayed in
    let after : Running = add_all created interval ds new in
    let (b, t, v) =
      add_all-Built created interval ds new p (fresh-Built interval id condition_type delayed)
        (omega arith) in
    let ticks : after.condition.ticks ≡ length_of ds * interval = t ∙ omega arith in
    let least = le-times (length_of ds) interval p in
    let c = b.counted in
    let startable : Startable interval after = record {
      no_period = b.no_period;
      multiple = b.multiple;
      long_enough = omega arith;
    } in
    let all : values after.condition.damage_list ≡ due ds =
      v ∙ ap (λ vs. vs ++ due ds) (values-fresh id condition_type delayed) in
    elim (List-cases after.condition.damage_list) [
      | inl e ↦ let none_left = ap time_left_of e in absurd (omega arith)
      | inr (i, is, e) ↦
          let (s, vs, n, starts, soon, on, dealt) =
            start-Delivers started interval i is after.condition.delayed after p startable
              (omega arith) (omega arith) e refl in
          (s, vs, n, starts, omega arith, on, dealt ∙ all)
    ]
