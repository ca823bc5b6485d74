-- ===== src/Condition/Resumed.antt =====
-- A damage condition that has been saved and loaded goes on.
use jamera_server.Base.{
  ℕ, ◌*◌, ◌^◌, ◌≤◌, ◌<◌, ◌≡◌, refl, ap, ◌∙◌, some, true, ◌++◌, List, [], ◌∷◌, All, arith,
  List-cases, inl, inr,
}
use jamera_server.PropStream.{init}
use jamera_server.Condition.{IntervalInfo, ConditionDamage, is_persistent, save, load}
use jamera_server.Condition.Course.{Running, values, time_left_of, Multiple, runs}
use jamera_server.Condition.Damage.{start_damage}
use jamera_server.Condition.Starting.{Startable, Delivers, start-Delivers}
use jamera_server.Condition.Stored.{Storable, restored, restored_list, total, load-save}

-- No interval has more time left than it takes.
abbrev pub Begun : IntervalInfo → Type 0
Begun i = i.time_left ≤ i.interval

time_left_of-total : (is : List IntervalInfo) → All Begun is → time_left_of is ≤ total is
unfolding time_left_of total
time_left_of-total [] b = omega arith
time_left_of-total (i ∷ is) (b, bs) = let e = time_left_of-total is bs in omega arith

restored-Delivers :
    (c : ConditionDamage) (now interval : ℕ)
    → 0 < interval
    → c.period_damage ≡ 0
    → total c.damage_list < 2 ^ 31
    → All Begun c.damage_list
    → All (Multiple interval) c.damage_list
    → 0 < time_left_of c.damage_list
    → Delivers now interval (record { condition = restored c; end_time = 0 })
unfolding time_left_of
restored-Delivers c now interval p period t b m some_left =
    let r : Running = record { condition = restored c; end_time = 0 } in
    let long = time_left_of-total c.damage_list b in
    let startable : Startable interval r = record {
      no_period = period;
      multiple = m;
      long_enough = long;
    } in
    elim (List-cases c.damage_list) [
      | inl e ↦ let none_left = ap time_left_of e in absurd (omega arith)
      | inr (i, is, e) ↦
          start-Delivers now interval i is c.delayed r p startable (omega arith) t e refl
    ]

-- A persistent damage condition without damage by the period, whose numbers fit, none of whose
-- intervals has more time left than it takes, and whose damage waits for a whole number of call
-- intervals each, is saved alone, loaded, and started with its first damage not blocked:
-- startCondition and calls of executeCondition for at most the time that was left, each one
-- interval after the other and on a tile without a field, deal all the damage that it had still to
-- deal, each once and in its order, and none of these calls takes it off before. Some time must be
-- left.
pub load-deals :
    (c : ConditionDamage) (now interval : ℕ)
    → 0 < interval
    → is_persistent c ≡ true
    → Storable c
    → c.period_damage ≡ 0
    → All Begun c.damage_list
    → All (Multiple interval) c.damage_list
    → 0 < time_left_of c.damage_list
    → (loaded : ConditionDamage) × (s : Running) × (vs : List ℕ) × (n : ℕ) × (load 2
          (save (c ∷ []) init).buffer
        ≡ some (loaded ∷ []))
      × (start_damage true now (record { condition = loaded; end_time = 0 })
          ≡ some (record { running = s; dealt = vs; starts = true }))
      × (n * interval ≤ time_left_of c.damage_list)
      × ((runs n now interval s).1 ≡ true)
      × (vs ++ (runs n now interval s).0 ≡ values c.damage_list)
unfolding restored_list
load-deals c now interval p persists (kind, t, i, k, q, o, words, sum) period b m some_left =
    let (s, vs, n, starts, soon, on, dealt) =
      restored-Delivers c now interval p period sum b m some_left in
    let back = load-save (c ∷ []) ((kind, t, i, k, q, o, words, sum), tt) in
    let only : restored_list (c ∷ []) ≡ restored c ∷ [] = rw (persists, restored_list) refl in
    (restored c, s, vs, n, back ∙ ap some only, starts, soon, on, dealt)
