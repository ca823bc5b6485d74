-- ===== src/Condition/Tests.antt =====
-- Tests of the stored conditions, with a concrete input for the theorem about them.
use jamera_server.Base.{
  ℕ, ◌+◌, ◌-◌, ◌*◌, ◌^◌, ◌≤◌, ◌≡◌, refl, ◌<◌, true, false, some, List, [], ◌∷◌, Bool, ◌++◌, arith,
}
use jamera_server.PropStream.{init}
use jamera_server.Condition.{
  IntervalInfo, ConditionDamage, condition_damage, is_persistent, save, load, minus_one,
}
use jamera_server.Condition.Course.{
  Running, values, time_left_of, execute_list, execute_condition, runs,
}
use jamera_server.Condition.Damage.{
  start_condition, start_damage, add_round, add_rounds, add_damage,
}
use jamera_server.Condition.Filling.{Wound, fresh, add_all, due, length_of}
use jamera_server.Condition.Dealing.{runs-due}
use jamera_server.Condition.Generic.{
  ConditionGeneric, take_up, has_equal, on_add_condition, remove_type, add_condition,
  execute_conditions, has_condition,
}
use jamera_server.Condition.Kept.{generic}
use jamera_server.Condition.Lasting.{
  Call, adds, executes, removes, removes_type, calls, calls-has_condition,
}
use jamera_server.Condition.Resumed.{load-deals}
use jamera_server.Condition.Stored.{restored_list, restored, total, load-save}

abbrev round_of : ℕ → ℕ → IntervalInfo
round_of time_left interval = record {
  time_left = time_left;
  value = 2 ^ 32 - 10;
  interval = interval;
}

-- Fire in two rounds, of which half a second has gone
abbrev fire : ConditionDamage
fire = record (condition_damage 0 2) {
  ticks = 5500;
  owner = 7;
  delayed = true;
  damage_list = round_of 1500 2000 ∷ round_of 4000 4000 ∷ [];
}

-- Poison without end
abbrev poison : ConditionDamage
poison = record (condition_damage minus_one 1) { ticks = minus_one; period_damage = 5 }

loaded_once : restored_list (fire ∷ poison ∷ []) ≡ restored fire ∷ []
unfolding restored_list is_persistent
loaded_once = refl

load-save_example : load 3 (save (fire ∷ poison ∷ []) init).buffer ≡ some (restored fire ∷ [])
unfolding restored_list is_persistent total
load-save_example =
    let word : 2 ^ 32 - 10 < 2 ^ 32 = omega arith in
    load-save (fire ∷ poison ∷ []) (
      (
        refl,
        omega arith,
        omega arith,
        omega arith,
        omega arith,
        omega arith,
        ((omega arith, word, omega arith), ((omega arith, word, omega arith), tt)),
        omega arith,
      ),
      (
        (refl, omega arith, omega arith, omega arith, omega arith, omega arith, tt, omega arith),
        tt,
      ),
    )

-- -20 and -10
abbrev first_burn : ℕ
first_burn = 2 ^ 32 - 20

abbrev burn : ℕ
burn = 2 ^ 32 - 10

abbrev burns : List Wound
burns =
    record { rounds = 1; waits = 0; value = first_burn }
    ∷ record { rounds = 2; waits = 3; value = burn }
    ∷ []

runs-due_example :
    (s : Running) × (vs : List ℕ) × (n : ℕ) × (start_damage true 5000
        (add_all 0 1000 burns (fresh 0 2 false))
      ≡ some (record { running = s; dealt = vs; starts = true }))
    × (n * 1000 ≤ 9000)
    × ((runs n 5000 1000 s).1 ≡ true)
    × (vs ++ (runs n 5000 1000 s).0 ≡ first_burn ∷ burn ∷ burn ∷ [])
unfolding due length_of
runs-due_example = runs-due 0 2 0 5000 1000 false burns (omega arith) (omega arith) (omega arith)

-- Of three rounds of 1500 milliseconds, with calls every 1000, the last is not dealt.
round_lost :
    runs 9 5000 1000 (start_condition 5000 (add_damage 0 3 1500 7 (fresh 0 2 true)).0)
    ≡ (7 ∷ 7 ∷ [], false)
unfolding runs execute_condition execute_list start_condition add_damage add_rounds add_round
round_lost = refl

abbrev none_suppressed : ℕ → Bool
none_suppressed condition_type = false

-- A fight after a drunkenness, for 60 seconds, added again for 30 after 10; haste and paralysis
-- come and go.
abbrev drunk : ConditionGeneric
drunk = record { id = 0; ticks = 9000; end_time = 9500; condition_type = 2 ^ 11 }

abbrev events : List (ℕ × Call)
events =
    (10000, adds 0 (2 ^ 10) 30000)
    ∷ (100, adds 0 (2 ^ 4) 5000)
    ∷ (900, executes 1000)
    ∷ (100, adds 0 (2 ^ 5) 5000)
    ∷ (4900, removes (2 ^ 11) 0)
    ∷ (100, removes_type (2 ^ 5))
    ∷ (43900, executes 1000)
    ∷ []

calls-has_condition_example :
    has_condition (500 + 60000) false (2 ^ 10) (
      calls none_suppressed 500 events
        (add_condition 500 none_suppressed (generic 0 (2 ^ 10) 60000) (drunk ∷ [])))
    ≡ true
calls-has_condition_example =
    calls-has_condition none_suppressed (2 ^ 10) 0 500 60000 (drunk ∷ []) events refl (refl, refl)
      (omega arith) (omega arith) (omega arith, tt)
      (omega arith, (omega arith, (omega arith, (omega arith, (refl, (refl, (omega arith, tt)))))))
      (omega arith)

-- Haste goes when a paralysis comes.
slowed :
    has_condition 600 false (2 ^ 4) (
      add_condition 600 none_suppressed
        (generic 0 (2 ^ 5) 5000)
        (add_condition 500 none_suppressed (generic 0 (2 ^ 4) 5000) []))
    ≡ false
unfolding has_condition add_condition has_equal take_up on_add_condition remove_type
slowed = refl

-- A condition without end that is added twice is there, but hasCondition does not see it.
unseen :
    let twice =
      calls none_suppressed 500
        ((100, adds 0 (2 ^ 9) minus_one) ∷ [])
        (generic 0 (2 ^ 9) minus_one ∷ []) in
    (has_condition 700 false (2 ^ 9) twice ≡ false) × (execute_conditions 700 1000 twice ≡ twice)
unfolding has_condition add_condition has_equal take_up execute_conditions
unseen = (refl, refl)

-- Fire of which a second has gone
abbrev scorch : ConditionDamage
scorch = record (condition_damage 0 2) {
  ticks = 5000;
  damage_list = round_of 1000 2000 ∷ round_of 4000 4000 ∷ [];
}

load-deals_example :
    (loaded : ConditionDamage) × (s : Running) × (vs : List ℕ) × (n : ℕ) × (load 2
        (save (scorch ∷ []) init).buffer
      ≡ some (loaded ∷ []))
    × (start_damage true 700 (record { condition = loaded; end_time = 0 })
        ≡ some (record { running = s; dealt = vs; starts = true }))
    × (n * 1000 ≤ 5000)
    × ((runs n 700 1000 s).1 ≡ true)
    × (vs ++ (runs n 700 1000 s).0 ≡ burn ∷ burn ∷ [])
unfolding is_persistent total time_left_of values
load-deals_example =
    let word : 2 ^ 32 - 10 < 2 ^ 32 = omega arith in
    load-deals scorch 700 1000 (omega arith) refl
      (
        refl,
        omega arith,
        omega arith,
        omega arith,
        omega arith,
        omega arith,
        ((omega arith, word, omega arith), ((omega arith, word, omega arith), tt)),
        omega arith,
      )
      refl (omega arith, (omega arith, tt)) ((0, refl), ((3, refl), tt)) (omega arith)
