-- ===== src/Condition/Lasting.antt =====
-- A condition that is added stays for its time, whatever else is added and however often it is
-- executed.
use jamera_server.Base.{
  ℕ, ◌+◌, ◌^◌, ◌≤◌, ◌<◌, ◌≡◌, Bool, true, false, ◌&&◌, ◌==◌, List, [], ◌∷◌, All, arith,
}
use jamera_server.Condition.Generic.{
  ConditionGeneric, add_condition, remove_type, execute_conditions, remove_condition, has_condition,
}
use jamera_server.Condition.Kept.{
  generic, NoSpeed, Counted, Lasts, taken-Lasts, take_up-Lasts, execute-Lasts, remove-Lasts,
  remove_type-Lasts, add_condition-Lasts, has_condition-Lasts,
}

-- What happens to the conditions of a creature
pub data Call : Type 0 where
  adds : ℕ → ℕ → ℕ → Call
  executes : ℕ → Call
  removes : ℕ → ℕ → Call
  removes_type : ℕ → Call

-- It adds a condition with an end, executes for an interval, or removes other conditions.
abbrev pub Spares : ℕ → ℕ → ℕ × Call → Type 0
Spares condition_type id (wait, adds id' type' ticks) = ticks < 2 ^ 31
Spares condition_type id (wait, executes interval) = interval < 2 ^ 31
Spares condition_type id (wait, removes type' id') = (type' == condition_type && id' == id) ≡ false
Spares condition_type id (wait, removes_type type') = (type' == condition_type) ≡ false

abbrev pub time_of : List (ℕ × Call) → ℕ
time_of [] = 0
time_of ((wait, call) ∷ rest) = wait + time_of rest

abbrev pub step : (ℕ → Bool) → ℕ → Call → List ConditionGeneric → List ConditionGeneric
step suppressed now (adds id condition_type ticks) cs =
    add_condition now suppressed (generic id condition_type ticks) cs
step suppressed now (executes interval) cs = execute_conditions now interval cs
step suppressed now (removes condition_type id) cs = remove_condition condition_type id cs
step suppressed now (removes_type condition_type) cs = remove_type condition_type cs

-- Calls, each some time after the one before
abbrev pub calls : (ℕ → Bool) → ℕ → List (ℕ × Call) → List ConditionGeneric → List ConditionGeneric
calls suppressed now [] cs = cs
calls suppressed now ((wait, call) ∷ rest) cs =
    calls suppressed (now + wait) rest (step suppressed (now + wait) call cs)

module _ (suppressed : ℕ → Bool) (condition_type id : ℕ) where
  step-Lasts :
      (now wait until : ℕ) (call : Call) (cs : List ConditionGeneric)
      → NoSpeed condition_type
      → Spares condition_type id (wait, call)
      → now ≤ until
      → Lasts condition_type id until cs
      → Lasts condition_type id until (step suppressed now call cs)
  step-Lasts now wait until (adds id' type' ticks) cs f s n l =
      let added = generic id' type' ticks in
      add_condition-Lasts condition_type id now until suppressed added cs f
        (take_up-Lasts condition_type id now until added cs s l)
  step-Lasts now wait until (executes interval) cs f s n l =
      execute-Lasts condition_type id now interval until cs n s l
  step-Lasts now wait until (removes type' id') cs f s n l =
      remove-Lasts condition_type id type' id' until cs s l
  step-Lasts now wait until (removes_type type') cs f s n l =
      remove_type-Lasts condition_type id type' until cs s l

  calls-Lasts :
      (now until : ℕ) (es : List (ℕ × Call)) (cs : List ConditionGeneric)
      → NoSpeed condition_type
      → All (Spares condition_type id) es
      → now + time_of es ≤ until
      → Lasts condition_type id until cs
      → Lasts condition_type id until (calls suppressed now es cs)
  calls-Lasts now until [] cs f s n l = l
  calls-Lasts now until ((wait, call) ∷ es) cs f (s, ss) n l =
      calls-Lasts (now + wait) until es (step suppressed (now + wait) call cs) f ss (omega arith)
        (step-Lasts (now + wait) wait until call cs f s (omega arith) l)

-- A creature that is no monster has a condition for at least the ticks with which it was added, if
-- that is not suppressed and is neither haste nor paralysis: whatever conditions with an end are
-- added after it, with shorter ticks of its own type and id too, however often conditions are
-- executed, and whatever others are removed. All conditions are taken to be of ConditionGeneric,
-- and at the start none of them is without an end.
pub calls-has_condition :
    (suppressed : ℕ → Bool) (condition_type id now ticks : ℕ) (cs : List ConditionGeneric)
    (es : List (ℕ × Call))
    → suppressed condition_type ≡ false
    → NoSpeed condition_type
    → 0 < ticks
    → ticks < 2 ^ 31
    → All Counted cs
    → All (Spares condition_type id) es
    → time_of es ≤ ticks
    → let after =
        calls suppressed now es
          (add_condition now suppressed (generic id condition_type ticks) cs) in
      has_condition (now + time_of es) (suppressed condition_type) condition_type after ≡ true
calls-has_condition suppressed condition_type id now ticks cs es u f p t a s n =
    let added = generic id condition_type ticks in
    let start =
      add_condition-Lasts condition_type id now (now + ticks) suppressed added cs f
        (taken-Lasts condition_type id now ticks cs p t a) in
    let last =
      calls-Lasts suppressed condition_type id now (now + ticks) es _ f s (omega arith) start in
    rw (u)
      (has_condition-Lasts condition_type id (now + time_of es) (now + ticks) _ (omega arith) last)
