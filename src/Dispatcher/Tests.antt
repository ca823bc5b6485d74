-- ===== src/Dispatcher/Tests.antt =====
-- Runs of the dispatcher, and the theorems about it at concrete inputs.
use jamera_server.Base.{
  ℕ, ◌≡◌, refl, Bool, true, false, List, [], ◌∷◌, ◌++◌, ◌==◌, if◌then◌else◌, arith,
}
use jamera_server.Dispatcher.{Dispatcher, running, add_task, round, rounds}
use jamera_server.Dispatcher.Order.{BackOnly, rounds-fifo}

-- Task 1 posts task 9, at the end.
abbrev posts : ℕ → List (ℕ × Bool)
posts t = if t == 1 then (9, false) ∷ [] else []

posts-BackOnly : (t : ℕ) → BackOnly (posts t)
posts-BackOnly t = ground arith

abbrev waiting : Dispatcher
waiting = record { task_list = 1 ∷ 2 ∷ []; thread_state = running; executed = [] }

-- A task in front of the others runs first.
front_first : (round posts (add_task 7 true waiting)).executed ≡ 7 ∷ []
unfolding round
front_first = refl

rounds-fifo_example :
    (new : List ℕ) × (rounds posts 2 waiting
      ≡ record waiting { task_list = [] ++ new; executed = [] ++ 1 ∷ 2 ∷ [] })
rounds-fifo_example = rounds-fifo posts posts-BackOnly 2 waiting (1 ∷ 2 ∷ []) [] refl refl refl
