-- ===== src/Dispatcher/Order.antt =====
-- In which order tasks run, and that none is lost or left behind.
use mathlib.Core.List.{append-nil, append_assoc}
use jamera_server.Base.{
  ℕ, zero, suc, ◌≡◌, refl, ◌∙◌, Bool, true, false, List, [], ◌∷◌, ◌++◌, length, All, arith,
  Bool-cases, inl, inr,
}
use jamera_server.Dispatcher.{
  Dispatcher, terminated, is_running, is_terminated, add_tasks, execute, round, drain, shutdown,
  rounds,
}

-- Once the thread does not run, the tasks that a task posts are dropped.
add_tasks_dropped :
    (ps : List (ℕ × Bool)) (d : Dispatcher) → is_running d.thread_state ≡ false → add_tasks ps d ≡ d
unfolding add_tasks
add_tasks_dropped [] d h = refl
add_tasks_dropped ((t, f) ∷ ps) d h = ground (arith, add_tasks_dropped ps d h)

module _ (posts : ℕ → List (ℕ × Bool)) where
  execute_stopped :
      (task : ℕ) (d : Dispatcher)
      → is_running d.thread_state ≡ false
      → execute posts task d ≡ record d { executed = d.executed ++ task ∷ [] }
  unfolding execute
  execute_stopped task d h = add_tasks_dropped (posts task) _ h

  drain_lem :
      (pending : List ℕ) (d : Dispatcher)
      → is_running d.thread_state ≡ false
      → drain posts pending d ≡ record d { executed = d.executed ++ pending }
  unfolding drain
  drain_lem [] d h = ground (arith, append-nil d.executed)
  drain_lem (task ∷ pending) d h = rw (execute_stopped task d h) (
      ground (
        arith,
        drain_lem pending (record d { executed = d.executed ++ task ∷ [] }) h,
        append_assoc d.executed (task ∷ []) pending,
      ))

  -- shutdown runs every pending task once, in the order of the list, and leaves the list empty,
  -- whatever these tasks post.
  pub shutdown_lem :
      (d : Dispatcher)
      → shutdown posts d
        ≡ record { task_list = []; thread_state = terminated; executed = d.executed ++ d.task_list }
  unfolding shutdown
  shutdown_lem d = drain_lem d.task_list _ refl

-- Only addTask calls without push_front.
abbrev pub BackOnly : List (ℕ × Bool) → Type 0
BackOnly = All (λ p. p.1 ≡ false)

-- The tasks of a dispatcher: those that have run, then those that wait.
abbrev pub history : Dispatcher → List ℕ
history d = d.executed ++ d.task_list

abbrev posted : List (ℕ × Bool) → List ℕ
posted [] = []
posted ((t, f) ∷ ps) = t ∷ posted ps

add_tasks_running :
    (ps : List (ℕ × Bool)) (d : Dispatcher)
    → is_running d.thread_state ≡ true
    → BackOnly ps
    → add_tasks ps d ≡ record d { task_list = d.task_list ++ posted ps }
unfolding add_tasks
add_tasks_running [] d h b = ground (arith, append-nil d.task_list)
add_tasks_running ((t, f) ∷ ps) d h b = ground (
  arith,
  add_tasks_running ps (record d { task_list = d.task_list ++ t ∷ [] }) h b.1,
  append_assoc d.task_list (t ∷ []) (posted ps),
)

-- What a task's posts add to the end of the list, if anything.
add_tasks-append :
    (ps : List (ℕ × Bool)) (d : Dispatcher)
    → BackOnly ps
    → (new : List ℕ) × (add_tasks ps d ≡ record d { task_list = d.task_list ++ new })
add_tasks-append ps d b = elim (Bool-cases (is_running d.thread_state)) [
  | inl h ↦ (posted ps, add_tasks_running ps d h b)
  | inr h ↦ ([], add_tasks_dropped ps d h ∙ ground (arith, append-nil d.task_list))
]

module _ (posts : ℕ → List (ℕ × Bool)) (back_only : (task : ℕ) → BackOnly (posts task)) where
  round-append :
      (d : Dispatcher) (task : ℕ) (rest : List ℕ)
      → is_terminated d.thread_state ≡ false
      → d.task_list ≡ task ∷ rest
      → (new : List ℕ) × (round posts d
          ≡ record d { task_list = rest ++ new; executed = d.executed ++ task ∷ [] })
  unfolding round
  round-append d task rest h e =
      let (new, eq) =
        add_tasks-append (posts task)
          (record d { task_list = rest; executed = d.executed ++ task ∷ [] }) (back_only task) in
      (new, ground (arith, eq))

  -- While the thread is not terminated and nothing is posted to the front, n rounds run the first
  -- n waiting tasks, one each, in the order of the list, and new tasks wait behind the others.
  pub rounds-fifo :
      (n : ℕ) (d : Dispatcher) (first rest : List ℕ)
      → is_terminated d.thread_state ≡ false
      → d.task_list ≡ first ++ rest
      → length first ≡ n
      → (new : List ℕ) × (rounds posts n d
          ≡ record d { task_list = rest ++ new; executed = d.executed ++ first })
  unfolding rounds
  rounds-fifo zero d [] rest h e len = ([], ground (arith, append-nil d.executed, append-nil rest))
  rounds-fifo zero d (t ∷ first) rest h e len = absurd (omega arith)
  rounds-fifo (suc n) d [] rest h e len = absurd (omega arith)
  rounds-fifo (suc n) d (t ∷ first) rest h e len =
      let (new, eq) = round-append d t (first ++ rest) h e in
      let (more, then') =
        rounds-fifo n
          (record d { task_list = (first ++ rest) ++ new; executed = d.executed ++ t ∷ [] }) first
          (rest ++ new) h (append_assoc first rest new) (omega arith) in
      (
        new ++ more,
        ground
            (arith, eq, then', append_assoc rest new more, append_assoc d.executed (t ∷ []) first),
      )
