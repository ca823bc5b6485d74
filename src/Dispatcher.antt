-- ===== src/Dispatcher.antt =====
-- The dispatcher, source 7.6/tasks.h and tasks.cpp: the one thread that runs the game's tasks. A
-- step of this model is one critical section of the task lock with what follows it. What a task
-- does beyond posting tasks is not modelled: a task is a number, and the parameter `posts` lists
-- the addTask calls that its body makes, with their push_front flag.
pub mod Order
mod Tests
use jamera_server.Base.{ℕ, Bool, true, false, List, [], ◌∷◌, ◌++◌, if◌then◌else◌}

-- Dispatcher::DispatcherState
pub data DispatcherState : Type 0 where
  running closing terminated : DispatcherState

abbrev pub is_running : DispatcherState → Bool
is_running running = true
is_running closing = false
is_running terminated = false

abbrev pub is_terminated : DispatcherState → Bool
is_terminated running = false
is_terminated closing = false
is_terminated terminated = true

-- m_taskList and m_threadState, and the tasks that have been executed, oldest first.
pub record Dispatcher : Type 0 where
  pub task_list : List ℕ
  pub thread_state : DispatcherState
  pub executed : List ℕ

-- Dispatcher::Dispatcher
pub init : Dispatcher
init = record { task_list = []; thread_state = running; executed = [] }

-- addTask: a task that comes while the thread does not run is dropped.
unfoldable pub add_task : ℕ → Bool → Dispatcher → Dispatcher
add_task task push_front d =
    if is_running d.thread_state
    then if push_front
      then record d { task_list = task ∷ d.task_list }
      else record d { task_list = d.task_list ++ task ∷ [] }
    else d

-- stop
pub stop : Dispatcher → Dispatcher
stop d = record d { thread_state = closing }

pub add_tasks : List (ℕ × Bool) → Dispatcher → Dispatcher
unfolding add_task
add_tasks [] d = d
add_tasks ((task, push_front) ∷ ps) d = add_tasks ps (add_task task push_front d)

module _ (posts : ℕ → List (ℕ × Bool)) where
  -- (*task)()
  pub execute : ℕ → Dispatcher → Dispatcher
  unfolding add_tasks
  execute task d = add_tasks (posts task) (record d { executed = d.executed ++ task ∷ [] })

  -- One round of dispatcherThread that does not wait, or that was signalled: the loop's test, the
  -- first task taken off under the lock, and its execution.
  pub round : Dispatcher → Dispatcher
  unfolding execute
  round d =
      if is_terminated d.thread_state
      then d
      else elim d.task_list [ [] ↦ d | task ∷ rest ↦ execute task (record d { task_list = rest }) ]

  -- The loop of flush, over the list that was swapped out.
  pub drain : List ℕ → Dispatcher → Dispatcher
  unfolding execute
  drain [] d = d
  drain (task ∷ pending) d = drain pending (execute task d)

  -- flush
  pub flush : Dispatcher → Dispatcher
  unfolding drain
  flush d = drain d.task_list (record d { task_list = [] })

  -- shutdown
  pub shutdown : Dispatcher → Dispatcher
  unfolding flush
  shutdown d = flush (record d { thread_state = terminated })

  -- n rounds of the thread.
  pub rounds : ℕ → Dispatcher → Dispatcher
  unfolding round
  rounds ℕ.zero d = d
  rounds (ℕ.suc n) d = rounds n (round d)
