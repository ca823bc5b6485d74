-- ===== src/Scheduler/Tests.antt =====
-- Runs of the scheduler, and the theorems about it at concrete inputs.
use jamera_server.Base.{
  ℕ, ◌≡◌, ◌≢◌, refl, true, false, List, [], ◌∷◌, All, arith, replicate, length,
}
use jamera_server.Scheduler.{
  Scheduler, SchedulerTask, running, stop_event, Action, waits, adds, stops, run,
  create_scheduler_task,
}
use jamera_server.Scheduler.Events.{stop_event-never_runs}
use jamera_server.Scheduler.Order.{IsSorted, Distinct, active, run_delivers}

abbrev task : ℕ → ℕ → SchedulerTask
task id cycle = record { event_id = id; cycle = cycle; f = 0 }

abbrev busy : Scheduler
busy = record {
  last_event_id = 3;
  event_list = task 2 50 ∷ task 1 70 ∷ task 3 90 ∷ [];
  event_ids = 3 ∷ 2 ∷ 1 ∷ [];
  thread_state = running;
}

-- A short delay is raised to 50 ms.
short_delay : create_scheduler_task 1000 10 0 ≡ task 0 1050
unfolding create_scheduler_task
short_delay = refl

abbrev later : List Action
later = waits true ∷ adds (task 0 60) ∷ waits false ∷ waits true ∷ stops 3 ∷ waits true ∷ []

stop_event-never_runs_example : All (λ t. t.event_id ≢ 1) (run later (stop_event 1 busy).1)
unfolding stop_event
stop_event-never_runs_example =
    stop_event-never_runs 1 busy later refl (omega arith) (omega arith) (refl, tt)

abbrev clash : Scheduler
clash = record busy { event_list = task 2 50 ∷ task 2 70 ∷ []; event_ids = 2 ∷ [] }

busy-IsSorted : IsSorted busy.event_list
busy-IsSorted = omega arith

busy-Distinct : Distinct busy.event_list
busy-Distinct = ground arith

run_delivers_example :
    run (replicate (length busy.event_list) (waits true)) busy
    ≡ active busy.event_ids busy.event_list
run_delivers_example = run_delivers busy refl busy-Distinct
