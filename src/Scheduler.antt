-- ===== src/Scheduler.antt =====
-- The scheduler, source 7.6/scheduler.h and scheduler.cpp: delayed tasks, which go to the
-- dispatcher when their time has come unless they were stopped. A step of this model is one
-- critical section of the event lock. m_eventList, a priority queue of the standard library, is a
-- list with the earliest cycle first (among equal cycles the standard leaves the order open; here
-- the older event comes first), and m_eventIds is a list read as a set.
pub mod Events
pub mod Order
mod Tests
use jamera_server.Base.{
  ℕ, zero, suc, ◌+◌, Bool, true, false, ◌&&◌, not, List, [], ◌∷◌, Option, none, some, ltb, leb,
  ◌==◌, if◌then◌else◌, contains,
}

-- Scheduler::SchedulerState
pub data SchedulerState : Type 0 where
  running closing terminated : SchedulerState

abbrev pub is_running : SchedulerState → Bool
is_running running = true
is_running closing = false
is_running terminated = false

abbrev pub is_terminated : SchedulerState → Bool
is_terminated running = false
is_terminated closing = false
is_terminated terminated = true

-- SchedulerTask: m_eventid, m_cycle in milliseconds, and its function as a number.
pub record SchedulerTask : Type 0 where
  pub event_id : ℕ
  pub cycle : ℕ
  pub f : ℕ

pub record Scheduler : Type 0 where
  pub last_event_id : ℕ
  pub event_list : List SchedulerTask
  pub event_ids : List ℕ
  pub thread_state : SchedulerState

abbrev pub scheduler_minticks : ℕ
scheduler_minticks = 50

-- createSchedulerTask at the time `now`: at least 50 ms ahead. (It asserts that delay is not 0.)
pub create_scheduler_task : ℕ → ℕ → ℕ → SchedulerTask
create_scheduler_task now delay f = record {
  event_id = 0;
  cycle = now + (if ltb delay scheduler_minticks then scheduler_minticks else delay);
  f = f;
}

-- Scheduler::Scheduler
pub init : Scheduler
init = record { last_event_id = 0; event_list = []; event_ids = []; thread_state = running }

-- m_eventIds.insert and erase
abbrev pub insert_id : ℕ → List ℕ → List ℕ
insert_id k ids = if contains k ids then ids else k ∷ ids

abbrev pub erase_id : ℕ → List ℕ → List ℕ
erase_id k [] = []
erase_id k (i ∷ ids) = if i == k then erase_id k ids else i ∷ erase_id k ids

-- m_eventList.push
abbrev pub push : SchedulerTask → List SchedulerTask → List SchedulerTask
push t [] = t ∷ []
push t (u ∷ us) = if ltb t.cycle u.cycle then t ∷ u ∷ us else u ∷ push t us

-- The id that addEvent gives to a task without one: m_lastEventId after the wrap at 0xFFFFFFFF.
pub next_event_id : ℕ → ℕ
next_event_id last = (if leb 0xFFFFFFFF last then 0 else last) + 1

-- The part of addEvent under the lock, for a task that has its id.
pub insert_event : SchedulerTask → Scheduler → Scheduler
insert_event task s = record s {
  event_ids = insert_id task.event_id s.event_ids;
  event_list = push task s.event_list;
}

-- addEvent: the id of the task, and the scheduler. The signal to the thread is not state.
pub add_event : SchedulerTask → Scheduler → ℕ × Scheduler
unfolding next_event_id insert_event
add_event task s =
    if is_running s.thread_state
    then if task.event_id == 0
      then (
        next_event_id s.last_event_id,
        insert_event (record task { event_id = next_event_id s.last_event_id })
            (record s { last_event_id = next_event_id s.last_event_id }),
      )
      else (task.event_id, insert_event task s)
    else (task.event_id, s)

-- stopEvent
pub stop_event : ℕ → Scheduler → Bool × Scheduler
stop_event event_id s =
    if event_id == 0
    then (false, s)
    else if contains event_id s.event_ids
    then (true, record s { event_ids = erase_id event_id s.event_ids })
    else (false, s)

-- stop and shutdown
pub stop : Scheduler → Scheduler
stop s = record s { thread_state = closing }

pub shutdown : Scheduler → Scheduler
shutdown s = record s { thread_state = terminated; event_list = []; event_ids = [] }

-- One round of schedulerThread: `timed_out` says that timed_wait has reached the cycle of the top
-- event. With no event the thread waits without a limit. The answer is the task for the dispatcher.
pub round : Bool → Scheduler → Option SchedulerTask × Scheduler
round timed_out s = elim s.event_list [
  | [] ↦ (none, s)
  | task ∷ rest ↦
      if timed_out && not (is_terminated s.thread_state)
      then if contains task.event_id s.event_ids
        then (
          some task,
          record s { event_list = rest; event_ids = erase_id task.event_id s.event_ids },
        )
        else (none, record s { event_list = rest })
      else (none, s)
]

-- What the threads of the server do with the scheduler while it runs.
pub data Action : Type 0 where
  waits : Bool → Action
  adds : SchedulerTask → Action
  stops : ℕ → Action

pub act : Action → Scheduler → Option SchedulerTask × Scheduler
unfolding round add_event stop_event
act (waits timed_out) s = round timed_out s
act (adds task) s = (none, (add_event task s).1)
act (stops event_id) s = (none, (stop_event event_id s).1)

abbrev emit : Option SchedulerTask → List SchedulerTask → List SchedulerTask
emit none ts = ts
emit (some t) ts = t ∷ ts

-- The tasks that go to the dispatcher over a sequence of actions.
pub run : List Action → Scheduler → List SchedulerTask
unfolding act
run [] s = []
run (a ∷ as') s = emit (act a s).0 (run as' (act a s).1)
