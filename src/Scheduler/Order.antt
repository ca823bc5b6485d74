-- ===== src/Scheduler/Order.antt =====
-- The order in which events fire, and that each active one does.
use jamera_server.Base.{
  ℕ, ◌≤◌, ◌≡◌, ◌≢◌, refl, true, false, List, [], ◌∷◌, if◌then◌else◌, contains, All, arith,
  List-cases, inl, inr, length, replicate,
}
use jamera_server.Scheduler.{
  Scheduler, SchedulerTask, is_terminated, erase_id, push, next_event_id, round, Action, waits,
  adds, stops, act, run,
}
use jamera_server.Scheduler.Events.{contains-erase_id}

-- The earliest cycle stands first.
abbrev pub IsSorted : List SchedulerTask → Type 0
IsSorted [] = Unit
IsSorted (t ∷ ts) = All (λ u. t.cycle ≤ u.cycle) ts × IsSorted ts

All-later :
    (a b : ℕ) (ts : List SchedulerTask)
    → a ≤ b
    → All (λ u. b ≤ u.cycle) ts
    → All (λ u. a ≤ u.cycle) ts
All-later a b [] le h = tt
All-later a b (t ∷ ts) le h = (omega arith, All-later a b ts le h.1)

All-push :
    (c : ℕ) (t : SchedulerTask) (ts : List SchedulerTask)
    → c ≤ t.cycle
    → All (λ u. c ≤ u.cycle) ts
    → All (λ u. c ≤ u.cycle) (push t ts)
All-push c t [] le h = (le, tt)
All-push c t (u ∷ us) le h = ground (arith, All-push c t us le h.1)

push-IsSorted : (t : SchedulerTask) (ts : List SchedulerTask) → IsSorted ts → IsSorted (push t ts)
push-IsSorted t [] h = (tt, tt)
push-IsSorted t (u ∷ us) h =
    ground (arith, push-IsSorted t us h.1, All-push u.cycle t us, All-later t.cycle u.cycle us)

-- Whatever happens to the scheduler, the event on top is one with the earliest cycle.
pub act-IsSorted :
    (a : Action) (s : Scheduler) → IsSorted s.event_list → IsSorted (act a s).1.event_list
unfolding act
act-IsSorted (waits b) s h = elim (List-cases s.event_list) [
  | inl e ↦ rw (e, round) h
  | inr (t, rest, e) ↦ rw (e, round) (ground arith)
]
act-IsSorted (adds task) s h = ground (
  arith,
  push-IsSorted task s.event_list h,
  push-IsSorted (record task { event_id = next_event_id s.last_event_id }) s.event_list h,
)
act-IsSorted (stops k) s h = ground arith

-- No two events in the list share an id.
abbrev pub Distinct : List SchedulerTask → Type 0
Distinct [] = Unit
Distinct (t ∷ ts) = All (λ u. u.event_id ≢ t.event_id) ts × Distinct ts

-- The events that have not been stopped.
abbrev pub active : List ℕ → List SchedulerTask → List SchedulerTask
active ids [] = []
active ids (t ∷ ts) = if contains t.event_id ids then t ∷ active ids ts else active ids ts

active-erase_id :
    (id : ℕ) (ids : List ℕ) (ts : List SchedulerTask)
    → All (λ u. u.event_id ≢ id) ts
    → active (erase_id id ids) ts ≡ active ids ts
active-erase_id id ids [] h = refl
active-erase_id id ids (t ∷ ts) h =
    ground (arith, contains-erase_id t.event_id id ids, active-erase_id id ids ts h.1)

run-active :
    (ts : List SchedulerTask) (s : Scheduler)
    → is_terminated s.thread_state ≡ false
    → s.event_list ≡ ts
    → Distinct ts
    → run (replicate (length ts) (waits true)) s ≡ active s.event_ids ts
unfolding run act
run-active [] s live e d = refl
run-active (t ∷ ts) s live e d =
    rw (e, round)
      (ground (
        arith,
        active-erase_id t.event_id s.event_ids ts d.0,
        run-active ts (record s { event_list = ts }) live refl d.1,
        run-active ts (record s { event_list = ts; event_ids = erase_id t.event_id s.event_ids })
            live refl d.1,
      ))

-- While the thread runs, and when no two events of the list share an id and every wait runs into
-- its time limit, the scheduler gives each event that was not stopped to the dispatcher, once, in
-- the order of the list, and no other.
pub run_delivers :
    (s : Scheduler)
    → is_terminated s.thread_state ≡ false
    → Distinct s.event_list
    → run (replicate (length s.event_list) (waits true)) s ≡ active s.event_ids s.event_list
run_delivers s live d = run-active s.event_list s live refl d
