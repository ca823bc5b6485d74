-- ===== src/Scheduler/Events.antt =====
-- Event ids: stopping an event, and when an event runs.
use jamera_server.Base.{
  ℕ, suc, ◌+◌, ◌≤◌, ◌<◌, ◌≡◌, ◌≢◌, refl, Bool, true, false, List, [], ◌∷◌, Option, none, some, ◌==◌,
  if◌then◌else◌, contains, All, arith, List-cases, inl, inr,
}
use jamera_server.Scheduler.{
  Scheduler, SchedulerTask, is_running, is_terminated, insert_id, erase_id, add_event, stop_event,
  round, emit, Action, waits, adds, stops, act, run,
}

pub contains-erase_id :
    (j k : ℕ) (ids : List ℕ)
    → contains j (erase_id k ids) ≡ (if j == k then false else contains j ids)
contains-erase_id j k [] = ground arith
contains-erase_id j k (i ∷ ids) = ground (arith, contains-erase_id j k ids)

pub contains-insert_id :
    (j k : ℕ) (ids : List ℕ)
    → contains j (insert_id k ids) ≡ (if j == k then true else contains j ids)
contains-insert_id j k ids = ground arith

-- The event is stopped, and its id will not be given away again before n more events are added.
record Gone (id n : ℕ) (s : Scheduler) : Type 0 where
  inactive : contains id s.event_ids ≡ false
  issued : id ≤ s.last_event_id
  no_wrap : s.last_event_id + n ≤ 0xFFFFFFFF
  nonzero : 0 < id

-- Events come from createSchedulerTask, so they have no id when they are added.
abbrev pub AddsFresh : List Action → Type 0
AddsFresh [] = Unit
AddsFresh (waits b ∷ as') = AddsFresh as'
AddsFresh (adds task ∷ as') = (task.event_id ≡ 0) × AddsFresh as'
AddsFresh (stops k ∷ as') = AddsFresh as'

abbrev pub count_adds : List Action → ℕ
count_adds [] = 0
count_adds (waits b ∷ as') = count_adds as'
count_adds (adds task ∷ as') = suc (count_adds as')
count_adds (stops k ∷ as') = count_adds as'

round-Gone : (id n : ℕ) (b : Bool) (s : Scheduler) → Gone id n s → Gone id n (round b s).1
unfolding round
round-Gone id n b s g = elim (List-cases s.event_list) [
  | inl e ↦ rw (e, round) g
  | inr (t, rest, e) ↦ rw (e, round) (ground (arith, contains-erase_id id t.event_id s.event_ids))
]

round-not_run :
    (id n : ℕ) (b : Bool) (s : Scheduler) (task : SchedulerTask)
    → Gone id n s
    → (round b s).0 ≡ some task
    → task.event_id ≢ id
unfolding round
round-not_run id n b s task g = elim (List-cases s.event_list) [
  | inl e ↦ rw (e, round) (λ h. cc)
  | inr (t, rest, e) ↦ rw (e, round) (ground arith)
]

add_event-Gone :
    (id n : ℕ) (task : SchedulerTask) (s : Scheduler)
    → task.event_id ≡ 0
    → Gone id (suc n) s
    → Gone id n (add_event task s).1
unfolding add_event
add_event-Gone id n task s z g =
    ground (arith, contains-insert_id id (s.last_event_id + 1) s.event_ids)

stop_event-Gone : (id n k : ℕ) (s : Scheduler) → Gone id n s → Gone id n (stop_event k s).1
unfolding stop_event
stop_event-Gone id n k s g = ground (arith, contains-erase_id id k s.event_ids)

emit-All :
    (id : ℕ) (o : Option SchedulerTask) (ts : List SchedulerTask)
    → ((task : SchedulerTask) → o ≡ some task → task.event_id ≢ id)
    → All (λ t. t.event_id ≢ id) ts
    → All (λ t. t.event_id ≢ id) (emit o ts)
emit-All id none ts h a = a
emit-All id (some t) ts h a = (h t refl, a)

run-not_run :
    (id : ℕ) (as' : List Action) (s : Scheduler)
    → AddsFresh as'
    → Gone id (count_adds as') s
    → All (λ t. t.event_id ≢ id) (run as' s)
unfolding run
run-not_run id [] s f g = tt
run-not_run id (waits b ∷ as') s f g =
    unfold act in
    emit-All id (round b s).0 _ (λ task. round-not_run id _ b s task g)
      (run-not_run id as' (round b s).1 f (round-Gone id _ b s g))
run-not_run id (adds task ∷ as') s f g =
    unfold act in run-not_run id as' (add_event task s).1 f.1 (add_event-Gone id _ task s f.0 g)
run-not_run id (stops k ∷ as') s f g =
    unfold act in run-not_run id as' (stop_event k s).1 f (stop_event-Gone id _ k s g)

-- An event that stopEvent has stopped is never given to the dispatcher, whatever else is added,
-- stopped or run later, as long as the 32-bit ids do not wrap.
pub stop_event-never_runs :
    (id : ℕ) (s : Scheduler) (as' : List Action)
    → (stop_event id s).0 ≡ true
    → id ≤ s.last_event_id
    → s.last_event_id + count_adds as' ≤ 0xFFFFFFFF
    → AddsFresh as'
    → All (λ t. t.event_id ≢ id) (run as' (stop_event id s).1)
unfolding stop_event
stop_event-never_runs id s as' stopped issued no_wrap fresh =
    run-not_run id as' (stop_event id s).1 fresh
      (ground (arith, contains-erase_id id id s.event_ids))

-- The events in the list, each with an id of its own that was given away before.
abbrev pub Issued : ℕ → List ℕ → Type 0
Issued last = All (λ id. id ≤ last)

contains-Issued :
    (last id : ℕ) (ids : List ℕ) → Issued last ids → last < id → contains id ids ≡ false
contains-Issued last id [] h lt = refl
contains-Issued last id (i ∷ ids) h lt = ground (arith, contains-Issued last id ids)

-- Before the wrap addEvent gives a running scheduler's event an id that is not 0, that no active
-- event has, and that is active from then on.
pub add_event-fresh :
    (task : SchedulerTask) (s : Scheduler)
    → is_running s.thread_state ≡ true
    → task.event_id ≡ 0
    → s.last_event_id < 0xFFFFFFFF
    → Issued s.last_event_id s.event_ids
    → let (id, s') = add_event task s in
      (0 < id)
      × (contains id s.event_ids ≡ false)
      × (contains id s'.event_ids ≡ true)
      × (stop_event id s').0 ≡ true
unfolding add_event stop_event
add_event-fresh task s r z lt h = ground (
  arith,
  contains-Issued s.last_event_id (s.last_event_id + 1) s.event_ids h,
  contains-insert_id (s.last_event_id + 1) (s.last_event_id + 1) s.event_ids,
)

-- After the wrap an id may still be active: then two events share it, the first of them to fire
-- takes the id out of the set, and the other one is thrown away when its time comes.
pub round-shared_id :
    (s : Scheduler) (t u : SchedulerTask) (rest : List SchedulerTask)
    → is_terminated s.thread_state ≡ false
    → s.event_list ≡ t ∷ u ∷ rest
    → u.event_id ≡ t.event_id
    → (round true (round true s).1).0 ≡ none
unfolding round
round-shared_id s t u rest live e same =
    rw (e, round) (ground (arith, contains-erase_id u.event_id t.event_id s.event_ids))
