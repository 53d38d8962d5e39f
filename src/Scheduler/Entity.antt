-- ===== src/Scheduler/Entity.antt =====
-- pico-engine-core/src/modules/schedule.ts: initScheduleModule, the ruleset's list `_schedule` and
-- the scheduler together. The pico that a channel belongs to is an argument, and so are a new id
-- and the time stamp of a text.
use pico_engine.Base.{
  ℕ, String, Bool, true, false, not, ◌&&◌, ◌≡◌, refl, ap, ◌∙◌, List, [], ◌∷◌, Option, none, some,
  lookup, insert, keys, values, is_some, has-keys,
}
use pico_engine.Scheduler.State.{
  Scheduler, delete_key, has_job, register_job, add_future, add_cron, remove, remove_all,
}
use pico_engine.Scheduler.Cancel.{IsDisjoint, has_job-remove_all}

pub record Event : Type 0 where
  pub eci : String
  pub domain : String
  pub name : String
  pub attrs : String

-- `type` is `at`, with a time stamp, or `repeat`, with a time specification.
pub data Timing : Type 0 where
  at : ℕ → Timing
  repeat : String → Timing

pub record ScheduledEvent : Type 0 where
  pub id : String
  pub timing : Timing
  pub event : Event

abbrev pub Schedule : Type 0
Schedule = List (String × ScheduledEvent)

-- `_schedule` of the ruleset, none where it is not set, and the engine's scheduler.
pub record Stored : Type 0 where
  pub schedule : Option Schedule
  pub scheduler : Scheduler

-- A value that may still be a promise, as the one of `getEnt` is until it is awaited.
pub data Held : Type 0 where
  promise : Option Schedule → Held
  object : Schedule → Held

abbrev pub get_ent : Stored → Held
get_ent st = promise st.schedule

-- `(await value) || {}`
abbrev pub awaited : Held → Schedule
awaited (promise none) = []
awaited (promise (some schedule)) = schedule
awaited (object schedule) = schedule

abbrev pub stored : Stored → Schedule
stored st = awaited (get_ent st)

-- The enumerable properties of a value; a promise has none, and inherits none.
abbrev enumerable_properties : Held → Schedule
enumerable_properties (promise schedule) = []
enumerable_properties (object schedule) = schedule

-- `_.omit(value, id)`
unfoldable pub omit : Held → String → Schedule
omit value id = delete_key id (enumerable_properties value)

unfoldable pub add_job : ScheduledEvent → Scheduler → Scheduler
add_job event scheduler = elim event.timing [
  | at time ↦ add_future event.id time scheduler
  | repeat timespec ↦ add_cron event.id timespec scheduler
]

module _ (channel_pico_id : String → Option String) where
  unfoldable pub add_scheduled_event : ScheduledEvent → Scheduler → Scheduler
  unfolding add_job
  add_scheduled_event event scheduler =
      add_job event (register_job (channel_pico_id event.event.eci) event.id scheduler)

  unfoldable pub add_to_schedule : ScheduledEvent → Stored → Stored
  unfolding add_scheduled_event
  add_to_schedule event st = record {
    schedule = some (insert event.id event (stored st));
    scheduler = add_scheduled_event event st.scheduler;
  }

  -- `schedule … at`, which throws where the time is no time stamp.
  unfoldable pub schedule_at : Option ℕ → String → Event → Stored → Option Stored
  unfolding add_to_schedule
  schedule_at none id event st = none
  schedule_at (some time) id event st =
      some (add_to_schedule (record { id = id; timing = at time; event = event }) st)

  unfoldable pub schedule_repeat : String → String → Event → Stored → Stored
  unfolding add_to_schedule
  schedule_repeat timespec id event st =
      add_to_schedule (record { id = id; timing = repeat timespec; event = event }) st

  -- `start` and `reloadSchedulesForPico`, for one list.
  unfoldable pub reload : List ScheduledEvent → Scheduler → Scheduler
  unfolding add_scheduled_event
  reload [] scheduler = scheduler
  reload (event ∷ events) scheduler = reload events (add_scheduled_event event scheduler)

unfoldable pub schedule_list : Stored → List ScheduledEvent
schedule_list st = values (stored st)

unfoldable pub schedule_get : String → Stored → Option ScheduledEvent
schedule_get id st = lookup id (stored st)

-- `schedule:remove`: getEnt is not awaited here, so `_.omit` is given its promise.
unfoldable pub schedule_remove : String → Stored → Stored
unfolding omit
schedule_remove id st = record {
  schedule = some (omit (get_ent st) id);
  scheduler = remove id st.scheduler;
}

unfoldable pub schedule_clear : Stored → Stored
schedule_clear st = record {
  schedule = none;
  scheduler = remove_all (keys (stored st)) st.scheduler;
}

-- The handler that a future has, of an event with a time: the event that it raises, and the list
-- without it. `found_pico` tells whether the channel's pico is there.
unfoldable pub run_future : Bool → ScheduledEvent → Stored → Option Event × Stored
unfolding omit
run_future false event st = (none, st)
run_future true event st = elim (lookup event.id (stored st)) [
  | none ↦ (none, st)
  | some job ↦
      (some event.event, record st { schedule = some (omit (object (stored st)) event.id) })
]

-- The handler that a cron has, of an event that is repeated. It removes its job where the list has
-- no event of the id.
unfoldable pub run_cron : Bool → ScheduledEvent → Stored → Option Event × Stored
run_cron false event st = (none, record st { scheduler = remove event.id st.scheduler })
run_cron true event st = elim (lookup event.id (stored st)) [
  | none ↦ (none, record st { scheduler = remove event.id st.scheduler })
  | some job ↦ (some event.event, st)
]

unfoldable pub run_timed : Timing → Bool → ScheduledEvent → Stored → Option Event × Stored
unfolding run_future run_cron
run_timed (at time) found_pico event st = run_future found_pico event st
run_timed (repeat timespec) found_pico event st = run_cron found_pico event st

-- The handler that `addScheduledEvent` gives to the event's job.
unfoldable pub run_job : Bool → ScheduledEvent → Stored → Option Event × Stored
unfolding run_timed
run_job found_pico event st = run_timed event.timing found_pico event st

-- Where no id is that of a cron and of a future: once a ruleset's schedule is cleared, the list has
-- no event, no job of an id that it had is left, and every other job is.
pub schedule_clear-clears :
    (st : Stored) (id : String)
    → IsDisjoint st.scheduler
    → (schedule_get id (schedule_clear st) ≡ none)
      × (has_job id (schedule_clear st).scheduler
          ≡ (has_job id st.scheduler && not (is_some (schedule_get id st))))
unfolding schedule_clear schedule_get lookup
schedule_clear-clears st id h = (
  refl,
  has_job-remove_all (keys (stored st)) id st.scheduler h
      ∙ ap (λ b. has_job id st.scheduler && not b) (has-keys id (stored st)),
)
