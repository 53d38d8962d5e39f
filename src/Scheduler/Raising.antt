-- ===== src/Scheduler/Raising.antt =====
-- pico-engine-core/src/modules/schedule.ts: an event from its scheduling to its raising.
use pico_engine.Base.{String, true, ◌==◌, if◌then◌else◌, ◌≡◌, none, some}
use pico_engine.Scheduler.State.{Scheduler}
use pico_engine.Scheduler.Entity.{Timing, at, repeat, ScheduledEvent, Stored, schedule_get, run_job}

-- What is left when the handler has run once: an event with a time is taken out of the list, alone,
-- and its handler would raise nothing more; with a repeated one all stays, and it is raised again.
abbrev pub Leaves : Timing → ScheduledEvent → Stored → Stored → Type 0
Leaves (at time) event before after =
    ((id : String)
      → schedule_get id after ≡ (if event.id == id then none else schedule_get id before))
    × ((run_job true event after).0 ≡ none)
Leaves (repeat timespec) event before after =
    (after ≡ before) × ((run_job true event after).0 ≡ some event.event)
