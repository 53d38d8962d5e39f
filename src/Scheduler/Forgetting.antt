-- ===== src/Scheduler/Forgetting.antt =====
-- pico-engine-core/src/modules/schedule.ts: the action remove of the schedule module.
use pico_engine.Base.{
  String, Bool, true, false, not, ◌&&◌, ◌==◌, ◌≡◌, refl, ◌∙◌, [], none, some, lookup, eq_refl,
  arith,
}
use pico_engine.Scheduler.State.{has_job, delete_key}
use pico_engine.Scheduler.Cancel.{IsDisjoint, IsDisjoint-remove, has_job-remove}
use pico_engine.Scheduler.Entity.{
  Timing, at, repeat, ScheduledEvent, Stored, schedule_list, schedule_remove, run_future, run_cron,
  run_timed, run_job, omit,
}

abbrev pub is_at : Timing → Bool
is_at (at time) = true
is_at (repeat timespec) = false

-- A handler that does not find its event in an empty list: a repeated event loses its job.
run_timed-empty :
    (timing : Timing) (found_pico : Bool) (event : ScheduledEvent) (st : Stored)
    → IsDisjoint st.scheduler
    → st.schedule ≡ some []
    → ((run_timed timing found_pico event st).0 ≡ none)
      × (has_job event.id (run_timed timing found_pico event st).1.scheduler
          ≡ (is_at timing && has_job event.id st.scheduler))
unfolding run_timed run_future run_cron lookup
run_timed-empty (at time) false event st d e = (refl, refl)
run_timed-empty (at time) true event st d e = rw (run_future, e) (refl, refl)
run_timed-empty (repeat timespec) false event st d e =
    (refl, has_job-remove event.id event.id st.scheduler d ∙ ground (arith, eq_refl event.id))
run_timed-empty (repeat timespec) true event st d e =
    rw (run_cron, e)
      (refl, has_job-remove event.id event.id st.scheduler d ∙ ground (arith, eq_refl event.id))

-- Where no id is that of a cron and of a future: `schedule:remove` takes away the job of the one id,
-- and every other event keeps its job; but the list of the ruleset is empty then, so that the
-- handler of no event raises it, and the handler of a repeated event removes its job.
pub schedule_remove-forgets :
    (removed : String) (event : ScheduledEvent) (found_pico : Bool) (st : Stored)
    → IsDisjoint st.scheduler
    → (let st' = schedule_remove removed st in
        (schedule_list st' ≡ [])
        × (has_job event.id st'.scheduler
            ≡ (has_job event.id st.scheduler && not (removed == event.id)))
        × ((run_job found_pico event st').0 ≡ none)
        × (has_job event.id (run_job found_pico event st').1.scheduler
            ≡ (is_at event.timing && has_job event.id st'.scheduler)))
unfolding schedule_remove schedule_list run_job omit delete_key
schedule_remove-forgets removed event found_pico st d =
    let (silent, left) =
      run_timed-empty event.timing found_pico event (schedule_remove removed st)
        (IsDisjoint-remove removed st.scheduler d) refl in
    (refl, has_job-remove removed event.id st.scheduler d, silent, left)
