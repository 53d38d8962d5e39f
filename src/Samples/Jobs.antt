-- ===== src/Samples/Jobs.antt =====
-- A scheduler with jobs, entity state with channel ids, and the witnesses of the properties on them.
use pico_engine.Base.{
  true, false, not, ◌&&◌, ◌≡◌, refl, [], ◌∷◌, some, none, lookup, has, is_some, arith, eq_iff,
  Bool-cases, ◌==◌, inl, inr, subst,
}
use pico_engine.Scheduler.State.{
  Future, Scheduler, new_scheduler, add_future, add_cron, waiting, is_future, on_time, has_job,
  cancel_for_pico, jobs_of,
}
use pico_engine.Scheduler.Timer.{IsSorted, IsArmed, call, none_more, adds_future, Calls-IsArmed}
use pico_engine.Scheduler.Firing.{QuietCalls, QuietCall, on_time-Stalls, IsFired, on_time-IsFired}
use pico_engine.Scheduler.Firing as Firing
use pico_engine.Scheduler.Cancel.{IsDisjoint, cancel_for_pico-clears}
use pico_engine.Scheduler.Entity.{
  Event, at, ScheduledEvent, Stored, schedule_list, schedule_remove, run_job, run_timed, run_cron,
  repeat,
}
use pico_engine.Scheduler.Forgetting.{schedule_remove-forgets}
use pico_engine.EciRemap.{EciMap, Value, text, scalar, object, member, no_member}

abbrev first : Future
first = record { id = "j1"; time = 10 }

abbrev second : Future
second = record { id = "j2"; time = 20 }

-- Two futures of one pico, and the timer set for the first.
abbrev two_jobs : Scheduler
two_jobs = record {
  timer = some 10;
  futures = first ∷ second ∷ [];
  crons = ("c1", "* * * * *") ∷ [];
  job_pico_id = ("j1", "p1") ∷ ("j2", "p1") ∷ [];
  jobs_by_pico_id = ("p1", "j1" ∷ "j2" ∷ []) ∷ [];
  cancelled = [];
}

Calls-IsArmed_example : IsArmed (add_future "j1" 10 (add_future "j2" 20 new_scheduler))
Calls-IsArmed_example =
    Calls-IsArmed (add_future "j1" 10 (add_future "j2" 20 new_scheduler))
      (call (adds_future "j2" 20) (call (adds_future "j1" 10) none_more))

two_jobs-IsSorted : IsSorted two_jobs.futures
two_jobs-IsSorted = ((omega arith, tt), (tt, tt))

on_time-IsFired_example : IsFired 15 two_jobs
on_time-IsFired_example = on_time-IsFired 15 two_jobs two_jobs-IsSorted

-- The second job waits on when the first has fired, without a timer.
on_time-Stalls_example :
    ((add_cron "c2" "0 0 * * *" (on_time 15 two_jobs)).timer ≡ none)
    × ((add_cron "c2" "0 0 * * *" (on_time 15 two_jobs)).futures ≡ waiting 15 two_jobs.futures)
on_time-Stalls_example =
    on_time-Stalls 15 two_jobs (add_cron "c2" "0 0 * * *" (on_time 15 two_jobs))
      (Firing.call (Firing.adds_cron "c2" "0 0 * * *") Firing.none_more)

second_waits : waiting 15 two_jobs.futures ≡ second ∷ []
unfolding waiting
second_waits = refl

two_jobs-IsDisjoint : IsDisjoint two_jobs
unfolding lookup is_future
two_jobs-IsDisjoint id = elim (Bool-cases ("c1" == id)) [
  | inl e ↦
      subst (λ k. (is_some (lookup k two_jobs.crons) && is_future k two_jobs.futures) ≡ false)
        ((eq_iff "c1" id).0 e) refl
  | inr e ↦ rw e refl
]

cancel_for_pico-clears_example :
    has_job "j2" (cancel_for_pico "p1" two_jobs)
    ≡ (has_job "j2" two_jobs && not (has "j2" (jobs_of "p1" two_jobs)))
cancel_for_pico-clears_example = cancel_for_pico-clears "p1" "j2" two_jobs two_jobs-IsDisjoint

abbrev hello : Event
hello = record { eci = "e1"; domain = "echo"; name = "hello"; attrs = "{}" }

abbrev stored_jobs : Stored
stored_jobs = record {
  schedule = some (("j1", record { id = "j1"; timing = at 10; event = hello }) ∷ []);
  scheduler = two_jobs;
}

abbrev hello_at : ScheduledEvent
hello_at = record { id = "j3"; timing = at 30; event = hello }

abbrev hello_first : ScheduledEvent
hello_first = record { id = "j1"; timing = at 10; event = hello }

schedule_remove-forgets_example :
    (let st = schedule_remove "j2" stored_jobs in
      (schedule_list st ≡ [])
      × (has_job "j1" st.scheduler ≡ (has_job "j1" stored_jobs.scheduler && not ("j2" == "j1")))
      × ((run_job true hello_first st).0 ≡ none)
      × (has_job "j1" (run_job true hello_first st).1.scheduler
          ≡ (true && has_job "j1" st.scheduler)))
schedule_remove-forgets_example =
    schedule_remove-forgets "j2" hello_first true stored_jobs two_jobs-IsDisjoint

-- A repeated event that is in the list is raised, and stays.
abbrev hello_often : ScheduledEvent
hello_often = record { id = "c1"; timing = repeat "* * * * *"; event = hello }

abbrev stored_often : Stored
stored_often = record { schedule = some (("c1", hello_often) ∷ []); scheduler = two_jobs }

often_raised : run_job true hello_often stored_often ≡ (some hello, stored_often)
unfolding run_job run_timed run_cron lookup
often_raised = refl

abbrev moved : EciMap
moved = ("old1", "new1") ∷ ("old2", "new2") ∷ []

abbrev family : Value
family = object (
    member "parent" (text "old2")
      (member "name" (text "Ann") (member "age" (scalar "7") no_member)))
