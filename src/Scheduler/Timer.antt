-- ===== src/Scheduler/Timer.antt =====
-- pico-engine-core/src/modules/schedule.ts: when a timer is set for the next event.
use pico_engine.Base.{
  ℕ, ◌≤◌, ◌<◌, String, true, false, ◌==◌, ◌≡◌, refl, inl, inr, Bool-cases, Option-cases, List, [],
  ◌∷◌, Option, truthy, lookup, is_some, All, arith,
}
use pico_engine.Scheduler.State.{
  Future, Scheduler, new_scheduler, register_job, is_future, head_time, update, is_before,
  insert_future, sort_futures, add_future, add_cron, without, forget_job, drop_job, remove,
  remove_all, cancel_for_pico,
}

-- No later future stands before an earlier one.
abbrev pub IsSorted : List Future → Type 0
IsSorted [] = Unit
IsSorted (f ∷ fs) = All (λ g. f.time ≤ g.time) fs × IsSorted fs

-- The futures are sorted, and the timer is set for the first of them.
abbrev pub IsArmed : Scheduler → Type 0
IsArmed st = IsSorted st.futures × (st.timer ≡ head_time st.futures)

before-lt : (a b : ℕ) → is_before a b ≡ true → a < b
before-lt a b h = ground (arith, h)

not_before-le : (a b : ℕ) → is_before a b ≡ false → b ≤ a
not_before-le a b h = ground (arith, h)

All-insert_future :
    (P : Future → Type 0) (f : Future) (fs : List Future)
    → P f
    → All P fs
    → All P (insert_future f fs)
unfolding insert_future
All-insert_future P f [] p h = (p, tt)
All-insert_future P f (g ∷ gs) p (q, h) = elim (Bool-cases (is_before g.time f.time)) [
  | inl e ↦ rw e (q, All-insert_future P f gs p h)
  | inr e ↦ rw e (p, (q, h))
]

All-le : (t u : ℕ) (fs : List Future) → t ≤ u → All (λ g. u ≤ g.time) fs → All (λ g. t ≤ g.time) fs
All-le t u [] l h = tt
All-le t u (f ∷ fs) l (a, h) = (omega arith, All-le t u fs l h)

insert_future-IsSorted :
    (f : Future) (fs : List Future) → IsSorted fs → IsSorted (insert_future f fs)
unfolding insert_future
insert_future-IsSorted f [] h = (tt, tt)
insert_future-IsSorted f (g ∷ gs) (a, h) = elim (Bool-cases (is_before g.time f.time)) [
  | inl e ↦
      let l = before-lt g.time f.time e in
      rw e (
        All-insert_future (λ x. g.time ≤ x.time) f gs (omega arith) a,
        insert_future-IsSorted f gs h,
      )
  | inr e ↦ let l = not_before-le g.time f.time e in rw e ((l, All-le f.time g.time gs l a), (a, h))
]

sort_futures-IsSorted : (fs : List Future) → IsSorted (sort_futures fs)
unfolding sort_futures
sort_futures-IsSorted [] = tt
sort_futures-IsSorted (f ∷ fs) =
    insert_future-IsSorted f (sort_futures fs) (sort_futures-IsSorted fs)

All-without :
    (P : Future → Type 0) (id : String) (fs : List Future) → All P fs → All P (without id fs)
unfolding without
All-without P id [] h = tt
All-without P id (f ∷ fs) (p, h) = elim (Bool-cases (f.id == id)) [
  | inl e ↦ rw e (All-without P id fs h)
  | inr e ↦ rw e (p, All-without P id fs h)
]

without-IsSorted : (id : String) (fs : List Future) → IsSorted fs → IsSorted (without id fs)
unfolding without
without-IsSorted id [] h = tt
without-IsSorted id (f ∷ fs) (a, h) = elim (Bool-cases (f.id == id)) [
  | inl e ↦ rw e (without-IsSorted id fs h)
  | inr e ↦ rw e (All-without (λ g. f.time ≤ g.time) id fs a, without-IsSorted id fs h)
]

forget_job-IsArmed : (id : String) (st : Scheduler) → IsArmed st → IsArmed (forget_job id st)
unfolding forget_job
forget_job-IsArmed id st h = elim (Option-cases (truthy (lookup id st.job_pico_id))) [
  | inl e ↦ rw (forget_job, e) h
  | inr (p, e) ↦ rw (forget_job, e) h
]

drop_job-IsArmed : (id : String) (st : Scheduler) → IsArmed st → IsArmed (drop_job id st)
unfolding drop_job update
drop_job-IsArmed id st h = elim (Bool-cases (is_some (lookup id st.crons))) [
  | inl e ↦ rw (drop_job, e) h
  | inr e ↦ elim (Bool-cases (is_future id st.futures)) [
    | inl f ↦ rw (drop_job, e, f) (without-IsSorted id st.futures h.0, refl)
    | inr f ↦ rw (drop_job, e, f) h
  ]
]

remove_all-IsArmed : (ids : List String) (st : Scheduler) → IsArmed st → IsArmed (remove_all ids st)
unfolding remove_all remove
remove_all-IsArmed [] st h = h
remove_all-IsArmed (id ∷ ids) st h =
    remove_all-IsArmed ids (remove id st)
      (drop_job-IsArmed id (forget_job id st) (forget_job-IsArmed id st h))

register_job-IsArmed :
    (pico : Option String) (id : String) (st : Scheduler)
    → IsArmed st
    → IsArmed (register_job pico id st)
unfolding register_job
register_job-IsArmed pico id st h = elim (Option-cases (truthy pico)) [
  | inl e ↦ rw (register_job, e) h
  | inr (p, e) ↦ rw (register_job, e) h
]

-- A call of one of the scheduler's methods.
pub data Call : Scheduler → Scheduler → Type 0 where
  registers :
      {st : Scheduler} (pico : Option String) (id : String) → Call st (register_job pico id st)
  adds_future : {st : Scheduler} (id : String) (time : ℕ) → Call st (add_future id time st)
  adds_cron : {st : Scheduler} (id timespec : String) → Call st (add_cron id timespec st)
  removes : {st : Scheduler} (id : String) → Call st (remove id st)
  cancels : {st : Scheduler} (pico_id : String) → Call st (cancel_for_pico pico_id st)

pub data Calls : Scheduler → Scheduler → Type 0 where
  none_more : {st : Scheduler} → Calls st st
  call : {st mid end : Scheduler} → Call st mid → Calls mid end → Calls st end

Call-IsArmed : (a b : Scheduler) → Call a b → IsArmed a → IsArmed b
unfolding add_future add_cron remove cancel_for_pico update
Call-IsArmed a b (registers p id) h = register_job-IsArmed p id a h
Call-IsArmed a b (adds_future id t) h = (sort_futures-IsSorted _, refl)
Call-IsArmed a b (adds_cron id s) h = h
Call-IsArmed a b (removes id) h = drop_job-IsArmed id (forget_job id a) (forget_job-IsArmed id a h)
Call-IsArmed a b (cancels p) h = remove_all-IsArmed _ a h

Calls-keep : (a b : Scheduler) → Calls a b → IsArmed a → IsArmed b
Calls-keep a b none_more h = h
Calls-keep a b (call {mid = m} c k) h = Calls-keep m b k (Call-IsArmed a m c h)

-- As long as no timer has fired, whatever jobs are added, registered, removed or cancelled, the
-- futures are sorted by time and the timer is set for the first of them.
pub Calls-IsArmed : (st : Scheduler) → Calls new_scheduler st → IsArmed st
Calls-IsArmed st c = Calls-keep new_scheduler st c (tt, refl)
