-- ===== src/Scheduler/Firing.antt =====
-- pico-engine-core/src/modules/schedule.ts: what happens when the timer fires.
use pico_engine.Base.{
  ℕ, ◌≤◌, ◌<◌, String, true, false, ◌≡◌, refl, ap, ◌∙◌, inl, inr, Bool-cases, Option-cases, List,
  [], ◌∷◌, ◌++◌, All, Option, none, truthy, lookup, is_some, arith,
}
use pico_engine.Scheduler.State.{
  Future, Scheduler, register_job, is_future, is_before, add_cron, forget_job, drop_job, remove,
  due, waiting, on_time,
}
use pico_engine.Scheduler.Timer.{IsSorted}

-- A call that adds no future and takes none out.
pub data QuietCall : Scheduler → Scheduler → Type 0 where
  registers :
      {st : Scheduler} (pico : Option String) (id : String) → QuietCall st (register_job pico id st)
  adds_cron : {st : Scheduler} (id timespec : String) → QuietCall st (add_cron id timespec st)
  removes :
      {st : Scheduler} (id : String) → is_future id st.futures ≡ false → QuietCall st (remove id st)

pub data QuietCalls : Scheduler → Scheduler → Type 0 where
  none_more : {st : Scheduler} → QuietCalls st st
  call : {st mid end : Scheduler} → QuietCall st mid → QuietCalls mid end → QuietCalls st end

-- The timer and the futures of two states are the same.
abbrev Same : Scheduler → Scheduler → Type 0
Same a b = (b.timer ≡ a.timer) × (b.futures ≡ a.futures)

Same-register :
    (pico : Option String) (id : String) (st : Scheduler) → Same st (register_job pico id st)
unfolding register_job
Same-register pico id st = elim (Option-cases (truthy pico)) [
  | inl e ↦ rw (register_job, e) (refl, refl)
  | inr (p, e) ↦ rw (register_job, e) (refl, refl)
]

Same-forget : (id : String) (st : Scheduler) → Same st (forget_job id st)
unfolding forget_job
Same-forget id st = elim (Option-cases (truthy (lookup id st.job_pico_id))) [
  | inl e ↦ rw (forget_job, e) (refl, refl)
  | inr (p, e) ↦ rw (forget_job, e) (refl, refl)
]

Same-drop :
    (id : String) (st : Scheduler) → is_future id st.futures ≡ false → Same st (drop_job id st)
unfolding drop_job
Same-drop id st h = elim (Bool-cases (is_some (lookup id st.crons))) [
  | inl e ↦ rw (drop_job, e) (refl, refl)
  | inr e ↦ rw (drop_job, e, h) (refl, refl)
]

Same-quiet : (a b : Scheduler) → QuietCall a b → Same a b
unfolding add_cron remove
Same-quiet a b (registers p id) = Same-register p id a
Same-quiet a b (adds_cron id s) = (refl, refl)
Same-quiet a b (removes id h) =
    let (t, f) = Same-forget id a in
    let (u, g) = Same-drop id (forget_job id a) (ap (is_future id) f ∙ h) in (u ∙ t, g ∙ f)

Same-quiets : (a b : Scheduler) → QuietCalls a b → Same a b
Same-quiets a b none_more = (refl, refl)
Same-quiets a b (call {mid = m} c k) =
    let (t, f) = Same-quiet a m c in let (u, g) = Same-quiets m b k in (u ∙ t, g ∙ f)

-- Once the timer has fired, no timer is set for the futures that wait on, and none is set until a
-- future is added or one of them removed: they stay as they are, however late it gets.
pub on_time-Stalls :
    (now : ℕ) (st later : Scheduler)
    → QuietCalls (on_time now st) later
    → (later.timer ≡ none) × (later.futures ≡ waiting now st.futures)
unfolding on_time
on_time-Stalls now st later q = Same-quiets (on_time now st) later q

abbrev ids : List Future → List String
ids [] = []
ids (f ∷ fs) = f.id ∷ ids fs

-- What fires at a time: futures that are due, the earliest first; none that waits on is due.
pub record IsFired (now : ℕ) (st : Scheduler) : Type 0 where
  pub fired : List Future
  pub split : st.futures ≡ fired ++ waiting now st.futures
  pub called : due now st.futures ≡ ids fired
  pub were_due : All (λ f. f.time ≤ now) fired
  pub not_due : All (λ f. now < f.time) (waiting now st.futures)

waiting-later :
    (now : ℕ) (fs : List Future)
    → All (λ f. now < f.time) fs
    → (waiting now fs ≡ fs) × (due now fs ≡ [])
unfolding waiting due
waiting-later now [] h = (refl, refl)
waiting-later now (f ∷ fs) (l, h) =
    let (w, d) = waiting-later now fs h in rw (before now f.time l) (ap (λ r. f ∷ r) w, d)
  where
    before : (a b : ℕ) → a < b → is_before a b ≡ true
    before a b k = ground (arith, k)

All-after :
    (now t : ℕ) (fs : List Future) → now < t → All (λ g. t ≤ g.time) fs → All (λ g. now < g.time) fs
All-after now t [] l h = tt
All-after now t (f ∷ fs) l (a, h) = (omega arith, All-after now t fs l h)

split_at :
    (now : ℕ) (fs : List Future)
    → IsSorted fs
    → (fired : List Future) × (fs ≡ fired ++ waiting now fs)
      × (due now fs ≡ ids fired)
      × All (λ f. f.time ≤ now) fired
      × All (λ f. now < f.time) (waiting now fs)
unfolding waiting due
split_at now [] h = ([], refl, refl, tt, tt)
split_at now (f ∷ fs) (a, h) = elim (Bool-cases (is_before now f.time)) [
  | inl e ↦
      let l : now < f.time = ground (arith, e) in
      let later = All-after now f.time fs l a in
      let (w, d) = waiting-later now fs later in rw (e, w, d) ([], refl, refl, tt, (l, later))
  | inr e ↦
      let l : f.time ≤ now = ground (arith, e) in
      let (fired, s, c, p, q) = split_at now fs h in
      rw e (f ∷ fired, ap (λ r. f ∷ r) s, ap (λ r. f.id ∷ r) c, (l, p), q)
]

-- When the timer fires, the handlers of the futures that are due are called, the earliest first, and
-- no others; the futures that wait on are later than now.
pub on_time-IsFired : (now : ℕ) (st : Scheduler) → IsSorted st.futures → IsFired now st
on_time-IsFired now st h =
    let (fired, s, c, p, q) = split_at now st.futures h in
    record { fired = fired; split = s; called = c; were_due = p; not_due = q }
