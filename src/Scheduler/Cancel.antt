-- ===== src/Scheduler/Cancel.antt =====
-- pico-engine-core/src/modules/schedule.ts: which jobs are left when some are removed.
use pico_engine.Base.{
  String, false, not, ◌&&◌, ◌==◌, eq_iff, ◌≡◌, refl, ap, ◌∙◌, inl, inr, Bool-cases, Option-cases,
  List, [], ◌∷◌, truthy, lookup, is_some, arith, has,
}
use pico_engine.Scheduler.State.{
  Future, Scheduler, delete_key, is_future, has_job, without, forget_job, drop_job, remove,
  remove_all, jobs_of, cancel_for_pico, update,
}

-- No id is that of a cron and of a future.
abbrev pub IsDisjoint : Scheduler → Type 0
IsDisjoint st = (id : String) → (is_some (lookup id st.crons) && is_future id st.futures) ≡ false

lookup-delete_key :
    (k id : String) (m : List (String × String))
    → is_some (lookup id (delete_key k m)) ≡ (is_some (lookup id m) && not (k == id))
unfolding lookup delete_key
lookup-delete_key k id [] = refl
lookup-delete_key k id ((j, v) ∷ m) =
    ground (arith, lookup-delete_key k id m, eq_iff j k, eq_iff j id, eq_iff k id)

is_future-without :
    (k id : String) (fs : List Future)
    → is_future id (without k fs) ≡ (is_future id fs && not (k == id))
unfolding is_future without
is_future-without k id [] = refl
is_future-without k id (f ∷ fs) =
    ground (arith, is_future-without k id fs, eq_iff f.id k, eq_iff f.id id, eq_iff k id)

-- What has_job reads of a state.
abbrev crons_of : Scheduler → List (String × String)
crons_of st = st.crons

kept :
    (id : String) (st : Scheduler)
    → ((forget_job id st).crons ≡ st.crons) × ((forget_job id st).futures ≡ st.futures)
unfolding forget_job
kept id st = elim (Option-cases (truthy (lookup id st.job_pico_id))) [
  | inl e ↦ rw (forget_job, e) (refl, refl)
  | inr (p, e) ↦ rw (forget_job, e) (refl, refl)
]

-- The crons and the futures that are left when the job is dropped.
drop_job-keeps :
    (k id : String) (st : Scheduler)
    → IsDisjoint st
    → (is_some (lookup id (drop_job k st).crons) ≡ (is_some (lookup id st.crons) && not (k == id)))
      × (is_future id (drop_job k st).futures ≡ (is_future id st.futures && not (k == id)))
unfolding drop_job update
drop_job-keeps k id st h = elim (Bool-cases (is_some (lookup k st.crons))) [
  | inl e ↦ rw (drop_job, e) (lookup-delete_key k id st.crons, ground (arith, e, h k, eq_iff k id))
  | inr e ↦ elim (Bool-cases (is_future k st.futures)) [
    | inl f ↦
        rw (drop_job, e, f) (ground (arith, e, eq_iff k id), is_future-without k id st.futures)
    | inr f ↦ rw (drop_job, e, f) (ground (arith, e, eq_iff k id), ground (arith, f, eq_iff k id))
  ]
]

remove-keeps :
    (k id : String) (st : Scheduler)
    → IsDisjoint st
    → (is_some (lookup id (remove k st).crons) ≡ (is_some (lookup id st.crons) && not (k == id)))
      × (is_future id (remove k st).futures ≡ (is_future id st.futures && not (k == id)))
unfolding remove
remove-keeps k id st h =
    let (c, f) = kept k st in
    let same : IsDisjoint (forget_job k st) = λ j.
      ap (λ m. is_some (lookup j m) && is_future j (forget_job k st).futures) c
      ∙ ap (λ fs. is_some (lookup j st.crons) && is_future j fs) f
      ∙ h j in
    let (a, b) = drop_job-keeps k id (forget_job k st) same in
    (
      a ∙ ap (λ m. is_some (lookup id m) && not (k == id)) c,
      b ∙ ap (λ fs. is_future id fs && not (k == id)) f,
    )

pub IsDisjoint-remove : (k : String) (st : Scheduler) → IsDisjoint st → IsDisjoint (remove k st)
IsDisjoint-remove k st h id = let (a, b) = remove-keeps k id st h in ground (arith, a, b, h id)

pub has_job-remove :
    (k id : String) (st : Scheduler)
    → IsDisjoint st
    → has_job id (remove k st) ≡ (has_job id st && not (k == id))
unfolding has_job
has_job-remove k id st h = let (a, b) = remove-keeps k id st h in ground (arith, a, b)

-- Exactly the given jobs are gone.
pub has_job-remove_all :
    (ids : List String) (id : String) (st : Scheduler)
    → IsDisjoint st
    → has_job id (remove_all ids st) ≡ (has_job id st && not (has id ids))
unfolding remove_all has
has_job-remove_all [] id st h = ground arith
has_job-remove_all (k ∷ ks) id st h = ground (
  arith,
  has_job-remove_all ks id (remove k st) (IsDisjoint-remove k st h),
  has_job-remove k id st h,
)

-- Where no id is that of a cron and of a future: once the jobs of a deleted pico are cancelled, none
-- of the pico's jobs is left, and every other job is.
pub cancel_for_pico-clears :
    (pico_id id : String) (st : Scheduler)
    → IsDisjoint st
    → has_job id (cancel_for_pico pico_id st) ≡ (has_job id st && not (has id (jobs_of pico_id st)))
unfolding cancel_for_pico
cancel_for_pico-clears pico_id id st h = has_job-remove_all (jobs_of pico_id st) id st h
