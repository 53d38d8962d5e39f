-- ===== src/Scheduler/State.antt =====
-- pico-engine-core/src/modules/schedule.ts: class Scheduler. Handlers are known by their job's id,
-- a timer by the time that it is set for. Ids and pico ids, which `cuid` makes, are no names that
-- every object inherits.
use Prim.Native.Nat.{compare, Ordering}
use pico_engine.Base.{
  ℕ, String, Bool, true, false, ◌||◌, ◌==◌, if◌then◌else◌, List, [], ◌∷◌, ◌++◌, Option, none, some,
  truthy, lookup, insert, add_key, is_some,
}

pub record Future : Type 0 where
  pub id : String
  pub time : ℕ

-- `timer` is what the last setTimeout that is not cleared waits for, `cancelled` the crons whose
-- `cancel` was called.
pub record Scheduler : Type 0 where
  pub timer : Option ℕ
  pub futures : List Future
  pub crons : List (String × String)
  pub job_pico_id : List (String × String)
  pub jobs_by_pico_id : List (String × List String)
  pub cancelled : List String

abbrev pub new_scheduler : Scheduler
new_scheduler = record {
  timer = none;
  futures = [];
  crons = [];
  job_pico_id = [];
  jobs_by_pico_id = [];
  cancelled = [];
}

-- `delete o[k]`
unfoldable pub delete_key {ℓ} : {V : Type ℓ} → String → List (String × V) → List (String × V)
delete_key k [] = []
delete_key k ((j, v) ∷ m) = let rest = delete_key k m in if j == k then rest else (j, v) ∷ rest

unfoldable pub delete_from_set : String → List String → List String
delete_from_set k [] = []
delete_from_set k (j ∷ js) = let rest = delete_from_set k js in if j == k then rest else j ∷ rest

abbrev pub jobs_of : String → Scheduler → List String
jobs_of pico_id st = elim (lookup pico_id st.jobs_by_pico_id) [ none ↦ [] | some ids ↦ ids ]

unfoldable pub register_job : Option String → String → Scheduler → Scheduler
register_job pico id st = elim (truthy pico) [
  | none ↦ st
  | some pico_id ↦ record st {
    job_pico_id = insert id pico_id st.job_pico_id;
    jobs_by_pico_id = insert pico_id (add_key id (jobs_of pico_id st)) st.jobs_by_pico_id;
  }
]

unfoldable pub is_future : String → List Future → Bool
is_future id [] = false
is_future id (f ∷ fs) = f.id == id || is_future id fs

unfoldable pub has_job : String → Scheduler → Bool
has_job id st = is_some (lookup id st.crons) || is_future id st.futures

abbrev pub head_time : List Future → Option ℕ
head_time [] = none
head_time (f ∷ fs) = some f.time

-- Clears the timer and sets it for the next event, if there is one.
unfoldable pub update : Scheduler → Scheduler
update st = record st { timer = head_time st.futures }

-- `futures.sort((a, b) => a.time - b.time)`, which is stable.
abbrev pub is_before : ℕ → ℕ → Bool
is_before a b = elim (compare a b) [ Ordering.lt ↦ true | _ ↦ false ]

unfoldable pub insert_future : Future → List Future → List Future
insert_future f [] = f ∷ []
insert_future f (g ∷ gs) =
    let rest = insert_future f gs in if is_before g.time f.time then g ∷ rest else f ∷ g ∷ gs

unfoldable pub sort_futures : List Future → List Future
sort_futures [] = []
sort_futures (f ∷ fs) = insert_future f (sort_futures fs)

unfoldable pub add_future : String → ℕ → Scheduler → Scheduler
add_future id time st =
    update
      (record st { futures = sort_futures (st.futures ++ (record { id = id; time = time } ∷ [])) })

unfoldable pub add_cron : String → String → Scheduler → Scheduler
add_cron id timespec st = record st { crons = insert id timespec st.crons }

unfoldable pub without : String → List Future → List Future
without id [] = []
without id (f ∷ fs) = let rest = without id fs in if f.id == id then rest else f ∷ rest

-- The set of a pico's jobs once one is taken out; an empty one is deleted.
unfoldable pub store_jobs :
    String → List String → List (String × List String) → List (String × List String)
store_jobs pico_id [] m = delete_key pico_id m
store_jobs pico_id (id ∷ ids) m = insert pico_id (id ∷ ids) m

-- The first lines of `remove`.
unfoldable pub forget_job : String → Scheduler → Scheduler
unfolding store_jobs
forget_job id st = elim (truthy (lookup id st.job_pico_id)) [
  | none ↦ st
  | some pico_id ↦ record st {
    job_pico_id = delete_key id st.job_pico_id;
    jobs_by_pico_id =
        if is_some (lookup pico_id st.jobs_by_pico_id)
        then store_jobs pico_id (delete_from_set id (jobs_of pico_id st)) st.jobs_by_pico_id
        else st.jobs_by_pico_id;
  }
]

-- The cron of the id, or else the futures with it.
unfoldable pub drop_job : String → Scheduler → Scheduler
drop_job id st =
    if is_some (lookup id st.crons)
    then record st { crons = delete_key id st.crons; cancelled = id ∷ st.cancelled }
    else if is_future id st.futures
    then update (record st { futures = without id st.futures })
    else st

unfoldable pub remove : String → Scheduler → Scheduler
remove id st = drop_job id (forget_job id st)

unfoldable pub remove_all : List String → Scheduler → Scheduler
remove_all [] st = st
remove_all (id ∷ ids) st = remove_all ids (remove id st)

unfoldable pub cancel_for_pico : String → Scheduler → Scheduler
cancel_for_pico pico_id st = remove_all (jobs_of pico_id st) st

-- onTime: the ids whose handlers are called, and the futures that wait on.
unfoldable pub due : ℕ → List Future → List String
due now [] = []
due now (f ∷ fs) = let rest = due now fs in if is_before now f.time then rest else f.id ∷ rest

unfoldable pub waiting : ℕ → List Future → List Future
waiting now [] = []
waiting now (f ∷ fs) = let rest = waiting now fs in if is_before now f.time then f ∷ rest else rest

-- The timer that calls it is spent, and no other is set.
unfoldable pub on_time : ℕ → Scheduler → Scheduler
on_time now st = record st { timer = none; futures = waiting now st.futures }
