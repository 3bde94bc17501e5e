-- ===== src/Jobs/Lifecycle.antt =====
-- The transactions of jobs/stores/runs.py and jobs/stores/definitions.py in any order, as a step
-- relation on the tables.
use wotbot.Base.{
  ℕ, String, ◌≡◌, ◌⊎◌, inl, inr, refl, sym, ap, ◌∙◌, subst, Bool, true, false, Option, none, some,
  [], arith, truthy,
}
use wotbot.Json.{Json}
use wotbot.Jobs.Enums.{JobRunSource, in_progress, is_waiting, is_running}
use wotbot.Jobs.Records.{JobRow, RunRow, Db, Result, ok, get_job, get_run}
use wotbot.Jobs.Schedule.{TimeSchedule}
use wotbot.Jobs.Cancel.{cancel_active_run}
use wotbot.Jobs.Start.{try_start_job_run}
use wotbot.Jobs.Reply.{start_reply_job_run}
use wotbot.Jobs.Finish.{Outcome, finish_job_run}
use wotbot.Jobs.Stale.{mark_stale_running_runs_failed}
use wotbot.Jobs.Definitions.{
  Definition, create_job, delete_job, disable_job, set_subscription_id, set_job_resource_health,
  update_job_metadata, replace_job_definition,
}
use wotbot.Jobs.Invariant.{IsConsistent, CommitsConsistent}
use wotbot.Jobs.Invariant.Cancelling.{cancel_active_run-IsConsistent}
use wotbot.Jobs.Invariant.Starting.{try_start_job_run-IsConsistent}
use wotbot.Jobs.Invariant.Replying.{start_reply_job_run-IsConsistent}
use wotbot.Jobs.Invariant.Finishing.{finish_job_run-IsConsistent}
use wotbot.Jobs.Invariant.Sweeping.{mark_stale_running_runs_failed-IsConsistent}
use wotbot.Jobs.Invariant.Editing.{
  create_job-IsConsistent, disable_job-IsConsistent, set_subscription_id-IsConsistent,
  set_job_resource_health-IsConsistent, update_job_metadata-IsConsistent,
  replace_job_definition-IsConsistent,
}
use wotbot.Jobs.Invariant.Deleting.{delete_job-IsConsistent}

abbrev pub no_jobs : Db
no_jobs = record { threads = []; jobs = []; runs = []; events = [] }

-- The reports of run `j` of job `k`: the run is one of that job, and its outcome is not `running`.
-- The executor reports a run that was cancelled or swept as well. If such a run is left waiting
-- for the user, it was not the active one before; `Late` tells for which jobs this may happen.
abbrev pub MayFinish : (String → Type 0) → Db → String → String → Outcome → Type 0
MayFinish Late db j k o =
    (row : JobRow) × (r : RunRow) × (get_job db k ≡ some row)
    × (get_run db j ≡ some r)
    × (r.job_id ≡ k)
    × (is_running o.status ≡ false)
    × (is_waiting o.status ≡ true → Late k ⊎ (row.active_run_id ≡ some j))

-- The code outside the stores: the printing of a time, the text of a submitted record, the
-- schedule in a trigger column and the next run of a cron schedule.
pub record Outside : Type 0 where
  pub iso : ℕ → String
  pub record_message : Json → String
  pub time_schedule : Json → Option TimeSchedule
  pub cron_next : String → Option String → ℕ → Option ℕ

-- One transaction. A drawn run id is a non-empty text; a transaction that raises is no step.
pub data Step (Late : String → Type 0) (x : Outside) (db : Db) : Db → Type 0 where
  create :
      {db' : Db} {row : JobRow} (job_id name : String) (created_from_thread_id : Option String)
      (d : Definition) (next_run_at : Option ℕ) (subscription_id : Option String) (now : ℕ)
      → create_job x.iso db job_id name created_from_thread_id d next_run_at subscription_id now
        ≡ ok (row, db')
      → Step Late x db db'
  delete :
      {db' : Db} {row : JobRow} (k : String) → delete_job db k ≡ ok (row, db') → Step Late x db db'
  disable : (k : String) (now : ℕ) → Step Late x db (disable_job db k now)
  subscribe :
      (k : String) (subscription_id : Option String) (now : ℕ)
      → Step Late x db (set_subscription_id db k subscription_id now)
  report_health :
      (k resource status : String) (message : Option String) (now : ℕ)
      → Step Late x db (set_job_resource_health x.iso db k resource status message now)
  update :
      {db' : Db} {row : JobRow} (k : String) (name : Option String) (enabled : Option Bool)
      (now : ℕ)
      → update_job_metadata x.time_schedule x.cron_next db k name enabled now ≡ ok (row, db')
      → Step Late x db db'
  replace :
      {db' : Db} {row : JobRow} (k : String) (d : Definition) (next_run_at : Option ℕ)
      (subscription_id : Option String) (now : ℕ)
      → replace_job_definition db k d next_run_at subscription_id now ≡ ok (row, db')
      → Step Late x db db'
  start :
      {db' : Db} {run : RunRow} (k run_id : String) (source : JobRunSource) (payload : Json)
      (now : ℕ)
      → truthy (some run_id) ≡ true
      → try_start_job_run db k run_id source payload now ≡ ok (run, db')
      → Step Late x db db'
  reply :
      {db' : Db} {run : RunRow} (k message : String)
      (client_reply_id previous_run_id : Option String) (now : ℕ)
      → start_reply_job_run x.iso db k message client_reply_id previous_run_id now ≡ ok (run, db')
      → Step Late x db db'
  cancel :
      {db' : Db} {row : JobRow} (k : String) (now : ℕ)
      → cancel_active_run db k now ≡ ok (row, db')
      → Step Late x db db'
  finish :
      (j k : String) (o : Outcome) (now : ℕ)
      → MayFinish Late db j k o
      → Step Late x db (finish_job_run x.record_message db j k o now)
  sweep : (cutoff now : ℕ) → Step Late x db ((mark_stale_running_runs_failed db cutoff now).1)

-- The tables that transactions make of empty ones.
pub data Reachable (Late : String → Type 0) (x : Outside) : Db → Type 0 where
  initial : Reachable Late x no_jobs
  next : {db db' : Db} → Reachable Late x db → Step Late x db db' → Reachable Late x db'

no_jobs-IsConsistent : (Late : String → Type 0) → IsConsistent Late no_jobs
unfolding wotbot.Base.Dict.lookup
no_jobs-IsConsistent Late = record {
  table = tt;
  run_table = tt;
  job_id = λ k row h. cc;
  run_id = λ j r h. cc;
  tidy = λ k row h. cc;
  owner = λ j r h. cc;
  active = λ k j row h a. cc;
  single = λ j r row h p g. absurd (cc h);
}

committed {ℓ} :
    {Late : String → Type 0} {A : Type ℓ} {r : Result (A × Db)} {a : A} {db : Db}
    → CommitsConsistent Late r
    → r ≡ ok (a, db)
    → IsConsistent Late db
committed {Late} h e = subst (CommitsConsistent Late) e h

-- Every transaction of the two stores keeps the job tables consistent.
pub Step-IsConsistent :
    {Late : String → Type 0} {x : Outside} {db db' : Db}
    → IsConsistent Late db
    → Step Late x db db'
    → IsConsistent Late db'
Step-IsConsistent {Late} {x} {db} before (create i n c d t s now e) =
    committed (create_job-IsConsistent x.iso db i n c d t s now before) e
Step-IsConsistent {Late} {x} {db} before (delete k e) =
    committed (delete_job-IsConsistent db k before) e
Step-IsConsistent {Late} {x} {db} before (disable k now) = disable_job-IsConsistent db k now before
Step-IsConsistent {Late} {x} {db} before (subscribe k s now) =
    set_subscription_id-IsConsistent db k s now before
Step-IsConsistent {Late} {x} {db} before (report_health k r s m now) =
    set_job_resource_health-IsConsistent x.iso db k r s m now before
Step-IsConsistent {Late} {x} {db} before (update k n en now e) =
    committed (update_job_metadata-IsConsistent x.time_schedule x.cron_next db k n en now before) e
Step-IsConsistent {Late} {x} {db} before (replace k d t s now e) =
    committed (replace_job_definition-IsConsistent db k d t s now before) e
Step-IsConsistent {Late} {x} {db} before (start k i s p now named e) =
    committed (try_start_job_run-IsConsistent db k i s p now before named) e
Step-IsConsistent {Late} {x} {db} before (reply k m c p now e) =
    committed (start_reply_job_run-IsConsistent x.iso db k m c p now before) e
Step-IsConsistent {Late} {x} {db} before (cancel k now e) =
    committed (cancel_active_run-IsConsistent db k now before) e
Step-IsConsistent {Late} {x} {db} before (finish j k o now (row, r, found, run, own, stops, turn)) =
    finish_job_run-IsConsistent x.record_message db j k o now row r before found run own stops turn
Step-IsConsistent {Late} {x} {db} before (sweep cutoff now) =
    mark_stale_running_runs_failed-IsConsistent db cutoff now before

-- Tables that transactions of the stores have made of empty ones, in any order, are consistent: each
-- active run exists and belongs to its job, a job in progress names its run, every run has its job,
-- and each run in progress is the active one of its job, unless that job is one of `Late`, for which
-- a run may have been left waiting that was not the active one. Each run was reported for its own
-- job, with a status that is not `running`.
pub Reachable-IsConsistent :
    {Late : String → Type 0} {x : Outside} {db : Db} → Reachable Late x db → IsConsistent Late db
Reachable-IsConsistent {Late} initial = no_jobs-IsConsistent Late
Reachable-IsConsistent {Late} (next h s) = Step-IsConsistent (Reachable-IsConsistent h) s

not_late {ℓ κ} : {A : Type ℓ} {B : Type κ} → ¬ A → A ⊎ B → B
not_late never (inl a) = absurd (never a)
not_late never (inr b) = b

-- At most one run of a job is in progress at any time, whatever transactions have run, late reports
-- for other jobs included, if no run of this job was left waiting that was not its active one. Each
-- run was reported for its own job, with a status that is not `running`.
pub in_progress_unique :
    {Late : String → Type 0} {x : Outside} {db : Db} (i j : String) (r s : RunRow)
    → Reachable Late x db
    → ¬ Late r.job_id
    → get_run db i ≡ some r
    → get_run db j ≡ some s
    → r.job_id ≡ s.job_id
    → in_progress r.status ≡ true
    → in_progress s.status ≡ true
    → i ≡ j
in_progress_unique {Late} {x} {db} i j r s h timely found found' same p p' =
    let c = Reachable-IsConsistent h in
    let (row, there) = c.owner j s found' in
    let there' = subst (λ z. get_job db z ≡ some row) (sym same) there in
    let a = not_late timely (c.single i r row found p there') in
    let b =
      not_late (λ late. timely (subst Late (sym same) late)) (c.single j s row found' p' there) in
    ground (arith, a, b)
