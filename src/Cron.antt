-- ===== src/Cron.antt =====
-- `CronService` of src/scheduler.ts. A tick awaits the job that it runs, and another tick may start
-- meanwhile; so the loop's body is two operations, `begin` up to the await and `finish` after it.
-- The runs that are awaited are the `in_flight` field. The cron-parser package is an argument.
pub mod Duration
pub mod Running
pub mod Reload
use cursor_claw.Base.{
  ℕ, ◌+◌, ◌-◌, ◌*◌, ◌^◌, ◌≡◌, Bool, true, false, not, ◌&&◌, Option, none, some, List, [], ◌∷◌, ◌++◌,
  map, String, ltb, leb, if◌then◌else◌, ◌==◌, string_eq, keep,
}
use cursor_claw.Base.Dict.{get, set, values}
use Duration.{parse_duration_to_ms, parse_int}

pub data JobType : Type 0 where
  at every cron : JobType

pub record Job : Type 0 where
  pub id : String
  pub type : JobType
  pub expression : List ℕ
  pub max_retries : ℕ
  pub backoff_ms : ℕ
  pub next_run_at : Option ℕ

-- `CronStateRecord`; of the last error only its presence is kept.
pub record Record : Type 0 where
  pub def : Job
  pub retries : ℕ
  pub last_error : Bool
  pub running : Bool

pub record Service : Type 0 where
  pub jobs : List (String × Record)
  pub active_runs : ℕ
  pub max_concurrent_runs : ℕ
  pub in_flight : List String

-- The next time of a cron expression after an instant; `none` is a throw.
abbrev pub CronParser : Type 0
CronParser = List ℕ → ℕ → Option ℕ

pub data Next : Type 0 where
  throws : Next
  next : Option ℕ → Next

abbrev pub next_or_throw : Option ℕ → Next
next_or_throw none = throws
next_or_throw (some n) = next (some n)

abbrev pub later_than : ℕ → Option ℕ → Option ℕ
later_than from none = none
later_than from (some n) = if ltb from n then some n else none

abbrev pub plus : ℕ → Option ℕ → Option ℕ
plus from none = none
plus from (some n) = some (from + n)

pub compute_next : CronParser → JobType → List ℕ → (from : ℕ) → Next
compute_next parser at expression from = next (later_than from (parse_int expression))
compute_next parser every expression from =
    next_or_throw (plus from (parse_duration_to_ms expression))
compute_next parser cron expression from = next_or_throw (parser expression from)

abbrev pub next_of : CronParser → Job → ℕ → Next
next_of parser job from = compute_next parser job.type job.expression from

abbrev pub set_next : Option ℕ → Record → Record
set_next n r = record r { def = record r.def { next_run_at = n } }

pub data Due : Type 0 where
  due_throws : Due
  due : Record → Bool → Due

abbrev pub due_at : ℕ → Record → Next → Due
due_at now r throws = due_throws
due_at now r (next none) = due r false
due_at now r (next (some n)) = due (set_next (some n) r) (leb n now)

abbrev pub due_stored : CronParser → ℕ → Record → Option ℕ → Due
due_stored parser now r (some n) = due r (leb n now)
due_stored parser now r none = due_at now r (next_of parser r.def (now - 1))

-- `isDue`, which stores a time that was missing.
pub is_due : CronParser → ℕ → Record → Due
unfolding compute_next
is_due parser now r = due_stored parser now r r.def.next_run_at

pub data Began : Type 0 where
  stopped skipped threw started : Began

abbrev pub start_run : String → Record → Service → Service
start_run id r s = record s {
  jobs = set id (record r { running = true }) s.jobs;
  active_runs = s.active_runs + 1;
  in_flight = id ∷ s.in_flight;
}

pub begin_due : String → Due → Service → Service × Began
begin_due id due_throws s = (s, threw)
begin_due id (due r false) s = (record s { jobs = set id r s.jobs }, skipped)
begin_due id (due r true) s = (start_run id r s, started)

pub begin_record : CronParser → String → ℕ → Option Record → Service → Service × Began
unfolding begin_due is_due
begin_record parser id now none s = (s, skipped)
begin_record parser id now (some r) s =
    if r.running then (s, skipped) else begin_due id (is_due parser now r) s

-- The loop's body for one job up to `await runJob`.
unfoldable pub begin : CronParser → String → ℕ → Service → Service × Began
unfolding begin_record
begin parser id now s =
    if leb s.max_concurrent_runs s.active_runs
    then (s, stopped)
    else begin_record parser id now (get id s.jobs) s

abbrev after_limit : Next → Record → Record
after_limit throws r = r
after_limit (next n) r = record (set_next n r) { retries = 0 }

-- The `catch` block. A throw in it leaves the record as it is by then.
pub on_failure : CronParser → ℕ → Record → Record
on_failure parser now r =
    let r' = record r { retries = r.retries + 1; last_error = true } in
    if ltb r.def.max_retries r'.retries
    then after_limit (next_of parser r.def now) r'
    else set_next (some (now + r.def.backoff_ms * 2 ^ (r'.retries - 1))) r'

pub on_success_next : CronParser → ℕ → Next → Record → Record
unfolding on_failure
on_success_next parser now throws r = on_failure parser now r
on_success_next parser now (next n) r = set_next n r

-- The `try` block after the await. A throw of `computeNextRun` is caught too.
pub on_success : CronParser → ℕ → Record → Record
unfolding on_success_next compute_next
on_success parser now r =
    let r' = record r { retries = 0; last_error = false } in
    on_success_next parser now (next_of parser r.def now) r'

abbrev pub finished : CronParser → ℕ → Bool → Record → Record
finished parser now true r = record (on_success parser now r) { running = false }
finished parser now false r = record (on_failure parser now r) { running = false }

pub finish_record : CronParser → String → ℕ → Bool → Option Record → Service → Service
unfolding on_success on_failure
finish_record parser id now success none s = record s {
  active_runs = s.active_runs - 1;
  in_flight = keep (λ k. not (id == k)) s.in_flight;
}
finish_record parser id now success (some r) s = record s {
  jobs = set id (finished parser now success r) s.jobs;
  active_runs = s.active_runs - 1;
  in_flight = keep (λ k. not (id == k)) s.in_flight;
}

-- What follows the await, the `finally` block included.
unfoldable pub finish : CronParser → String → ℕ → Bool → Service → Service
unfolding finish_record
finish parser id now success s = finish_record parser id now success (get id s.jobs) s

abbrev next_or_none : Next → Option ℕ
next_or_none throws = none
next_or_none (next n) = n

-- `addJob`, where the expression does not make it throw.
unfoldable pub add_job : CronParser → (now : ℕ) → Job → Service → Service
unfolding compute_next
add_job parser now job s =
    let full = record job { next_run_at = next_or_none (next_of parser job now) } in
    record s {
      jobs =
          set job.id (record { def = full; retries = 0; last_error = false; running = false })
            s.jobs;
    }

-- `persistState` and `loadState`: the file holds the records as they are.
unfoldable pub persist_state : Service → List Record
persist_state s = values s.jobs

unfoldable pub load_records : List Record → List (String × Record) → List (String × Record)
load_records [] m = m
load_records (r ∷ rs) m = load_records rs (set r.def.id r m)

-- A new process that loads the file.
unfoldable pub load_state : (max_concurrent_runs : ℕ) → List Record → Service
unfolding load_records
load_state max_runs file = record {
  jobs = load_records file [];
  active_runs = 0;
  max_concurrent_runs = max_runs;
  in_flight = [];
}
