-- ===== src/Examples/Timers.antt =====
-- The limiter, the budget, the heartbeat and the cron jobs at concrete inputs.
use cursor_claw.Base.{
  ℕ, ◌≤◌, ◌≡◌, refl, inr, true, false, none, some, [], ◌∷◌, arith, length, mem, string_eq,
}
use cursor_claw.Base.Dict.{get, set, values}
use cursor_claw.Window.{window}
use cursor_claw.RateLimit.{Options, key_of}
use cursor_claw.RateLimit.Bound.{Call, accepted, length-accepted-le}
use cursor_claw.Budget.{Config, hour_ms, day_ms}
use cursor_claw.Budget.Bound.{fresh, length-accepted_bounds, allow-eq-true_iff}
use cursor_claw.Budget.Bound as Allowed
use cursor_claw.Heartbeat as Heart
use cursor_claw.Heartbeat.{next_interval, run_once}
use cursor_claw.Cron.{
  CronParser, Record, Service, every, load_records, load_state, persist_state, begin,
}
use cursor_claw.Cron.Running.{here, then_step, begins, Inv, Reach-load_state-Inv}
use cursor_claw.Cron.Reload.{stuck_after_reload}

abbrev limits : Options
limits = record { default_limit = 2; window_ms = 1000; method_limits = [] }

abbrev call_at : ℕ → Call
call_at now = record { method = "run"; subject = "a"; now = now }

length-accepted-le_example :
    length (
      window 1000 30
        (accepted limits (key_of "run" "a") [] (call_at 10 ∷ call_at 20 ∷ call_at 30 ∷ [])))
    ≤ 2
unfolding get
length-accepted-le_example =
    length-accepted-le limits 2 (key_of "run" "a") (call_at 10 ∷ call_at 20 ∷ call_at 30 ∷ []) 30
      (omega arith, (omega arith, (omega arith, tt))) (inr refl, (inr refl, (inr refl, tt)))
      (omega arith)

abbrev night : Config
night = record {
  max_per_hour = 1;
  max_per_day = 3;
  quiet_hours = some (record { start_hour = 22; end_hour = 6 });
}

length-accepted_bounds_example :
    (length (
        window hour_ms 30000000
          (Allowed.accepted night "chat" fresh (("chat", 28800000) ∷ ("chat", 28800001) ∷ [])))
      ≤ 1)
    × (length (
          window day_ms 30000000
            (Allowed.accepted night "chat" fresh (("chat", 28800000) ∷ ("chat", 28800001) ∷ [])))
        ≤ 3)
length-accepted_bounds_example =
    length-accepted_bounds night "chat" (("chat", 28800000) ∷ ("chat", 28800001) ∷ []) 30000000
      (omega arith, (omega arith, tt)) (omega arith)

abbrev beat : Heart.Config
beat = record { enabled = true; min_ms = 1000; max_ms = 60000; active_hours = none }

abbrev no_cron : CronParser
no_cron expression from = none

abbrev stopped_job : Record
stopped_job = record {
  def = record {
    id = "j";
    type = every;
    expression = b'1' ∷ b's' ∷ [];
    max_retries = 2;
    backoff_ms = 100;
    next_run_at = some 50;
  };
  retries = 0;
  last_error = false;
  running = false;
}

abbrev marked_job : Record
marked_job = record stopped_job { running = true }

-- The tick that starts the job.
abbrev started_service : Service
started_service = (begin no_cron "j" 60 (load_state 2 (stopped_job ∷ []))).0

Reach-load_state-Inv_example : Inv started_service
Reach-load_state-Inv_example =
    Reach-load_state-Inv no_cron 2 (stopped_job ∷ []) {t = started_service}
      (then_step here (begins "j" 60))

abbrev old_service : Service
old_service = record {
  jobs = ("j", marked_job) ∷ [];
  active_runs = 1;
  max_concurrent_runs = 2;
  in_flight = "j" ∷ [];
}

abbrev ticked : Service
ticked = (begin no_cron "j" 900 (load_state 2 (persist_state old_service))).0

stuck_after_reload_example :
    (get "j" ticked.jobs ≡ some marked_job) × (mem "j" ticked.in_flight ≡ false)
unfolding load_state load_records persist_state get set values
stuck_after_reload_example =
    stuck_after_reload no_cron "j" marked_job 2 old_service {t = ticked} refl refl
      (then_step here (begins "j" 900))
