-- ===== src/Cron/Reload.antt =====
-- What a restart makes of a job that was running when the state file was written.
use cursor_claw.Base.{
  ℕ, ◌≡◌, ◌≢◌, refl, ◌∙◌, ap, Bool, true, false, Option, none, some, String, arith, string_eq, mem,
  mem-keep_ne,
}
use cursor_claw.Base.Dict.{get, get-set_ne}
use cursor_claw.Cron.{
  CronParser, Record, Service, begin, finish, finish_record, finished, add_job, load_state,
  persist_state,
}
use cursor_claw.Cron.Running.{
  Step, begins, finishes, adds, Reach, here, then_step, is_running, begin_cases,
}

-- The record says that the job runs, and no run of it is under way.
record IsStuck (id : String) (r : Record) (s : Service) : Type 0 where
  stored : get id s.jobs ≡ some r
  idle : mem id s.in_flight ≡ false

module _ (parser : CronParser) (id : String) (r : Record) (marked : r.running ≡ true) where
  -- An idle job is another job.
  other_of_idle : (k : String) (s : Service) → IsStuck id r s → is_running k s ≡ false → k ≢ id
  other_of_idle k s v free same = cc (v.stored, marked, free, same)

  begin-IsStuck :
      (k : String) (now : ℕ) (s : Service) → IsStuck id r s → IsStuck id r (begin parser k now s).0
  begin-IsStuck k now s v =
      begin_cases parser (IsStuck id r) k s v
        (λ q quiet free. record {
          stored = get-set_ne k id q s.jobs (other_of_idle k s v free) ∙ v.stored;
          idle = v.idle;
        })
        (λ q free room. record {
          stored =
              get-set_ne k id (record q { running = true }) s.jobs (other_of_idle k s v free)
              ∙ v.stored;
          idle = ground (arith, v.idle, string_eq.is_same_iff k id, other_of_idle k s v free);
        })
        now

  finish_record-IsStuck :
      (k : String) (now : ℕ) (success : Bool) (o : Option Record) (s : Service)
      → IsStuck id r s
      → mem k s.in_flight ≡ true
      → IsStuck id r (finish_record parser k now success o s)
  unfolding finish_record
  finish_record-IsStuck k now success none s v m = record {
    stored = v.stored;
    idle = ground (arith, mem-keep_ne k id s.in_flight, v.idle);
  }
  finish_record-IsStuck k now success (some q) s v m = record {
    stored =
        get-set_ne k id (finished parser now success q) s.jobs
          (λ same. cc (v.idle, m, ap (λ j. mem j s.in_flight) same))
        ∙ v.stored;
    idle = ground (arith, mem-keep_ne k id s.in_flight, v.idle);
  }

  Step-IsStuck : {s t : Service} → Step parser s t → IsStuck id r s → IsStuck id r t
  unfolding finish add_job
  Step-IsStuck {s} (begins k now) v = begin-IsStuck k now s v
  Step-IsStuck {s} (finishes k now success m) v =
      finish_record-IsStuck k now success (get k s.jobs) s v m
  Step-IsStuck {s} (adds now job fresh) v = record {
    stored =
        get-set_ne job.id id _ s.jobs (λ same. cc (v.stored, fresh, ap (λ j. get j s.jobs) same))
        ∙ v.stored;
    idle = v.idle;
  }

  Reach-IsStuck : {s t : Service} → IsStuck id r s → Reach parser s t → IsStuck id r t
  Reach-IsStuck v here = v
  Reach-IsStuck v (then_step w st) = Step-IsStuck st (Reach-IsStuck v w)

-- A record that says `running` when the state file is written says so for ever after a restart: in
-- the new process no tick ever starts the job, and its record never changes.
pub stuck_after_reload :
    (parser : CronParser) (id : String) (r : Record) (max_runs : ℕ) (old : Service) {t : Service}
    → r.running ≡ true
    → get id (load_state max_runs (persist_state old)).jobs ≡ some r
    → Reach parser (load_state max_runs (persist_state old)) t
    → (get id t.jobs ≡ some r) × (mem id t.in_flight ≡ false)
unfolding load_state
stuck_after_reload parser id r max_runs old marked there w =
    let v = Reach-IsStuck parser id r marked (record { stored = there; idle = refl }) w in
    (v.stored, v.idle)
