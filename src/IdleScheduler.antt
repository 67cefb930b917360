-- ===== src/IdleScheduler.antt =====
-- `IdleReflectionScheduler` of src/reflection/idle-scheduler.ts. Times are milliseconds; a job is
-- known by its id, and `run` of it ends when `end_job` is called.
pub mod Starting
use cursor_claw.Base.{
  ℕ, suc, ◌+◌, ◌-◌, Bool, true, false, not, List, [], ◌∷◌, ◌++◌, String, ltb, leb, if◌then◌else◌,
  ◌==◌, string_eq, mem, length,
}

pub record Options : Type 0 where
  pub idle_after_ms : ℕ
  pub max_concurrent_jobs : ℕ

pub record Scheduler : Type 0 where
  pub last_activity_ms : ℕ
  pub has_timer : Bool
  pub running_jobs : ℕ
  pub queue : List String

unfoldable pub start : Scheduler → Scheduler
start s = record s { has_timer = true }

unfoldable pub stop : Scheduler → Scheduler
stop s = record s { has_timer = false }

unfoldable pub note_activity : (now : ℕ) → Scheduler → Scheduler
note_activity now s = record s { last_activity_ms = now; queue = [] }

unfoldable pub enqueue : (id : String) → Scheduler → Scheduler
enqueue id s = record s { queue = s.queue ++ id ∷ [] }

unfoldable pub has_job : (id : String) → Scheduler → Bool
has_job id s = mem id s.queue

-- Whether the scheduler is idle: the source compares `now - lastActivityMs`.
unfoldable pub is_idle : Options → (now : ℕ) → Scheduler → Bool
is_idle o now s = leb (s.last_activity_ms + o.idle_after_ms) now

-- The loop of `tick`, over the queue: the scheduler and the jobs that it starts, in order.
unfoldable pub start_jobs :
    (max_concurrent_jobs : ℕ) → (queue : List String) → Scheduler → Scheduler × List String
start_jobs n [] s = (record s { queue = [] }, [])
start_jobs n (id ∷ queue) s =
    let more = start_jobs n queue (record s { running_jobs = suc s.running_jobs }) in
    if ltb s.running_jobs n then (more.0, id ∷ more.1) else (record s { queue = id ∷ queue }, [])

unfoldable pub tick : Options → (now : ℕ) → Scheduler → Scheduler × List String
unfolding start_jobs is_idle
tick o now s = if is_idle o now s then start_jobs o.max_concurrent_jobs s.queue s else (s, [])

-- The promise of a job settles.
unfoldable pub end_job : Scheduler → Scheduler
end_job s = record s { running_jobs = s.running_jobs - 1 }
