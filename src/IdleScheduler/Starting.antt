-- ===== src/IdleScheduler/Starting.antt =====
-- Which jobs src/reflection/idle-scheduler.ts starts, and how many are under way.
use cursor_claw.Base.{
  ℕ, suc, ◌+◌, ◌≤◌, ◌≡◌, refl, ap, true, List, [], ◌∷◌, ◌++◌, String, arith, ltb, if◌then◌else◌,
  ◌==◌, string_eq, inl, inr, Bool-cases, mem, length, length-append,
}
use cursor_claw.IdleScheduler.{
  Options, Scheduler, start, stop, note_activity, enqueue, is_idle, start_jobs, tick, end_job,
}

-- `settles id`: the promise of a job with this id that is under way settles.
pub data Event : Type 0 where
  starts stops : Event
  settles : (id : String) → Event
  activity : (now : ℕ) → Event
  queues : (id : String) → Event
  ticks : (now : ℕ) → Event

-- The scheduler and the jobs that were started and have not settled.
pub record World : Type 0 where
  pub scheduler : Scheduler
  pub under_way : List String

abbrev pub remove_one : String → List String → List String
remove_one id [] = []
remove_one id (j ∷ js) = let rest = remove_one id js in if j == id then js else j ∷ rest

-- What is left after an event, and the jobs that were started.
pub step : Options → Event → World → World × List String
unfolding start stop note_activity enqueue tick end_job
step o starts w = (record w { scheduler = start w.scheduler }, [])
step o stops w = (record w { scheduler = stop w.scheduler }, [])
step o (settles id) w =
    if mem id w.under_way
    then (record { scheduler = end_job w.scheduler; under_way = remove_one id w.under_way }, [])
    else (w, [])
step o (activity now) w = (record w { scheduler = note_activity now w.scheduler }, [])
step o (queues id) w = (record w { scheduler = enqueue id w.scheduler }, [])
step o (ticks now) w =
    let (s, ids) = tick o now w.scheduler in
    (record { scheduler = s; under_way = w.under_way ++ ids }, ids)

pub run : Options → List Event → World → World × List String
unfolding step
run o [] w = (w, [])
run o (e ∷ es) w =
    let (w', ids) = step o e w in let (w'', later) = run o es w' in (w'', ids ++ later)

start_jobs_lem :
    (n : ℕ) (q : List String) (s : Scheduler)
    → (start_jobs n q s).1 ++ (start_jobs n q s).0.queue ≡ q
unfolding start_jobs
start_jobs_lem n [] s = refl
start_jobs_lem n (id ∷ q) s = elim (Bool-cases (ltb s.running_jobs n)) [
  | inl room ↦
      rw room
        (ap (λ xs. id ∷ xs) (start_jobs_lem n q (record s { running_jobs = suc s.running_jobs })))
  | inr full ↦ rw full
]

-- The counter goes up by the jobs that start, to the maximum at most.
running-start_jobs :
    (n : ℕ) (q : List String) (s : Scheduler)
    → s.running_jobs ≤ n
    → ((start_jobs n q s).0.running_jobs ≡ length (start_jobs n q s).1 + s.running_jobs)
      × ((start_jobs n q s).0.running_jobs ≤ n)
unfolding start_jobs
running-start_jobs n [] s h = (omega arith, h)
running-start_jobs n (id ∷ q) s h = elim (Bool-cases (ltb s.running_jobs n)) [
  | inl room ↦
      let (e, le) =
        running-start_jobs n q (record s { running_jobs = suc s.running_jobs })
          (ground (arith, room)) in
      rw room (omega (arith, e), le)
  | inr full ↦ rw full (omega arith, h)
]

abbrev pub count : String → List String → ℕ
count k [] = 0
count k (x ∷ xs) = (if x == k then 1 else 0) + count k xs

count-append : (k : String) (xs ys : List String) → count k (xs ++ ys) ≡ count k xs + count k ys
count-append k [] ys = omega arith
count-append k (x ∷ xs) ys = omega (arith, count-append k xs ys)

-- How often the events queue a job.
abbrev pub times_queued : String → List Event → ℕ
times_queued k [] = 0
times_queued k (queues id ∷ es) = (if id == k then 1 else 0) + times_queued k es
times_queued k (starts ∷ es) = times_queued k es
times_queued k (stops ∷ es) = times_queued k es
times_queued k (settles id ∷ es) = times_queued k es
times_queued k (activity now ∷ es) = times_queued k es
times_queued k (ticks now ∷ es) = times_queued k es

-- The counter is the number of the jobs under way, which is the maximum at most.
abbrev pub Inv : Options → World → Type 0
Inv o w =
    (w.scheduler.running_jobs ≡ length w.under_way) × (length w.under_way ≤ o.max_concurrent_jobs)

length-remove_one :
    (id : String) (js : List String)
    → mem id js ≡ true
    → suc (length (remove_one id js)) ≡ length js
length-remove_one id [] h = cc
length-remove_one id (j ∷ js) h = elim (Bool-cases (j == id)) [
  | inl e ↦ rw e refl
  | inr e ↦ rw e (ap suc (length-remove_one id js (rw e at h)))
]

settles-Inv : (o : Options) (id : String) (w : World) → Inv o w → Inv o (step o (settles id) w).0
unfolding step end_job
settles-Inv o id w h = elim (Bool-cases (mem id w.under_way)) [
  | inl e ↦
      let fewer = length-remove_one id w.under_way e in
      rw e (omega (arith, fewer, h.0), omega (arith, fewer, h.1))
  | inr e ↦ rw e h
]

tick-Inv : (o : Options) (now : ℕ) (w : World) → Inv o w → Inv o (step o (ticks now) w).0
unfolding step tick
tick-Inv o now w h = elim (Bool-cases (is_idle o now w.scheduler)) [
  | inl idle ↦
      let r = start_jobs o.max_concurrent_jobs w.scheduler.queue w.scheduler in
      let (e, le) =
        running-start_jobs o.max_concurrent_jobs w.scheduler.queue w.scheduler
          (omega (arith, h.0, h.1)) in
      let l = length-append w.under_way r.1 in
      rw idle (omega (arith, e, l, h.0), omega (arith, e, l, h.0, le))
  | inr busy ↦
      let l = length-append w.under_way [] in rw busy (omega (arith, l, h.0), omega (arith, l, h.1))
]

step-Inv : (o : Options) (e : Event) (w : World) → Inv o w → Inv o (step o e w).0
unfolding step start stop note_activity enqueue
step-Inv o starts w h = h
step-Inv o stops w h = h
step-Inv o (settles id) w h = settles-Inv o id w h
step-Inv o (activity now) w h = h
step-Inv o (queues id) w h = h
step-Inv o (ticks now) w h = tick-Inv o now w h

run-Inv : (o : Options) (es : List Event) (w : World) → Inv o w → Inv o (run o es w).0
unfolding run
run-Inv o [] w h = h
run-Inv o (e ∷ es) w h = run-Inv o es (step o e w).0 (step-Inv o e w h)

count-tick :
    (o : Options) (now : ℕ) (k : String) (s : Scheduler)
    → count k (tick o now s).1 + count k (tick o now s).0.queue ≡ count k s.queue
unfolding tick
count-tick o now k s = elim (Bool-cases (is_idle o now s)) [
  | inl idle ↦
      let r = start_jobs o.max_concurrent_jobs s.queue s in
      rw idle (
        omega (
          arith,
          count-append k r.1 r.0.queue,
          ap (count k) (start_jobs_lem o.max_concurrent_jobs s.queue s),
        ))
  | inr busy ↦ rw busy (omega arith)
]

count-settles :
    (o : Options) (id k : String) (w : World)
    → (count k (step o (settles id) w).1 ≡ 0)
      × ((step o (settles id) w).0.scheduler.queue ≡ w.scheduler.queue)
unfolding step end_job
count-settles o id k w = elim (Bool-cases (mem id w.under_way)) [
  | inl e ↦ rw e (refl, refl)
  | inr e ↦ rw e (refl, refl)
]

count-step-le :
    (o : Options) (k : String) (e : Event) (w : World)
    → count k (step o e w).1 + count k (step o e w).0.scheduler.queue
      ≤ count k w.scheduler.queue + times_queued k (e ∷ [])
unfolding step start stop note_activity enqueue
count-step-le o k starts w = omega arith
count-step-le o k stops w = omega arith
count-step-le o k (settles id) w =
    let (none_started, same) = count-settles o id k w in
    omega (arith, none_started, ap (count k) same)
count-step-le o k (activity now) w = omega arith
count-step-le o k (queues id) w = omega (arith, count-append k w.scheduler.queue (id ∷ []))
count-step-le o k (ticks now) w = omega (arith, count-tick o now k w.scheduler)

times_queued_first :
    (k : String) (e : Event) (es : List Event)
    → times_queued k (e ∷ es) ≡ times_queued k (e ∷ []) + times_queued k es
times_queued_first k starts es = omega arith
times_queued_first k stops es = omega arith
times_queued_first k (settles id) es = omega arith
times_queued_first k (activity now) es = omega arith
times_queued_first k (queues id) es = omega arith
times_queued_first k (ticks now) es = omega arith

count-run-le :
    (o : Options) (k : String) (es : List Event) (w : World)
    → count k (run o es w).1 ≤ count k w.scheduler.queue + times_queued k es
unfolding run
count-run-le o k [] w = omega arith
count-run-le o k (e ∷ es) w =
    let next = step o e w in
    omega (
      arith,
      count-step-le o k e w,
      times_queued_first k e es,
      count-append k next.1 (run o es next.0).1,
      count-run-le o k es next.0,
    )

-- After activity of the user, over any later events, a job starts at most as often as it is queued
-- from then on, so none that waited before starts. And when `runningJobs` is at first the number of
-- the jobs under way and these are at most the maximum, both hold after the events, where the jobs
-- under way are those that were started and have not settled.
pub run-activity :
    (o : Options) (now : ℕ) (es : List Event) (w : World) (k : String)
    → w.scheduler.running_jobs ≡ length w.under_way
    → length w.under_way ≤ o.max_concurrent_jobs
    → let r = run o (activity now ∷ es) w in
      (count k r.1 ≤ times_queued k es)
      × ((r.0.scheduler.running_jobs ≡ length r.0.under_way)
          × (length r.0.under_way ≤ o.max_concurrent_jobs))
unfolding run step note_activity
run-activity o now es w k h le = (
  omega (arith, count-run-le o k es (record w { scheduler = note_activity now w.scheduler })),
  run-Inv o (activity now ∷ es) w (h, le),
)
