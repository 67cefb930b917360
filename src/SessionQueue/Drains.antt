-- ===== src/SessionQueue/Drains.antt =====
-- The drains of `SessionQueue` (src/runtime.ts): one at most for each state object of the session.
use cursor_claw.Base.{
  ℕ, ◌+◌, ◌≤◌, ◌≡◌, refl, ap, Bool, Option, none, some, List, [], ◌∷◌, ◌++◌, arith, leb, ◌==◌,
  nat_eq, mem, length, Bool-cases, inl, inr,
}
use cursor_claw.SessionQueue.Counting.{among, among-absent, among-keep, weigh, found, weigh-extract}
use cursor_claw.SessionQueue.{
  Options, DropStrategy, drop_oldest, defer_new, Task, listed, dropped, enqueued, drained, Session,
  head, settle, bit, warn, begin, object_of, dropped_by_cap, add_turn, at_limit, after_listing,
  after_dropping, take_next, after_enqueue, after_taking, run_task, tick_tasks, tick, extract,
  finish_found, finish, Event, begins, ticks, finishes, step, run,
}

module _ (object : ℕ) where
  abbrev pub drain_of : Task → ℕ
  drain_of (listed turn j pending) = 0
  drain_of (dropped turn j oldest) = 0
  drain_of (enqueued j) = 0
  drain_of (drained j next) = bit (j == object)

  abbrev pub drains_in : List Task → ℕ
  drains_in [] = 0
  drains_in (x ∷ xs) = drain_of x + drains_in xs

  -- The drains of the object, between two turns and in one.
  abbrev pub drains : List Task → Session → ℕ
  drains xs s = drains_in xs + weigh (λ j turn. bit (j == object)) s.executing

  -- As many as the object's flag says, where `xs` are the tasks.
  abbrev pub IsMatched : List Task → Session → Type 0
  IsMatched xs s = (drains xs s ≡ among object s.running) × (among object s.running ≤ 1)

  drains_in-append :
      (xs : List Task) (x : Task) → drains_in (xs ++ x ∷ []) ≡ drains_in xs + drain_of x
  drains_in-append [] x = omega arith
  drains_in-append (y ∷ xs) x = omega (arith, drains_in-append xs x)

  add_turn-IsMatched :
      (turn j : ℕ) (s : Session)
      → IsMatched s.tasks s
      → IsMatched (add_turn turn j s).tasks (add_turn turn j s)
  unfolding add_turn
  add_turn-IsMatched turn j s m = omega (arith, drains_in-append s.tasks (enqueued j))

  at_limit-IsMatched :
      (d : DropStrategy) (turn j : ℕ) (s : Session)
      → IsMatched s.tasks s
      → IsMatched (at_limit d turn j s).tasks (at_limit d turn j s)
  unfolding at_limit
  at_limit-IsMatched defer_new turn j s m = m
  at_limit-IsMatched drop_oldest turn j s m =
      omega (arith, drains_in-append s.tasks (dropped turn j (head s.queue)))

  warn-IsMatched :
      (o : Options) (depth : ℕ) (s : Session)
      → IsMatched s.tasks s
      → IsMatched (warn o depth s).tasks (warn o depth s)
  warn-IsMatched o depth s m = elim (Bool-cases (leb o.soft_limit depth)) [
    | inl e ↦ rw e m
    | inr e ↦ rw e m
  ]

  after_listing-IsMatched :
      (o : Options) (turn j pending : ℕ) (s : Session)
      → IsMatched s.tasks s
      → IsMatched (after_listing o turn j pending s).tasks (after_listing o turn j pending s)
  unfolding after_listing
  after_listing-IsMatched o turn j pending s m =
      let depth = pending + bit (mem j s.running) in
      let m' = warn-IsMatched o depth s m in
      elim (Bool-cases (leb o.hard_limit depth)) [
        | inl full ↦ rw full (at_limit-IsMatched o.drop_strategy turn j (warn o depth s) m')
        | inr room ↦ rw room (add_turn-IsMatched turn j (warn o depth s) m')
      ]

  after_dropping-IsMatched :
      (turn j : ℕ) (oldest : Option ℕ) (s : Session)
      → IsMatched s.tasks s
      → IsMatched (after_dropping turn j oldest s).tasks (after_dropping turn j oldest s)
  unfolding after_dropping
  after_dropping-IsMatched turn j (some u) s m =
      add_turn-IsMatched turn j (settle u dropped_by_cap s) m
  after_dropping-IsMatched turn j none s m = elim (Bool-cases (mem j s.running)) [
    | inl busy ↦ rw busy m
    | inr free ↦ rw free (add_turn-IsMatched turn j s m)
  ]

  after_enqueue-IsMatched :
      (j : ℕ) (s : Session)
      → IsMatched s.tasks s
      → IsMatched (after_enqueue j s).tasks (after_enqueue j s)
  unfolding after_enqueue take_next
  after_enqueue-IsMatched j s m = elim (Bool-cases (mem j s.running)) [
    | inl busy ↦ rw busy m
    | inr free ↦ rw free (
        ground (
          arith,
          among-absent object j s.running free,
          drains_in-append s.tasks (drained j (head s.queue)),
        ))
  ]

  run_task-IsMatched :
      (o : Options) (x : Task) (s : Session)
      → IsMatched (x ∷ s.tasks) s
      → IsMatched (run_task o x s).tasks (run_task o x s)
  unfolding run_task after_taking
  run_task-IsMatched o (listed turn j pending) s m =
      after_listing-IsMatched o turn j pending s (omega arith)
  run_task-IsMatched o (dropped turn j oldest) s m =
      after_dropping-IsMatched turn j oldest s (omega arith)
  run_task-IsMatched o (enqueued j) s m = after_enqueue-IsMatched j s (omega arith)
  run_task-IsMatched o (drained j none) s m = ground (arith, m, among-keep object j s.running)
  run_task-IsMatched o (drained j (some turn)) s m = omega arith

  tick_tasks-IsMatched :
      (o : Options) (xs : List Task) (s : Session)
      → s.tasks ≡ xs
      → IsMatched s.tasks s
      → IsMatched (tick_tasks o xs s).tasks (tick_tasks o xs s)
  unfolding tick_tasks
  tick_tasks-IsMatched o [] s e m = m
  tick_tasks-IsMatched o (x ∷ xs) s e m =
      run_task-IsMatched o x (record s { tasks = xs }) (omega (arith, ap drains_in e))

  finish_found-IsMatched :
      (j : ℕ) (succeeds : Bool) (o : Option (ℕ × List (ℕ × ℕ))) (s : Session)
      → extract j s.executing ≡ o
      → IsMatched s.tasks s
      → IsMatched (finish_found j succeeds o s).tasks (finish_found j succeeds o s)
  unfolding finish_found take_next
  finish_found-IsMatched j succeeds none s e m = m
  finish_found-IsMatched j succeeds (some (turn, others)) s e m =
      let w = λ (k u : ℕ). bit (k == object) in
      omega (
        arith,
        ap (λ r. found w j r (weigh w s.executing)) e,
        weigh-extract w j s.executing,
        drains_in-append s.tasks (drained j (head s.queue)),
      )

  pub step-IsMatched :
      (o : Options) (e : Event) (s : Session)
      → IsMatched s.tasks s
      → IsMatched (step o e s).tasks (step o e s)
  unfolding step begin tick finish
  step-IsMatched o (begins turn) s m =
      omega (
        arith,
        drains_in-append s.tasks (listed turn (object_of s.state s.objects) (length s.queue)),
      )
  step-IsMatched o ticks s m = tick_tasks-IsMatched o s.tasks s refl m
  step-IsMatched o (finishes j succeeds) s m =
      finish_found-IsMatched j succeeds (extract j s.executing) s refl m

  -- Each state object of the session has one drain exactly while its flag is set, and else none:
  -- no object ever has two drains.
  pub run-IsMatched :
      (o : Options) (es : List Event) (s : Session)
      → IsMatched s.tasks s
      → IsMatched (run o es s).tasks (run o es s)
  unfolding run
  run-IsMatched o [] s m = m
  run-IsMatched o (e ∷ es) s m = run-IsMatched o es (step o e s) (step-IsMatched o e s m)
