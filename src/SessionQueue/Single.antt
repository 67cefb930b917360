-- ===== src/SessionQueue/Single.antt =====
-- A session of `SessionQueue` (src/runtime.ts) that has one state object keeps it.
use cursor_claw.Base.{
  ℕ, ◌+◌, ◌≡◌, refl, Bool, true, false, ◌&&◌, Option, none, some, List, [], ◌∷◌, ◌++◌, arith, leb,
  ◌==◌, nat_eq, mem, length, Bool-cases, inl, inr,
}
use cursor_claw.SessionQueue.Counting.{weigh}
use cursor_claw.SessionQueue.{
  Options, DropStrategy, drop_oldest, defer_new, Task, listed, dropped, enqueued, drained, Session,
  head, settle, bit, warn, begin, object_of, dropped_by_cap, add_turn, at_limit, after_listing,
  after_dropping, take_next, after_enqueue, after_taking, run_task, tick_tasks, tick, extract,
  finish_found, finish, Event, begins, ticks, finishes, step, run,
}

module _ (object : ℕ) where
  abbrev pub task_object : Task → ℕ
  task_object (listed turn j pending) = j
  task_object (dropped turn j oldest) = j
  task_object (enqueued j) = j
  task_object (drained j next) = j

  abbrev pub tasks_of : List Task → Bool
  tasks_of [] = true
  tasks_of (x ∷ xs) = (task_object x == object) && tasks_of xs

  abbrev pub turns_of : List (ℕ × ℕ) → Bool
  turns_of [] = true
  turns_of ((j, turn) ∷ xs) = (j == object) && turns_of xs

  abbrev pub state_of : Option ℕ → Bool
  state_of none = false
  state_of (some j) = j == object

  -- The session has the one state object, where `xs` are the tasks.
  abbrev pub IsOf : List Task → Session → Type 0
  IsOf xs s = (state_of s.state && (tasks_of xs && turns_of s.executing)) ≡ true

  tasks_of-append :
      (xs : List Task) (x : Task)
      → tasks_of (xs ++ x ∷ []) ≡ (tasks_of xs && (task_object x == object))
  tasks_of-append [] x = ground arith
  tasks_of-append (y ∷ xs) x = ground (arith, tasks_of-append xs x)

  add_turn-IsOf :
      (turn j : ℕ) (s : Session)
      → IsOf s.tasks s
      → (j == object) ≡ true
      → IsOf (add_turn turn j s).tasks (add_turn turn j s)
  unfolding add_turn
  add_turn-IsOf turn j s h e = ground (arith, h, e, tasks_of-append s.tasks (enqueued j))

  at_limit-IsOf :
      (d : DropStrategy) (turn j : ℕ) (s : Session)
      → IsOf (listed turn j 0 ∷ s.tasks) s
      → IsOf (at_limit d turn j s).tasks (at_limit d turn j s)
  unfolding at_limit
  at_limit-IsOf defer_new turn j s h = ground (arith, h)
  at_limit-IsOf drop_oldest turn j s h =
      ground (arith, h, tasks_of-append s.tasks (dropped turn j (head s.queue)))

  after_listing-IsOf :
      (o : Options) (turn j pending : ℕ) (s : Session)
      → IsOf (listed turn j pending ∷ s.tasks) s
      → IsOf (after_listing o turn j pending s).tasks (after_listing o turn j pending s)
  unfolding after_listing
  after_listing-IsOf o turn j pending s h =
      let depth = pending + bit (mem j s.running) in
      let h' : IsOf (listed turn j 0 ∷ (warn o depth s).tasks) (warn o depth s) =
        elim (Bool-cases (leb o.soft_limit depth)) [ inl e ↦ rw e h | inr e ↦ rw e h ] in
      elim (Bool-cases (leb o.hard_limit depth)) [
        | inl full ↦ rw full (at_limit-IsOf o.drop_strategy turn j (warn o depth s) h')
        | inr room ↦
            rw room (add_turn-IsOf turn j (warn o depth s) (ground (arith, h')) (ground (arith, h)))
      ]

  after_dropping-IsOf :
      (turn j : ℕ) (oldest : Option ℕ) (s : Session)
      → IsOf (dropped turn j oldest ∷ s.tasks) s
      → IsOf (after_dropping turn j oldest s).tasks (after_dropping turn j oldest s)
  unfolding after_dropping
  after_dropping-IsOf turn j (some u) s h =
      add_turn-IsOf turn j (settle u dropped_by_cap s) (ground arith) (ground arith)
  after_dropping-IsOf turn j none s h = elim (Bool-cases (mem j s.running)) [
    | inl busy ↦ rw busy (ground arith)
    | inr free ↦ rw free (add_turn-IsOf turn j s (ground arith) (ground arith))
  ]

  run_task-IsOf :
      (o : Options) (x : Task) (s : Session)
      → IsOf (x ∷ s.tasks) s
      → IsOf (run_task o x s).tasks (run_task o x s)
  unfolding run_task after_enqueue after_taking take_next
  run_task-IsOf o (listed turn j pending) s h = after_listing-IsOf o turn j pending s h
  run_task-IsOf o (dropped turn j oldest) s h = after_dropping-IsOf turn j oldest s h
  run_task-IsOf o (enqueued j) s h =
      ground (arith, h, tasks_of-append s.tasks (drained j (head s.queue)))
  run_task-IsOf o (drained j none) s h = ground (arith, h)
  run_task-IsOf o (drained j (some turn)) s h = ground (arith, h)

  tick_tasks-IsOf :
      (o : Options) (xs : List Task) (s : Session)
      → s.tasks ≡ xs
      → IsOf xs s
      → IsOf (tick_tasks o xs s).tasks (tick_tasks o xs s)
  unfolding tick_tasks
  tick_tasks-IsOf o [] s e h = ground (arith, h, e)
  tick_tasks-IsOf o (x ∷ xs) s e h = run_task-IsOf o x (record s { tasks = xs }) h

  abbrev found_of : (j : ℕ) → Option (ℕ × List (ℕ × ℕ)) → Bool
  found_of j none = true
  found_of j (some (turn, others)) = (j == object) && turns_of others

  found_of-later :
      (j : ℕ) (x : ℕ × ℕ) (found : Option (ℕ × List (ℕ × ℕ)))
      → (x.0 == object) ≡ true
      → found_of j found ≡ true
      → found_of j (elim found [ none ↦ none | some (t, ys) ↦ some (t, x ∷ ys) ]) ≡ true
  found_of-later j x none e h = refl
  found_of-later j x (some (t, ys)) e h = ground (arith, e, h)

  found_of-extract :
      (j : ℕ) (xs : List (ℕ × ℕ)) → turns_of xs ≡ true → found_of j (extract j xs) ≡ true
  unfolding extract
  found_of-extract j [] h = refl
  found_of-extract j ((i, t) ∷ xs) h = elim (Bool-cases (i == j)) [
    | inl e ↦ rw e (ground (arith, h, e))
    | inr e ↦ rw e (
        found_of-later j (i, t) (extract j xs) (ground (arith, h))
          (found_of-extract j xs (ground (arith, h))))
  ]

  finish_found-IsOf :
      (j : ℕ) (succeeds : Bool) (found : Option (ℕ × List (ℕ × ℕ))) (s : Session)
      → found_of j found ≡ true
      → IsOf s.tasks s
      → IsOf (finish_found j succeeds found s).tasks (finish_found j succeeds found s)
  unfolding finish_found take_next
  finish_found-IsOf j succeeds none s f h = h
  finish_found-IsOf j succeeds (some (turn, others)) s f h =
      ground (arith, f, h, tasks_of-append s.tasks (drained j (head s.queue)))

  state_of-begin :
      (state : Option ℕ) (fresh : ℕ)
      → state_of state ≡ true
      → (object_of state fresh == object) ≡ true
  state_of-begin none fresh h = cc
  state_of-begin (some j) fresh h = h

  step-IsOf :
      (o : Options) (e : Event) (s : Session)
      → IsOf s.tasks s
      → IsOf (step o e s).tasks (step o e s)
  unfolding step begin tick finish
  step-IsOf o (begins turn) s h = ground (
    arith,
    h,
    tasks_of-append s.tasks (listed turn (object_of s.state s.objects) (length s.queue)),
    state_of-begin s.state s.objects,
  )
  step-IsOf o ticks s h = tick_tasks-IsOf o s.tasks s refl h
  step-IsOf o (finishes j succeeds) s h =
      finish_found-IsOf j succeeds (extract j s.executing) s
        (found_of-extract j s.executing (ground (arith, h))) h

  pub run-IsOf :
      (o : Options) (es : List Event) (s : Session)
      → IsOf s.tasks s
      → IsOf (run o es s).tasks (run o es s)
  unfolding run
  run-IsOf o [] s h = h
  run-IsOf o (e ∷ es) s h = run-IsOf o es (step o e s) (step-IsOf o e s h)

  pub weigh-of :
      (xs : List (ℕ × ℕ)) → turns_of xs ≡ true → weigh (λ j turn. bit (j == object)) xs ≡ length xs
  weigh-of [] h = refl
  weigh-of ((j, turn) ∷ xs) h = ground (arith, weigh-of xs)
