-- ===== src/SessionQueue/Ending.antt =====
-- The tasks of `SessionQueue` (src/runtime.ts) run out when nothing comes from outside.
use cursor_claw.Base.{
  ℕ, zero, suc, ◌+◌, ◌≤◌, ◌≡◌, refl, ap, none, some, List, [], ◌∷◌, ◌++◌, arith, leb, mem, nat_eq,
  Bool-cases, inl, inr,
}
use cursor_claw.SessionQueue.{
  Options, DropStrategy, drop_oldest, defer_new, Task, listed, dropped, enqueued, drained, Session,
  head, bit, warn, settle, dropped_by_cap, add_turn, at_limit, after_listing, after_dropping,
  take_next, after_enqueue, after_taking, run_task, tick_tasks, tick, Event, ticks, step, run,
}

-- How many ticks a task may still lead to, itself included.
abbrev pub work : Task → ℕ
work (listed turn object pending) = 4
work (dropped turn object oldest) = 3
work (enqueued object) = 2
work (drained object next) = 1

abbrev pub total_work : List Task → ℕ
total_work [] = 0
total_work (x ∷ xs) = work x + total_work xs

total_work-append : (xs : List Task) (x : Task) → total_work (xs ++ x ∷ []) ≡ total_work xs + work x
total_work-append [] x = omega arith
total_work-append (y ∷ xs) x = omega (arith, total_work-append xs x)

tasks-warn : (o : Options) (depth : ℕ) (s : Session) → (warn o depth s).tasks ≡ s.tasks
tasks-warn o depth s = elim (Bool-cases (leb o.soft_limit depth)) [ inl e ↦ rw e | inr e ↦ rw e ]

total_work-at_limit :
    (d : DropStrategy) (turn object : ℕ) (s : Session)
    → total_work (at_limit d turn object s).tasks ≤ total_work s.tasks + 3
unfolding at_limit
total_work-at_limit defer_new turn object s = omega arith
total_work-at_limit drop_oldest turn object s =
    omega (arith, total_work-append s.tasks (dropped turn object (head s.queue)))

total_work-add_turn :
    (turn object : ℕ) (s : Session)
    → total_work (add_turn turn object s).tasks ≡ total_work s.tasks + 2
unfolding add_turn
total_work-add_turn turn object s = total_work-append s.tasks (enqueued object)

total_work-run_task :
    (o : Options) (x : Task) (s : Session)
    → suc (total_work (run_task o x s).tasks) ≤ total_work s.tasks + work x
unfolding run_task after_listing after_dropping after_enqueue after_taking take_next
total_work-run_task o (listed turn object pending) s =
    let s' = warn o (pending + bit (mem object s.running)) s in
    ground (
      arith,
      total_work-at_limit o.drop_strategy turn object s',
      total_work-add_turn turn object s',
      ap total_work (tasks-warn o (pending + bit (mem object s.running)) s),
    )
total_work-run_task o (dropped turn object (some oldest)) s =
    omega (arith, total_work-add_turn turn object (settle oldest dropped_by_cap s))
total_work-run_task o (dropped turn object none) s =
    ground (arith, total_work-add_turn turn object s)
total_work-run_task o (enqueued object) s =
    ground (arith, total_work-append s.tasks (drained object (head s.queue)))
total_work-run_task o (drained object none) s = omega arith
total_work-run_task o (drained object (some turn)) s = omega arith

abbrev pub ticks_only : ℕ → List Event
ticks_only zero = []
ticks_only (suc n) = ticks ∷ ticks_only n

run-tasks :
    (n : ℕ) (o : Options) (xs : List Task) (s : Session)
    → s.tasks ≡ xs
    → total_work xs ≤ n
    → (run o (ticks_only n) s).tasks ≡ []
unfolding run step tick tick_tasks
run-tasks zero o [] s e h = e
run-tasks zero o (listed turn object pending ∷ xs) s e h = absurd (omega arith)
run-tasks zero o (dropped turn object oldest ∷ xs) s e h = absurd (omega arith)
run-tasks zero o (enqueued object ∷ xs) s e h = absurd (omega arith)
run-tasks zero o (drained object next ∷ xs) s e h = absurd (omega arith)
run-tasks (suc n) o [] s e h = rw e (run-tasks n o [] (record s { tasks = [] }) refl (omega arith))
run-tasks (suc n) o (x ∷ xs) s e h =
    let next = run_task o x (record s { tasks = xs }) in
    rw e (
      run-tasks n o next.tasks next refl
        (omega (arith, h, total_work-run_task o x (record s { tasks = xs }))))

-- The event loop ends: with nothing more from outside, as many ticks as the tasks at hand call for,
-- at most four for each, leave no task.
pub tasks-run-ticks_only :
    (o : Options) (s : Session) → (run o (ticks_only (total_work s.tasks)) s).tasks ≡ []
tasks-run-ticks_only o s = run-tasks (total_work s.tasks) o s.tasks s refl (omega arith)
