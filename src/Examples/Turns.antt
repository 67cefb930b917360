-- ===== src/Examples/Turns.antt =====
-- The session queue, the workflow runtime, the exec tool and the tool router at concrete inputs.
use cursor_claw.Base.{
  ◌+◌, ◌≤◌, ◌≡◌, refl, true, false, List, [], ◌∷◌, ◌++◌, String, length, string_eq, arith,
}
use cursor_claw.Base.Dict.{get}
use cursor_claw.SessionQueue as Session_queue
use cursor_claw.SessionQueue.{
  drop_oldest, Session, idle, begin, add_turn, at_limit, after_listing, after_dropping, take_next,
  after_enqueue, after_taking, run_task, tick_tasks, tick, extract, finish_found, finish, Event,
  begins, ticks, finishes, step,
}
use cursor_claw.SessionQueue.Places.{places, times_settled, begun, places-run}
use cursor_claw.SessionQueue.Waking.{times_settled-run}
use cursor_claw.SessionQueue.Ending.{total_work, ticks_only, tasks-run-ticks_only}
use cursor_claw.SessionQueue.Overlap.{
  first_enqueued, two_at_once, executing-run-first_enqueued, executing-run-two_at_once,
}
use cursor_claw.Workflow as Workflow_runtime
use cursor_claw.Workflow.{WorkflowStep, WorkflowDefinition, Runtime, Answers, denied}
use cursor_claw.Workflow.Looping.{step_ids, Holds, IsNext}
use cursor_claw.Workflow.Resuming.{run_lem}
use cursor_claw.Workflow.Completing.{calls, restarts, ran_over, answers_all, ran_over-answers_all}

abbrev limits : Session_queue.Options
limits = record { soft_limit = 1; hard_limit = 2; drop_strategy = drop_oldest }

-- The first turn executes and ends while a second one waits; then that one executes and fails.
abbrev two_turns : List Event
two_turns =
    begins 7
    ∷ begins 8
    ∷ ticks
    ∷ ticks
    ∷ ticks
    ∷ ticks
    ∷ ticks
    ∷ ticks
    ∷ finishes 0 true
    ∷ finishes 1 false
    ∷ ticks
    ∷ ticks
    ∷ []

times_settled-run_example :
    times_settled 8 (Session_queue.run limits two_turns idle).settled ≡ begun 8 two_turns
unfolding Session_queue.run step begin tick tick_tasks run_task after_listing add_turn after_enqueue
    take_next after_taking finish finish_found extract
times_settled-run_example = times_settled-run 8 limits two_turns refl refl

places-run_example :
    places 7 (Session_queue.run limits two_turns idle) ≡ places 7 idle + begun 7 two_turns
places-run_example = places-run 7 limits two_turns idle

executing-run-first_enqueued_example :
    length
      (Session_queue.run limits
        (first_enqueued 7 (begins 8 ∷ ticks ∷ ticks ∷ ticks ∷ []))
        idle).executing
    ≤ 1
executing-run-first_enqueued_example =
    executing-run-first_enqueued limits 7 (begins 8 ∷ ticks ∷ ticks ∷ ticks ∷ []) (omega arith)

executing-run-two_at_once_example :
    (Session_queue.run limits (two_at_once 7 8) idle).executing ≡ (1, 8) ∷ (0, 7) ∷ []
executing-run-two_at_once_example = executing-run-two_at_once limits 7 8 (omega arith)

abbrev with_tasks : Session
with_tasks = begin 8 (begin 7 idle)

tasks-run-ticks_only_example :
    (Session_queue.run limits (ticks_only (total_work with_tasks.tasks)) with_tasks).tasks ≡ []
unfolding begin
tasks-run-ticks_only_example = tasks-run-ticks_only limits with_tasks

abbrev two_steps : WorkflowDefinition
two_steps = record {
  id = "release";
  steps =
      record { id = "build"; requires_approval = false }
      ∷ record { id = "publish"; requires_approval = true }
      ∷ [];
}

abbrev not_approved : Answers
not_approved = record { approves = λ i. false; succeeds = λ i. true; writes = λ i. true }

abbrev fresh_runtime : Runtime
fresh_runtime = record { memory = []; files = [] }

run_lem_example :
    let e = Workflow_runtime.run two_steps "k" not_approved fresh_runtime in
    (left : List String) × (("build" ∷ "publish" ∷ [] ≡ e.ran ++ left)
      × (Holds two_steps "k" ([] ++ e.ran) e.runtime × IsNext e.result left))
unfolding get
run_lem_example =
    run_lem two_steps "k" not_approved [] ("build" ∷ "publish" ∷ []) fresh_runtime (λ i. refl)
      (tt, refl) (refl, (refl, tt)) refl

-- The approval is refused, the process restarts, and it is given.
ran_over-answers_all_example :
    ran_over two_steps "k"
      ((calls not_approved ∷ restarts ∷ []) ++ calls answers_all ∷ [])
      fresh_runtime
    ≡ step_ids two_steps.steps
unfolding get
ran_over-answers_all_example =
    ran_over-answers_all two_steps "k" (calls not_approved ∷ restarts ∷ []) fresh_runtime
      ((λ i. refl), (tt, tt)) (tt, refl) (refl, (refl, tt))
