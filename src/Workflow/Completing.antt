-- ===== src/Workflow/Completing.antt =====
-- `WorkflowRuntime.run` (src/scheduler.ts) over many calls, some of which fail, and over restarts.
use cursor_claw.Base.{
  ◌≡◌, refl, ap, sym, ◌∙◌, Bool, true, false, ◌||◌, ◌&&◌, not, Option, none, some, List, [], ◌∷◌,
  append_assoc, append-nil, All-later, ◌++◌, String, ◌==◌, ==_refl, string_eq, mem, any, arith,
  Bool-cases, inl, inr, IsDistinct, All,
}
use cursor_claw.Workflow.Looping.{step_ids, Holds, IsNext}
use cursor_claw.Workflow.Resuming.{run_lem, restart-Holds}
use cursor_claw.Workflow.{
  WorkflowStep, WorkflowDefinition, WorkflowState, Runtime, complete, persist, share, new_state,
  Result, finished, denied, step_failed, persist_failed, state_invalid, Answers, Ended, map_key,
  run_steps, run_found, existing, run, restart,
}

-- What happens over time: a call of `run`, or a restart of the process.
pub data Happening : Type 0 where
  calls : Answers → Happening
  restarts : Happening

abbrev pub AllWritten : Happening → Type 0
AllWritten (calls a) = (i : String) → a.writes i ≡ true
AllWritten restarts = Unit

module _ (def : WorkflowDefinition) (idempotency_key : String) where
  -- The steps that end well, in their order over all calls, and the runtime that is left.
  abbrev pub ran_over : List Happening → Runtime → List String
  ran_over [] r = []
  ran_over (calls a ∷ hs) r = let e = run def idempotency_key a r in e.ran ++ ran_over hs e.runtime
  ran_over (restarts ∷ hs) r = ran_over hs (restart r)

  abbrev pub after_all : List Happening → Runtime → Runtime
  after_all [] r = r
  after_all (calls a ∷ hs) r = after_all hs (run def idempotency_key a r).runtime
  after_all (restarts ∷ hs) r = after_all hs (restart r)

  over-Leaves :
      (hs : List Happening) (c l : List String) (r : Runtime)
      → All AllWritten hs
      → Holds def idempotency_key c r
      → IsDistinct (step_ids def.steps)
      → step_ids def.steps ≡ c ++ l
      → (left : List String) × ((step_ids def.steps ≡ (c ++ ran_over hs r) ++ left)
          × Holds def idempotency_key (c ++ ran_over hs r) (after_all hs r))
  over-Leaves [] c l r w h d e = (l, (rw (append-nil c) e, rw (append-nil c) h))
  over-Leaves (restarts ∷ hs) c l r w h d e =
      over-Leaves hs c l (restart r) w.1 (restart-Holds def idempotency_key c r h) d e
  over-Leaves (calls a ∷ hs) c l r w h d e =
      let (next, (split, (h', n))) = run_lem def idempotency_key a c l r w.0 h d e in
      let now = run def idempotency_key a r in
      let e' = e ∙ (ap (λ x. c ++ x) split ∙ sym (append_assoc c now.ran next)) in
      let (left, (split', stored)) = over-Leaves hs (c ++ now.ran) next now.runtime w.1 h' d e' in
      let joined = append_assoc c now.ran (ran_over hs now.runtime) in
      (left, (rw (sym joined) split', rw (sym joined) stored))

  -- Over any calls and restarts, the steps that end well are the first ones of the definition, each one
  -- once and in its order. The workflow starts without completed steps, writing the file does not fail
  -- and no two steps share an identifier.
  pub ran_over-split :
      (hs : List Happening) (r : Runtime)
      → All AllWritten hs
      → Holds def idempotency_key [] r
      → IsDistinct (step_ids def.steps)
      → (left : List String) × (step_ids def.steps ≡ ran_over hs r ++ left)
  ran_over-split hs r w h d =
      let (left, (split, stored)) = over-Leaves hs [] (step_ids def.steps) r w h d refl in
      (left, split)

  ran_over-append :
      (hs : List Happening) (a : Answers) (r : Runtime)
      → ran_over (hs ++ calls a ∷ []) r
        ≡ ran_over hs r ++ (run def idempotency_key a (after_all hs r)).ran
  ran_over-append [] a r = append-nil (run def idempotency_key a r).ran
  ran_over-append (restarts ∷ hs) a r = ran_over-append hs a (restart r)
  ran_over-append (calls b ∷ hs) a r =
      let e = run def idempotency_key b r in
      rw (ran_over-append hs a e.runtime) (
        sym (
          append_assoc e.ran (ran_over hs e.runtime)
            (run def idempotency_key a (after_all hs e.runtime)).ran))

abbrev pub answers_all : Answers
answers_all = record { approves = λ i. true; succeeds = λ i. true; writes = λ i. true }

-- The result is no refusal and no failure of a step.
abbrev goes_through : Result → Bool
goes_through (denied i) = false
goes_through (step_failed i) = false
goes_through _ = true

goes_through-run_steps :
    (k : String) (steps : List WorkflowStep) (st : WorkflowState) (r : Runtime)
    → goes_through (run_steps k answers_all steps st r).result ≡ true
unfolding run_steps
goes_through-run_steps k [] st r = refl
goes_through-run_steps k (step ∷ steps) st r =
    let st' = complete step.id st in
    ground (
      arith,
      goes_through-run_steps k steps st r,
      goes_through-run_steps k steps st' (persist st' (share k st' r)),
    )

goes_through-run :
    (def : WorkflowDefinition) (idempotency_key : String) (found : Option (Option WorkflowState))
    (r : Runtime)
    → goes_through (run_found def idempotency_key answers_all found r).result ≡ true
unfolding run_found
goes_through-run def idempotency_key none r = refl
goes_through-run def idempotency_key (some none) r =
    goes_through-run_steps (map_key def.id idempotency_key) def.steps
      (new_state def.id idempotency_key) r
goes_through-run def idempotency_key (some (some st)) r =
    goes_through-run_steps (map_key def.id idempotency_key) def.steps st r

none_left : (x : Result) (left : List String) → goes_through x ≡ true → IsNext x left → left ≡ []
none_left (finished st) left t n = n
none_left (denied i) left t n = cc
none_left (step_failed i) left t n = cc
none_left (persist_failed i) left t n = cc
none_left state_invalid left t n = cc

-- When every write of the state file succeeds and no two steps share an identifier, a workflow that
-- starts without completed steps is completed by one call in which all is approved and all succeeds,
-- whichever approvals were refused and whichever steps failed in the calls before: over all calls and
-- restarts every step has then ended well exactly once, in the definition's order.
pub ran_over-answers_all :
    (def : WorkflowDefinition) (idempotency_key : String) (hs : List Happening) (r : Runtime)
    → All AllWritten hs
    → Holds def idempotency_key [] r
    → IsDistinct (step_ids def.steps)
    → ran_over def idempotency_key (hs ++ calls answers_all ∷ []) r ≡ step_ids def.steps
unfolding run
ran_over-answers_all def idempotency_key hs r w h d =
    let k = idempotency_key in
    let (next, (split, stored)) = over-Leaves def k hs [] (step_ids def.steps) r w h d refl in
    let before = after_all def k hs r in
    let (left, (split', (h', n))) =
      run_lem def k answers_all (ran_over def k hs r) next before (λ i. refl) stored d split in
    let nothing =
      none_left (run def k answers_all before).result left
        (goes_through-run def k (existing def k before) before) n in
    let ran = (run def k answers_all before).ran in
    let whole : next ≡ ran = split' ∙ (ap (λ l. ran ++ l) nothing ∙ append-nil ran) in
    rw (ran_over-append def k hs answers_all r)
      (sym (split ∙ ap (λ l. ran_over def k hs r ++ l) whole))

-- One of the steps has the identifier and may run.
abbrev pub may_run : Answers → List WorkflowStep → String → Bool
may_run a steps i = any (λ step. step.id == i && (not step.requires_approval || a.approves i)) steps

may_run_later :
    (a : Answers) (step : WorkflowStep) (steps : List WorkflowStep) (i : String)
    → may_run a steps i ≡ true
    → may_run a (step ∷ steps) i ≡ true
may_run_later a step steps i m = ground (arith, m)

run_steps-IsApproved :
    (k : String) (a : Answers) (steps : List WorkflowStep) (st : WorkflowState) (r : Runtime)
    → All (λ i. may_run a steps i ≡ true) (run_steps k a steps st r).ran
unfolding run_steps
run_steps-IsApproved k a [] st r = tt
run_steps-IsApproved k a (step ∷ steps) st r =
    let P = λ (i : String). may_run a steps i ≡ true in
    let Q = λ (i : String). may_run a (step ∷ steps) i ≡ true in
    let later =
      λ (e : Ended) (h : All P e.ran). All-later P Q e.ran (may_run_later a step steps) h in
    let st' = complete step.id st in
    let r' = persist st' (share k st' r) in
    elim (Bool-cases (mem step.id st.completed_step_ids)) [
      | inl m ↦ rw m (later (run_steps k a steps st r) (run_steps-IsApproved k a steps st r))
      | inr m ↦ rw m (elim (Bool-cases (step.requires_approval && not (a.approves step.id))) [
        | inl refused ↦ rw refused tt
        | inr allowed ↦ rw allowed (elim (Bool-cases (a.succeeds step.id)) [
          | inr failed ↦ rw failed tt
          | inl ok ↦
              let now : may_run a (step ∷ steps) step.id ≡ true =
                ground (arith, allowed, ==_refl step.id) in
              rw ok (elim (Bool-cases (a.writes step.id)) [
                | inl written ↦ rw written (
                  now,
                  later (run_steps k a steps st' r') (run_steps-IsApproved k a steps st' r'),
                )
                | inr lost ↦ rw lost (now, tt)
              ])
        ])
      ])
    ]

run_found-IsApproved :
    (def : WorkflowDefinition) (idempotency_key : String) (a : Answers)
    (found : Option (Option WorkflowState)) (r : Runtime)
    → All (λ i. may_run a def.steps i ≡ true) (run_found def idempotency_key a found r).ran
unfolding run_found
run_found-IsApproved def idempotency_key a none r = tt
run_found-IsApproved def idempotency_key a (some none) r =
    run_steps-IsApproved (map_key def.id idempotency_key) a def.steps
      (new_state def.id idempotency_key) r
run_found-IsApproved def idempotency_key a (some (some st)) r =
    run_steps-IsApproved (map_key def.id idempotency_key) a def.steps st r

-- Whatever the map and the files hold, each step that a call runs is one of the definition's, and it
-- requires no approval or was approved in that call.
pub run-IsApproved :
    (def : WorkflowDefinition) (idempotency_key : String) (a : Answers) (r : Runtime)
    → All (λ i. may_run a def.steps i ≡ true) (run def idempotency_key a r).ran
unfolding run
run-IsApproved def idempotency_key a r =
    run_found-IsApproved def idempotency_key a (existing def idempotency_key r) r
