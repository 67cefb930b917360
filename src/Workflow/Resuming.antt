-- ===== src/Workflow/Resuming.antt =====
-- Which steps the calls of `WorkflowRuntime.run` (src/scheduler.ts) run, from what is stored.
use cursor_claw.Base.{
  ◌≡◌, sym, ◌∙◌, true, Option, none, some, List, ◌++◌, String, ==_refl, string_eq, mem, length,
  drop, IsDistinct, to_All,
}
use cursor_claw.Base.Dict.{get}
use cursor_claw.Workflow.{
  WorkflowDefinition, WorkflowState, File, Runtime, Answers, map_key, get_state_file, check_file,
  load_persisted_state, run_steps, run_found, existing_found, existing, run, restart,
}
use cursor_claw.Workflow.Looping.{
  step_ids, IsNext, state_of, MemoryHolds, FileHolds, Holds, Leaves, skip, step_ids-drop,
  run_steps-Leaves,
}

module _ (def : WorkflowDefinition) (idempotency_key : String) where
  -- The loop over all steps, where the completed ones are the first of them.
  resume-Leaves :
      (a : Answers) (c l : List String) (r : Runtime)
      → ((i : String) → a.writes i ≡ true)
      → Holds def idempotency_key c r
      → IsDistinct (step_ids def.steps)
      → step_ids def.steps ≡ c ++ l
      → Leaves def idempotency_key c (drop (length c) def.steps) (
          run_steps (map_key def.id idempotency_key) a def.steps (state_of def idempotency_key c) r)
  resume-Leaves a c l r w h d e =
      let ahead = drop (length c) def.steps in
      let same = step_ids-drop def idempotency_key c l def.steps e in
      rw
        (skip def idempotency_key a (map_key def.id idempotency_key) c l def.steps
          (state_of def idempotency_key c) r e (to_All (λ i. mem i c ≡ true) c (λ i m. m)))
        (run_steps-Leaves def idempotency_key a c ahead r w h (rw same (rw (sym e) d)))

  file-run_found :
      (a : Answers) (c : List String) (o : Option File) (r : Runtime)
      → FileHolds def idempotency_key c o
      → run_found def idempotency_key a (check_file def.id idempotency_key o) r
        ≡ run_steps (map_key def.id idempotency_key) a def.steps (state_of def idempotency_key c) r
  unfolding run_found check_file
  file-run_found a c none r h = rw h
  file-run_found a c (some file) r h = rw (h, ==_refl def.id, ==_refl idempotency_key)

  existing_found-run_found :
      (a : Answers) (c : List String) (o : Option WorkflowState) (r : Runtime)
      → MemoryHolds def idempotency_key c o
      → FileHolds def idempotency_key c (get (get_state_file def.id idempotency_key) r.files)
      → run_found def idempotency_key a (existing_found def idempotency_key o r) r
        ≡ run_steps (map_key def.id idempotency_key) a def.steps (state_of def idempotency_key c) r
  unfolding run_found existing_found load_persisted_state
  existing_found-run_found a c none r m h =
      file-run_found a c (get (get_state_file def.id idempotency_key) r.files) r h
  existing_found-run_found a c (some st) r m h = rw m

  -- When every write of the state file in the call succeeds and no two steps share an identifier, a
  -- call that starts with the completed steps `c`, in the map and in the file, runs steps that come
  -- next in the definition's order. The steps of `c` and these are the completed ones for the next
  -- call. When it ends well no step is left, and when a step is denied or fails, that step is the
  -- next one.
  pub run_lem :
      (a : Answers) (c l : List String) (r : Runtime)
      → ((i : String) → a.writes i ≡ true)
      → Holds def idempotency_key c r
      → IsDistinct (step_ids def.steps)
      → step_ids def.steps ≡ c ++ l
      → let e = run def idempotency_key a r in
        (left : List String) × ((l ≡ e.ran ++ left)
          × (Holds def idempotency_key (c ++ e.ran) e.runtime × IsNext e.result left))
  unfolding run existing
  run_lem a c l r w h d e =
      rw (existing_found-run_found a c (get (map_key def.id idempotency_key) r.memory) r h.0 h.1) (
        let (left, (split, rest)) = resume-Leaves a c l r w h d e in
        (left, (sym (step_ids-drop def idempotency_key c l def.steps e) ∙ split, rest)))

  pub restart-Holds :
      (c : List String) (r : Runtime)
      → Holds def idempotency_key c r
      → Holds def idempotency_key c (restart r)
  unfolding restart get
  restart-Holds c r h = (tt, h.1)
