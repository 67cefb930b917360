-- ===== src/Workflow/Looping.antt =====
-- The loop of `WorkflowRuntime.run` (src/scheduler.ts) over the steps that are ahead.
use cursor_claw.Base.{
  ◌≡◌, refl, ap, sym, subst, true, false, ◌&&◌, not, Option, none, some, List, [], ◌∷◌,
  append_assoc, append-nil, mem-before, ◌++◌, String, string_eq, mem, length, drop, Bool-cases, inl,
  inr, IsDistinct, All,
}
use cursor_claw.Base.Dict.{get, set, get-set_self}
use cursor_claw.Workflow.{
  WorkflowStep, WorkflowDefinition, WorkflowState, File, state_file, Runtime, Result, finished,
  denied, step_failed, persist_failed, state_invalid, Answers, Ended, map_key, get_state_file,
  persist, share, share_found, complete, after_step, run_steps,
}

abbrev pub step_ids : List WorkflowStep → List String
step_ids [] = []
step_ids (step ∷ steps) = step.id ∷ step_ids steps

-- The result fits the steps that are left: none after a good end, and else the refused or failed
-- one comes next. No other result is had.
abbrev pub IsNext : Result → (left : List String) → Type 0
IsNext (finished st) left = left ≡ []
IsNext (denied i) left = (rest : List String) × (left ≡ i ∷ rest)
IsNext (step_failed i) left = (rest : List String) × (left ≡ i ∷ rest)
IsNext (persist_failed i) left = false ≡ true
IsNext state_invalid left = false ≡ true

module _ (def : WorkflowDefinition) (idempotency_key : String) where
  abbrev pub state_of : List String → WorkflowState
  state_of c = record {
    workflow_id = def.id;
    idempotency_key = idempotency_key;
    completed_step_ids = c;
  }

  abbrev pub MemoryHolds : List String → Option WorkflowState → Type 0
  MemoryHolds c none = Unit
  MemoryHolds c (some st) = st ≡ state_of c

  abbrev pub FileHolds : List String → Option File → Type 0
  FileHolds c none = c ≡ []
  FileHolds c (some file) = file ≡ state_file (state_of c)

  -- Both the map and the file say that these steps are completed.
  abbrev pub Holds : List String → Runtime → Type 0
  Holds c r =
      MemoryHolds c (get (map_key def.id idempotency_key) r.memory)
      × FileHolds c (get (get_state_file def.id idempotency_key) r.files)

  -- What a call leaves that starts with the completed steps `c` and has `steps` ahead.
  abbrev pub Leaves : List String → List WorkflowStep → Ended → Type 0
  Leaves c steps e =
      (left : List String) × ((step_ids steps ≡ e.ran ++ left)
        × (Holds (c ++ e.ran) e.runtime × IsNext e.result left))

  pub skip :
      (a : Answers) (k : String) (c l : List String) (steps : List WorkflowStep)
      (st : WorkflowState) (r : Runtime)
      → step_ids steps ≡ c ++ l
      → All (λ i. mem i st.completed_step_ids ≡ true) c
      → run_steps k a steps st r ≡ run_steps k a (drop (length c) steps) st r
  unfolding run_steps
  skip a k [] l steps st r e h = refl
  skip a k (i ∷ c) l [] st r e h = cc
  skip a k (i ∷ c) l (step ∷ steps) st r e h =
      let same : step.id ≡ i = cc in rw (same, h.0) (skip a k c l steps st r (cc) h.1)

  pub step_ids-drop :
      (c l : List String) (steps : List WorkflowStep)
      → step_ids steps ≡ c ++ l
      → step_ids (drop (length c) steps) ≡ l
  step_ids-drop [] l steps e = e
  step_ids-drop (i ∷ c) l [] e = cc
  step_ids-drop (i ∷ c) l (step ∷ steps) e = step_ids-drop c l steps (cc)

  stopped-Leaves :
      (c : List String) (steps : List WorkflowStep) (r : Runtime) (x : Result)
      → Holds c r
      → IsNext x (step_ids steps)
      → Leaves c steps (record { runtime = r; ran = []; result = x })
  stopped-Leaves c steps r x h n =
      (step_ids steps, (refl, (subst (λ d. Holds d r) (sym (append-nil c)) h, n)))

  share_found-MemoryHolds :
      (k : String) (c : List String) (o : Option WorkflowState) (r : Runtime)
      → get k r.memory ≡ o
      → MemoryHolds c (get k (share_found k (state_of c) o r).memory)
  unfolding share_found
  share_found-MemoryHolds k c none r e = rw e tt
  share_found-MemoryHolds k c (some old) r e = rw (get-set_self k (state_of c) r.memory)

  persist-Holds :
      (i : String) (c : List String) (r : Runtime)
      → Holds (c ++ i ∷ []) (
          persist
            (complete i (state_of c))
            (share (map_key def.id idempotency_key) (complete i (state_of c)) r))
  unfolding persist complete share
  persist-Holds i c r =
      let st = state_of (c ++ i ∷ []) in
      let file = get_state_file def.id idempotency_key in
      (
        share_found-MemoryHolds (map_key def.id idempotency_key) (c ++ i ∷ [])
            (get (map_key def.id idempotency_key) r.memory) r refl,
        rw (get-set_self file (state_file st) (share (map_key def.id idempotency_key) st r).files),
      )

  after_step-Leaves :
      (c : List String) (step : WorkflowStep) (steps : List WorkflowStep) (e : Ended)
      → Leaves (c ++ step.id ∷ []) steps e
      → Leaves c (step ∷ steps) (after_step step.id e)
  after_step-Leaves c step steps e (left, (split, (h, f))) = (
    left,
    (
      ap (λ l. step.id ∷ l) split,
      (subst (λ d. Holds d e.runtime) (append_assoc c (step.id ∷ []) e.ran) h, f),
    ),
  )

  pub run_steps-Leaves :
      (a : Answers) (c : List String) (steps : List WorkflowStep) (r : Runtime)
      → ((i : String) → a.writes i ≡ true)
      → Holds c r
      → IsDistinct (c ++ step_ids steps)
      → Leaves c steps (run_steps (map_key def.id idempotency_key) a steps (state_of c) r)
  unfolding run_steps complete
  run_steps-Leaves a c [] r w h d = (
    [],
    (
      refl,
      (
        subst
            (λ d.
              Holds d
                (record r { memory = set (map_key def.id idempotency_key) (state_of c) r.memory }))
            (sym (append-nil c))
            (rw (get-set_self (map_key def.id idempotency_key) (state_of c) r.memory), h.1),
        refl,
      ),
    ),
  )
  run_steps-Leaves a c (step ∷ steps) r w h d =
      let k = map_key def.id idempotency_key in
      let st = complete step.id (state_of c) in
      let rest =
        run_steps-Leaves a (c ++ step.id ∷ []) steps (persist st (share k st r)) w
          (persist-Holds step.id c r)
          (subst IsDistinct (sym (append_assoc c (step.id ∷ []) (step_ids steps))) d) in
      rw (mem-before c step.id (step_ids steps) d)
        (elim (Bool-cases (step.requires_approval && not (a.approves step.id))) [
          | inl e ↦
              rw e (stopped-Leaves c (step ∷ steps) r (denied step.id) h (step_ids steps, refl))
          | inr e ↦ rw e (elim (Bool-cases (a.succeeds step.id)) [
            | inl ok ↦
                rw (ok, w step.id)
                  (after_step-Leaves c step steps
                    (run_steps k a steps st (persist st (share k st r))) rest)
            | inr failed ↦
                rw failed
                  (stopped-Leaves c (step ∷ steps) r (step_failed step.id) h (step_ids steps, refl))
          ])
        ])
