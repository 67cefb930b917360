-- ===== src/Workflow.antt =====
-- `WorkflowRuntime` of src/scheduler.ts, one `run` at a time. What a step's `run`, the approval and
-- the writing of the file answer is given for each call of `run`.
pub mod Looping
pub mod Resuming
pub mod Completing
use cursor_claw.Base.{
  ℕ, Bool, true, false, ◌||◌, ◌&&◌, not, Option, none, some, List, [], ◌∷◌, ◌++◌, String, ◌==◌,
  string_eq, if◌then◌else◌, mem,
}
use cursor_claw.Base.Dict.{get, set}
use Prim.Native.String.{◌++◌ as concat}

pub record WorkflowStep : Type 0 where
  pub id : String
  pub requires_approval : Bool

pub record WorkflowDefinition : Type 0 where
  pub id : String
  pub steps : List WorkflowStep

pub record WorkflowState : Type 0 where
  pub workflow_id : String
  pub idempotency_key : String
  pub completed_step_ids : List String

-- A state file: a state, or text that no state is read from.
pub data File : Type 0 where
  state_file : WorkflowState → File
  invalid_file : File

-- The map and the files of the state directory by their names.
pub record Runtime : Type 0 where
  pub memory : List (String × WorkflowState)
  pub files : List (String × File)

pub data Result : Type 0 where
  finished : WorkflowState → Result
  denied step_failed persist_failed : (step_id : String) → Result
  state_invalid : Result

-- The answers of one call: of the approval, of the steps, and whether a step's state is written.
pub record Answers : Type 0 where
  pub approves : String → Bool
  pub succeeds : String → Bool
  pub writes : String → Bool

-- What a call leaves, with the steps whose `run` ended well.
pub record Ended : Type 0 where
  pub runtime : Runtime
  pub ran : List String
  pub result : Result

unfoldable pub map_key : (workflow_id idempotency_key : String) → String
map_key workflow_id idempotency_key = concat workflow_id (concat ":" idempotency_key)

unfoldable pub get_state_file : (workflow_id idempotency_key : String) → String
get_state_file workflow_id idempotency_key =
    concat workflow_id (concat "-" (concat idempotency_key ".json"))

-- `loadPersistedState`: `none` for its error, `some none` without a file.
unfoldable pub check_file :
    (workflow_id idempotency_key : String) → Option File → Option (Option WorkflowState)
check_file workflow_id idempotency_key none = some none
check_file workflow_id idempotency_key (some invalid_file) = none
check_file workflow_id idempotency_key (some (state_file st)) =
    if st.workflow_id == workflow_id && st.idempotency_key == idempotency_key
    then some (some st)
    else none

unfoldable pub load_persisted_state :
    (workflow_id idempotency_key : String) → Runtime → Option (Option WorkflowState)
unfolding check_file get_state_file
load_persisted_state workflow_id idempotency_key r =
    check_file workflow_id idempotency_key
      (get (get_state_file workflow_id idempotency_key) r.files)

unfoldable pub persist : WorkflowState → Runtime → Runtime
unfolding get_state_file
persist st r = record r {
  files = set (get_state_file st.workflow_id st.idempotency_key) (state_file st) r.files;
}

-- The map's entry and the state of the call are one object where the call took it from the map.
unfoldable pub share_found :
    (key : String) → WorkflowState → Option WorkflowState → Runtime → Runtime
share_found key st none r = r
share_found key st (some old) r = record r { memory = set key st r.memory }

unfoldable pub share : (key : String) → WorkflowState → Runtime → Runtime
unfolding share_found
share key st r = share_found key st (get key r.memory) r

unfoldable pub complete : (step_id : String) → WorkflowState → WorkflowState
complete step_id st = record st { completed_step_ids = st.completed_step_ids ++ step_id ∷ [] }

abbrev pub after_step : (step_id : String) → Ended → Ended
after_step step_id e = record e { ran = step_id ∷ e.ran }

unfoldable pub run_steps :
    (key : String) → Answers → List WorkflowStep → WorkflowState → Runtime → Ended
unfolding persist share complete
run_steps key a [] st r = record {
  runtime = record r { memory = set key st r.memory };
  ran = [];
  result = finished st;
}
run_steps key a (step ∷ steps) st r =
    let st' = complete step.id st in
    let shared = share key st' r in
    let skipped = run_steps key a steps st r in
    let rest = run_steps key a steps st' (persist st' shared) in
    if mem step.id st.completed_step_ids
    then skipped
    else (if step.requires_approval && not (a.approves step.id)
        then record { runtime = r; ran = []; result = denied step.id }
        else (if not (a.succeeds step.id)
            then record { runtime = r; ran = []; result = step_failed step.id }
            else (if not (a.writes step.id)
                then record {
                  runtime = shared;
                  ran = step.id ∷ [];
                  result = persist_failed step.id;
                }
                else after_step step.id rest)))

abbrev pub new_state : (workflow_id idempotency_key : String) → WorkflowState
new_state workflow_id idempotency_key = record {
  workflow_id = workflow_id;
  idempotency_key = idempotency_key;
  completed_step_ids = [];
}

unfoldable pub run_found :
    WorkflowDefinition
    → (idempotency_key : String) → Answers
    → Option (Option WorkflowState)
    → Runtime
    → Ended
unfolding run_steps map_key
run_found def idempotency_key a none r = record { runtime = r; ran = []; result = state_invalid }
run_found def idempotency_key a (some none) r =
    run_steps (map_key def.id idempotency_key) a def.steps (new_state def.id idempotency_key) r
run_found def idempotency_key a (some (some st)) r =
    run_steps (map_key def.id idempotency_key) a def.steps st r

-- The state in the map, or else the file's.
unfoldable pub existing_found :
    WorkflowDefinition
    → (idempotency_key : String) → Option WorkflowState
    → Runtime
    → Option (Option WorkflowState)
unfolding load_persisted_state
existing_found def idempotency_key none r = load_persisted_state def.id idempotency_key r
existing_found def idempotency_key (some st) r = some (some st)

unfoldable pub existing :
    WorkflowDefinition → (idempotency_key : String) → Runtime → Option (Option WorkflowState)
unfolding existing_found map_key
existing def idempotency_key r =
    existing_found def idempotency_key (get (map_key def.id idempotency_key) r.memory) r

unfoldable pub run : WorkflowDefinition → (idempotency_key : String) → Answers → Runtime → Ended
unfolding run_found existing
run def idempotency_key a r = run_found def idempotency_key a (existing def idempotency_key r) r

-- The runtime that another process makes over the same directory.
unfoldable pub restart : Runtime → Runtime
restart r = record r { memory = [] }
