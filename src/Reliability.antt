-- ===== src/Reliability.antt =====
-- src/reliability: the failure loop guard, the reasoning reset and the confidence model. A text is
-- the list of its UTF-16 code units.
pub mod Guarding
pub mod Resetting
pub mod Scoring
use cursor_claw.Base.{
  ℕ, ◌+◌, ◌-◌, ◌*◌, ◌≡◌, Bool, true, false, not, ◌&&◌, Option, none, some, List, [], ◌∷◌, ◌++◌,
  String, ltb, leb, eqb, min, max, if◌then◌else◌, ◌==◌, string_eq, codes_eq, take,
}
use cursor_claw.Base.Dict.{or_else, get, set, delete}
use cursor_claw.Cron.Duration.{is_digit, is_space}

-- failure-loop.ts

pub record FailureState : Type 0 where
  pub signature : List ℕ
  pub count : ℕ

abbrev pub Guard : Type 0
Guard = List (String × FailureState)

-- `replace(/\d+/g, "#")`; the flag says that the run of digits is replaced already.
pub replace_digits : Bool → List ℕ → List ℕ
replace_digits in_run [] = []
replace_digits in_run (c ∷ cs) =
    let rest = replace_digits (is_digit c) cs in
    if is_digit c then (if in_run then rest else b'#' ∷ rest) else c ∷ rest

-- `replace(/\s+/g, " ")`.
pub replace_spaces : Bool → List ℕ → List ℕ
replace_spaces in_run [] = []
replace_spaces in_run (c ∷ cs) =
    let rest = replace_spaces (is_space c) cs in
    if is_space c then (if in_run then rest else 32 ∷ rest) else c ∷ rest

-- `toLowerCase` of the whole text is an argument.
pub normalize_error_signature : (to_lower : List ℕ → List ℕ) → List ℕ → List ℕ
normalize_error_signature to_lower raw =
    take 300 (replace_spaces false (replace_digits false (to_lower raw)))

abbrev pub first_failure : List ℕ → FailureState
first_failure signature = record { signature = signature; count = 1 }

pub bump : List ℕ → Option FailureState → FailureState
bump signature none = first_failure signature
bump signature (some st) =
    if not (st.signature == signature)
    then first_failure signature
    else record st { count = st.count + 1 }

unfoldable pub record_failure :
    (to_lower : List ℕ → List ℕ) → (session : String) (error : List ℕ) → Guard → Guard
unfolding bump
record_failure to_lower session error g =
    set session (bump (normalize_error_signature to_lower error) (get session g)) g

unfoldable pub record_success : String → Guard → Guard
record_success session g = delete session g

abbrev pub count_of : Option FailureState → ℕ
count_of none = 0
count_of (some st) = st.count

unfoldable pub get_failure_count : String → Guard → ℕ
get_failure_count session g = count_of (get session g)

abbrev pub reaches : ℕ → Option FailureState → Bool
reaches threshold none = false
reaches threshold (some st) = leb threshold st.count

unfoldable pub requires_step_back : (threshold : ℕ) (session : String) → Guard → Bool
requires_step_back threshold session g = reaches threshold (get session g)

-- reasoning-reset.ts

pub record Iteration : Type 0 where
  pub count : ℕ
  pub reset_count : ℕ
  pub last_reset_at : Option ℕ

abbrev pub no_iteration : Iteration
no_iteration = record { count = 0; reset_count = 0; last_reset_at = none }

abbrev pub Resets : Type 0
Resets = List (String × Iteration)

pub next_iteration : (threshold now : ℕ) → Iteration → Iteration × Bool
next_iteration threshold now st =
    if leb threshold (st.count + 1)
    then (record { count = 0; reset_count = st.reset_count + 1; last_reset_at = some now }, true)
    else (record st { count = st.count + 1 }, false)

unfoldable pub get_state : String → Resets → Iteration
get_state session m = or_else (get session m) no_iteration

-- The new states, and the answer's `shouldReset`; its other fields are those of `get_state`.
unfoldable pub note_iteration :
    (threshold : ℕ) (session : String) (now : ℕ) → Resets → Resets × Bool
unfolding next_iteration get_state
note_iteration threshold session now m =
    let (st, should_reset) = next_iteration threshold now (get_state session m) in
    (set session st m, should_reset)

unfoldable pub note_task_resolved : String → Resets → Resets
note_task_resolved session m = delete session m

-- confidence-model.ts

pub record ConfidenceInput : Type 0 where
  pub failure_count : ℕ
  pub has_deep_scan : Bool
  pub plugin_diagnostic_count : ℕ
  pub tool_call_count : ℕ
  pub has_recent_tests_passing : Bool

pub data Rationale : Type 0 where
  failure_count plugin_diagnostics high_tool_call_volume : ℕ → Rationale
  deep_scan_enabled recent_tests_passing recent_tests_not_confirmed : Rationale

-- The score of whole numbers is whole, so `Math.round` changes nothing; nor does `max` at 0.
pub clamp_confidence : ℕ → ℕ
clamp_confidence value = max 0 (min 100 value)

-- The score starts at 82 and loses at most 62, so the subtractions do not stop at 0.
unfoldable pub score : ConfidenceInput → ℕ
unfolding clamp_confidence
score i =
    let after_failures = if ltb 0 i.failure_count then 82 - min 35 (i.failure_count * 12) else 82 in
    let after_plugins =
      if ltb 0 i.plugin_diagnostic_count
      then after_failures - min 15 (i.plugin_diagnostic_count * 4)
      else after_failures in
    let after_tools =
      if ltb 8 i.tool_call_count
      then after_plugins - min 12 (i.tool_call_count - 8)
      else after_plugins in
    let after_scan = if i.has_deep_scan then after_tools + 8 else after_tools in
    clamp_confidence (if i.has_recent_tests_passing then after_scan + 10 else after_scan)

abbrev note_if : Bool → Rationale → List Rationale
note_if true r = r ∷ []
note_if false r = []

unfoldable pub rationale : ConfidenceInput → List Rationale
rationale i =
    note_if (ltb 0 i.failure_count) (failure_count i.failure_count)
    ++ (note_if (ltb 0 i.plugin_diagnostic_count) (plugin_diagnostics i.plugin_diagnostic_count)
        ++ (note_if (ltb 8 i.tool_call_count) (high_tool_call_volume i.tool_call_count)
            ++ (note_if i.has_deep_scan deep_scan_enabled
                ++ ((if i.has_recent_tests_passing
                      then recent_tests_passing
                      else recent_tests_not_confirmed)
                    ∷ []))))
