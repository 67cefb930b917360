-- ===== src/ExecTool.antt =====
-- `createExecTool` of src/tools.ts, off Windows: what stands between a command and `sandbox.run`. The
-- regular expressions, `split`, and the functions of node's `path` are given, and so is the gate.
pub mod Guards
pub mod OneUse
use cursor_claw.Base.{
  ℕ, suc, ◌-◌, Bool, true, false, ◌||◌, ◌&&◌, not, Option, none, some, List, [], ◌∷◌, ◌++◌, String,
  ◌==◌, string_eq, if◌then◌else◌, mem, any, leb,
}
use cursor_claw.Capabilities.{
  Intent, read_only, mutating, network_impacting, privilege_impacting, Provenance,
}
use cursor_claw.Approvals.{Input, intent_label, ◌+++◌}
use cursor_claw.Approvals.Args.{Value}
use cursor_claw.Base.Dict.{or_else, map_option}
use Prim.Native.String.{len, slice}
use text.Mathlib.Text.{starts_with}
use cursor_claw.Gate.{intent_eq}

-- The interface `ApprovalGate` over a state of its own; `request_id` is that of `getLastDenial`.
pub record ApprovalGate (S : Type 0) : Type 0 where
  pub approve : Input → S → S × Bool
  pub request_id : S → Option String
  pub supports_destructive_approval : Bool

pub record Platform : Type 0 where
  -- `trim().toLowerCase()`, and the tests of `classifyCommandIntent` and `isDestructiveCommand`.
  pub normalize : String → String
  pub has_privilege_word : String → Bool
  pub has_network_word : String → Bool
  pub has_mutating_word : String → Bool
  pub has_redirection : String → Bool
  pub destructive_patterns : List (String → Bool)
  -- `split(/\s+/).filter(Boolean)`.
  pub words : String → List String
  -- `resolve` of one path and of two, `sep`, and `process.cwd()`.
  pub resolve : String → String
  pub resolve_from : (base path : String) → String
  pub sep : String
  pub working_directory : String

unfoldable pub classify_command_intent : Platform → (command : String) → Intent
classify_command_intent p command =
    let normalized = p.normalize command in
    if p.has_privilege_word normalized
    then privilege_impacting
    else if p.has_network_word normalized
    then network_impacting
    else if p.has_mutating_word normalized
    then mutating
    else if p.has_redirection normalized
    then mutating
    else read_only

unfoldable pub is_destructive_command : Platform → (command : String) → Bool
is_destructive_command p command = any (λ re. re (p.normalize command)) p.destructive_patterns

abbrev ends_with : String → String → Bool
ends_with s t = leb (len t) (len s) && slice s (len s - len t) (len s) == t

unfoldable pub path_under_profile_root : Platform → (resolved_path profile_root : String) → Bool
path_under_profile_root p resolved_path profile_root =
    let a = p.resolve resolved_path in
    let b = p.resolve profile_root in
    a == b || starts_with a (if ends_with b p.sep then b else b +++ p.sep)

-- A call: the arguments, also as the value that a request keeps, and what is read of the context.
pub record Call : Type 0 where
  pub command : String
  pub cwd : Option String
  pub value : Value
  pub provenance : Option Provenance
  pub profile_root : Option String

pub record Options (S : Type 0) : Type 0 where
  pub allowed_bins : List String
  pub gate : ApprovalGate S
  pub concurrency_cap : ℕ

-- The identifiers are those of the requests that the gate names with its refusals.
pub data Outcome : Type 0 where
  max_concurrent_reached destructive_denied empty_command outside_profile_root : Outcome
  destructive_unapproved bin_denied intent_unapproved : (request_id : Option String) → Outcome
  runs : (bin : String) (bin_args : List String) (cwd : String) → Outcome

-- What a call leaves of the gate, the questions it put to it with the answers, and its outcome.
pub record Guarded (S : Type 0) : Type 0 where
  pub state : S
  pub asked : List (Input × Bool)
  pub outcome : Outcome

abbrev pub input : Call → Intent → (plan : String) → Input
input c intent plan = record {
  tool = "exec";
  intent = intent;
  plan = plan;
  args = c.value;
  provenance = c.provenance;
}

abbrev pub destructive_plan : String
destructive_plan = "destructive command signature matched"

abbrev pub bin_plan : (bin : String) → String
bin_plan bin = "bin \"" +++ bin +++ "\" not in allowlist"

abbrev pub intent_plan : Intent → String
intent_plan intent = "non-read command intent: " +++ intent_label intent

-- Absent and empty count alike.
abbrev pub non_empty : Option String → Option String
non_empty none = none
non_empty (some s) = if s == "" then none else some s

unfoldable pub choose_cwd : Platform → (profile_root cwd : Option String) → String
unfolding path_under_profile_root
choose_cwd p none cwd = or_else cwd p.working_directory
choose_cwd p (some profile_root) cwd =
    let base = p.resolve profile_root in
    let requested = or_else (map_option (p.resolve_from base) cwd) base in
    if path_under_profile_root p requested base then requested else base

unfoldable pub args_under_profile :
    Platform → (profile_root : Option String) (cwd : String) → List String → Bool
unfolding path_under_profile_root
args_under_profile p profile_root cwd [] = true
args_under_profile p none cwd (arg ∷ args) = true
args_under_profile p (some profile_root) cwd (arg ∷ args) =
    path_under_profile_root p (p.resolve_from cwd arg) profile_root
    && args_under_profile p (some profile_root) cwd args

unfoldable pub run_command :
    {S : Type 0}
    → Platform
    → Call
    → (bin : String) (bin_args : List String) → S
    → List (Input × Bool)
    → Guarded S
unfolding choose_cwd args_under_profile
run_command p c bin bin_args s asked =
    let root = non_empty c.profile_root in
    let cwd = choose_cwd p root (non_empty c.cwd) in
    record {
      state = s;
      asked = asked;
      outcome =
          if args_under_profile p root cwd bin_args
          then runs bin bin_args cwd
          else outside_profile_root;
    }

-- A question to the gate: what follows an approval, and the error of a refusal.
unfoldable pub ask :
    {S : Type 0}
    → ApprovalGate S
    → Input
    → (Option String → Outcome)
    → (S → List (Input × Bool) → Guarded S)
    → S
    → List (Input × Bool)
    → Guarded S
ask gate question refusal next s asked =
    let (s', approved) = gate.approve question s in
    let asked' = (question, approved) ∷ asked in
    let rest = next s' asked' in
    if approved
    then rest
    else record { state = s'; asked = asked'; outcome = refusal (gate.request_id s') }

unfoldable pub check_intent :
    {S : Type 0}
    → Options S
    → Platform
    → Call
    → (bin : String) (bin_args : List String) → S
    → List (Input × Bool)
    → Guarded S
unfolding ask run_command classify_command_intent
check_intent o p c bin bin_args =
    let intent = classify_command_intent p c.command in
    if intent == read_only
    then run_command p c bin bin_args
    else ask o.gate (input c intent (intent_plan intent)) intent_unapproved
        (run_command p c bin bin_args)

unfoldable pub check_bin :
    {S : Type 0} → Options S → Platform → Call → List String → S → List (Input × Bool) → Guarded S
unfolding ask check_intent classify_command_intent
check_bin o p c [] s asked = record { state = s; asked = asked; outcome = empty_command }
check_bin o p c (bin ∷ bin_args) s asked =
    if mem bin o.allowed_bins
    then check_intent o p c bin bin_args s asked
    else ask o.gate (input c (classify_command_intent p c.command) (bin_plan bin)) bin_denied
        (check_intent o p c bin bin_args) s asked

unfoldable pub check_destructive :
    {S : Type 0} → Options S → Platform → Call → S → List (Input × Bool) → Guarded S
unfolding ask check_bin is_destructive_command
check_destructive o p c s asked =
    if not (is_destructive_command p c.command)
    then check_bin o p c (p.words c.command) s asked
    else if not o.gate.supports_destructive_approval
    then record { state = s; asked = asked; outcome = destructive_denied }
    else ask o.gate (input c privilege_impacting destructive_plan) destructive_unapproved
        (check_bin o p c (p.words c.command)) s asked

-- `execute` of the tool while `concurrent_execs` executions are under way.
unfoldable pub execute :
    {S : Type 0} → Options S → Platform → (concurrent_execs : ℕ) → Call → S → Guarded S
unfolding check_destructive
execute o p concurrent_execs c s =
    if leb o.concurrency_cap concurrent_execs
    then record { state = s; asked = []; outcome = max_concurrent_reached }
    else check_destructive o p c s []
