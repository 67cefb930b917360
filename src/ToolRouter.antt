-- ===== src/ToolRouter.antt =====
-- `ToolRouter` and `normalizeExecArgs` of src/tools.ts. A text in a value is the list of its code
-- units. `JSON.parse`, `trim`, `String` and the validators that ajv compiles are given, and so are the
-- tools and the gate, which act on one state. The details of a decision and the journal are left out.
pub mod Normalizing
pub mod Running
pub mod Decisions
use cursor_claw.Base.{
  ℕ, suc, ◌+◌, Bool, true, false, ◌||◌, ◌&&◌, not, Option, none, some, List, [], ◌∷◌, ◌++◌, String,
  ◌==◌, string_eq, nat_eq, if◌then◌else◌, Eq, eqb, ◌≡◌, ◌↔◌, arith,
}
use cursor_claw.Base.Dict.{get, set, or_else}
use cursor_claw.Capabilities.{Provenance, high_risk_tool}
use cursor_claw.Approvals.{Input}
use cursor_claw.Approvals.Args.{
  Value, null, undefined, bool, num, text, array, object, Fields, no_fields, entry,
}
use cursor_claw.ExecTool.{ApprovalGate}

pub record Texts : Type 0 where
  pub parse : List ℕ → Option Value
  pub trim : List ℕ → List ℕ
  pub show : Value → List ℕ

pub record ExecArgs : Type 0 where
  pub command : List ℕ
  pub cwd : Option (List ℕ)

abbrev pub lookup : String → Fields → Value
lookup k no_fields = undefined
lookup k (entry j v fs) = if j == k then v else lookup k fs

abbrev pub fields_of : Value → Fields
fields_of (object fs) = fs
fields_of _ = no_fields

abbrev pub is_empty : List ℕ → Bool
is_empty [] = true
is_empty (x ∷ xs) = false

abbrev pub fields_of_parsed : (s : List ℕ) → Option Value → Fields
fields_of_parsed s none = entry "command" (text s) no_fields
fields_of_parsed s (some v) = fields_of v

unfoldable pub read_fields : Texts → Value → Fields
read_fields t (text s) = fields_of_parsed s (t.parse s)
read_fields t v = fields_of v

-- `String(obj.command ?? "").trim()`, and the text itself for a text. `String` is taken to answer a
-- text for every value, so an object whose `toString` throws is left out.
unfoldable pub read_command : Texts → Value → List ℕ
read_command t null = t.trim []
read_command t undefined = t.trim []
read_command t (text s) = t.trim s
read_command t v = t.trim (t.show v)

-- The trimmed text of a value, and nothing for another value.
abbrev pub trimmed_text : Texts → Value → List ℕ
trimmed_text t (text s) = t.trim s
trimmed_text t _ = []

abbrev pub parsed_command : Texts → Option Value → List ℕ
parsed_command t none = []
parsed_command t (some v) = trimmed_text t (lookup "command" (fields_of v))

-- The command in `raw`, or else all of it.
unfoldable pub recover_command : Texts → (raw : List ℕ) → List ℕ
recover_command t raw =
    let command = parsed_command t (t.parse raw) in if is_empty command then raw else command

abbrev pub non_empty_text : Value → Option (List ℕ)
non_empty_text (text s) = if is_empty s then none else some s
non_empty_text _ = none

unfoldable pub normalize_exec_args : Texts → Value → ExecArgs
unfolding read_fields read_command recover_command
normalize_exec_args t args =
    let obj = read_fields t args in
    let command = read_command t (lookup "command" obj) in
    let raw = trimmed_text t (lookup "raw" obj) in
    record {
      command = if is_empty command && not (is_empty raw) then recover_command t raw else command;
      cwd = non_empty_text (lookup "cwd" obj);
    }

abbrev pub cwd_field : Option (List ℕ) → Fields
cwd_field none = no_fields
cwd_field (some s) = entry "cwd" (text s) no_fields

abbrev pub exec_value : ExecArgs → Value
exec_value a = object (entry "command" (text a.command) (cwd_field a.cwd))

pub data ReasonCode : Type 0 where
  allowed tool_unknown tool_schema_invalid tool_policy_blocked tool_approval_required
        tool_exec_denied :
      ReasonCode

abbrev code_tag : ReasonCode → ℕ
code_tag allowed = 0
code_tag tool_unknown = 1
code_tag tool_schema_invalid = 2
code_tag tool_policy_blocked = 3
code_tag tool_approval_required = 4
code_tag tool_exec_denied = 5

pub code_is_same_iff : (a b : ReasonCode) → (eqb (code_tag a) (code_tag b) ≡ true) ↔ (a ≡ b)
code_is_same_iff a b = ground arith

instance abbrev pub code_eq : Eq ReasonCode
code_eq = record { is_same = λ a b. eqb (code_tag a) (code_tag b); is_same_iff = code_is_same_iff }

-- What a tool's `execute` ends with.
pub data Ending : Type 0 where
  resolves : Value → Ending
  throws : (message : String) → Ending

pub record ToolDefinition (S : Type 0) : Type 0 where
  pub name : String
  pub schema : Value
  pub is_high_risk : Bool
  pub execute : Value → S → S × Ending

pub record Options (S : Type 0) : Type 0 where
  pub gate : ApprovalGate S
  pub is_tool_isolation_enabled : S → Bool
  pub validates : (schema args : Value) → Bool
  pub texts : Texts

pub record ToolCall : Type 0 where
  pub name : String
  pub args : Value
  pub provenance : Option Provenance

-- The registered tools, the state they act on, the counters and the decision log of the turn.
pub record Router (S : Type 0) : Type 0 where
  pub tools : List (String × ToolDefinition S)
  pub state : S
  pub decision_count : List (ReasonCode × ℕ)
  pub decision_logs : List (Bool × ReasonCode)

pub data Reply : Type 0 where
  unknown_tool isolation_error command_error args_error : Reply
  approval_error : (request_id : Option String) → Reply
  ended : Ending → Reply

unfoldable pub register : {S : Type 0} → ToolDefinition S → Router S → Router S
register def r = record r { tools = set def.name def r.tools }

unfoldable pub log_decision : {S : Type 0} → (allow : Bool) → ReasonCode → Router S → Router S
log_decision allow code r = record r {
  decision_count = set code (suc (or_else (get code r.decision_count) 0)) r.decision_count;
  decision_logs = r.decision_logs ++ (allow, code) ∷ [];
}

abbrev pub answer : {S : Type 0} → (allow : Bool) → ReasonCode → Reply → Router S → Router S × Reply
answer allow code reply r = (log_decision allow code r, reply)

abbrev pub ends_with : {S : Type 0} → Ending → Router S → Router S × Reply
ends_with (resolves v) r = answer true allowed (ended (resolves v)) r
ends_with (throws message) r = answer false tool_exec_denied (ended (throws message)) r

unfoldable pub run_tool :
    {S : Type 0} → ToolDefinition S → (args : Value) → Router S → Router S × Reply
unfolding log_decision
run_tool tool args r =
    let (s, ending) = tool.execute args r.state in ends_with ending (record r { state = s })

abbrev pub question : ToolCall → (args : Value) → Input
question call args = record {
  tool = call.name;
  intent = high_risk_tool;
  plan = "High-risk tool invocation proposed by model";
  args = args;
  provenance = call.provenance;
}

unfoldable pub ask_gate :
    {S : Type 0}
    → Options S
    → ToolDefinition S
    → ToolCall
    → (args : Value) → Router S
    → Router S × Reply
unfolding run_tool log_decision
ask_gate o tool call args r =
    let (s, approved) = o.gate.approve (question call args) r.state in
    let r' = record r { state = s } in
    if approved
    then run_tool tool args r'
    else answer false tool_approval_required (approval_error (o.gate.request_id s)) r'

unfoldable pub check_args :
    {S : Type 0}
    → Options S
    → ToolDefinition S
    → ToolCall
    → (args : Value) → Router S
    → Router S × Reply
unfolding ask_gate run_tool log_decision
check_args o tool call args r =
    if not (o.validates tool.schema args)
    then answer false tool_schema_invalid args_error r
    else if tool.is_high_risk && not (call.name == "exec")
    then ask_gate o tool call args r
    else run_tool tool args r

unfoldable pub check_command :
    {S : Type 0} → Options S → ToolDefinition S → ToolCall → Router S → Router S × Reply
unfolding check_args log_decision normalize_exec_args
check_command o tool call r =
    let exec_args = normalize_exec_args o.texts call.args in
    if not (call.name == "exec")
    then check_args o tool call call.args r
    else if is_empty (o.texts.trim exec_args.command)
    then answer false tool_schema_invalid command_error r
    else check_args o tool call (exec_value exec_args) r

unfoldable pub execute_found :
    {S : Type 0} → Options S → Option (ToolDefinition S) → ToolCall → Router S → Router S × Reply
unfolding check_command log_decision
execute_found o none call r = answer false tool_unknown unknown_tool r
execute_found o (some tool) call r =
    if o.is_tool_isolation_enabled r.state && tool.is_high_risk
    then answer false tool_policy_blocked isolation_error r
    else check_command o tool call r

unfoldable pub execute : {S : Type 0} → Options S → ToolCall → Router S → Router S × Reply
unfolding execute_found
execute o call r = execute_found o (get call.name r.tools) call r
