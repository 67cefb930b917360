-- ===== src/ToolRouter/Running.antt =====
-- `ToolRouter.execute` of src/tools.ts: when a tool runs.
use cursor_claw.Base.{
  ◌≡◌, refl, Bool, true, false, not, ◌||◌, ◌&&◌, Option, none, some, ◌==◌, string_eq, if◌then◌else◌,
  arith, Bool-cases, inl, inr,
}
use cursor_claw.Base.Dict.{get}
use cursor_claw.Approvals.Args.{Value}
use cursor_claw.ToolRouter.{
  is_empty, normalize_exec_args, exec_value, code_eq, Ending, resolves, throws, ToolDefinition,
  Options, ToolCall, Router, Reply, ended, ends_with, run_tool, question, ask_gate, check_args,
  check_command, execute_found, execute,
}

abbrev pub is_ended : Reply → Bool
is_ended (ended e) = true
is_ended _ = false

module _ {S : Type 0} (o : Options S) where
  -- The arguments that the tool is to get.
  abbrev pub args_for : ToolCall → Value
  args_for call =
      if call.name == "exec" then exec_value (normalize_exec_args o.texts call.args) else call.args

  abbrev pub has_command : ToolCall → Bool
  has_command call =
      not (call.name == "exec")
      || not (is_empty (o.texts.trim (normalize_exec_args o.texts call.args).command))

  -- A high-risk tool other than `exec`, which asks the gate itself, needs the gate's approval.
  abbrev pub is_approved : ToolDefinition S → ToolCall → S → Bool
  is_approved tool call s =
      not tool.is_high_risk
      || (call.name == "exec" || (o.gate.approve (question call (args_for call)) s).1)

  abbrev pub may_run : Option (ToolDefinition S) → ToolCall → S → Bool
  may_run none call s = false
  may_run (some tool) call s =
      not (o.is_tool_isolation_enabled s && tool.is_high_risk)
      && (has_command call && (o.validates tool.schema (args_for call) && is_approved tool call s))

  is_ended-ends_with : (e : Ending) (r : Router S) → is_ended (ends_with e r).1 ≡ true
  is_ended-ends_with (resolves v) r = refl
  is_ended-ends_with (throws m) r = refl

  is_ended-run_tool :
      (tool : ToolDefinition S) (args : Value) (r : Router S)
      → is_ended (run_tool tool args r).1 ≡ true
  unfolding run_tool
  is_ended-run_tool tool args r =
      let (s, ending) = tool.execute args r.state in
      is_ended-ends_with ending (record r { state = s })

  is_ended-check_args :
      (tool : ToolDefinition S) (call : ToolCall) (args : Value) (r : Router S)
      → is_ended (check_args o tool call args r).1 ≡ (
          o.validates tool.schema args
          && (not tool.is_high_risk
              || (call.name == "exec" || (o.gate.approve (question call args) r.state).1)))
  unfolding check_args ask_gate
  is_ended-check_args tool call args r =
      let s' = (o.gate.approve (question call args) r.state).0 in
      ground (
        arith,
        is_ended-run_tool tool args r,
        is_ended-run_tool tool args (record r { state = s' }),
      )

  is_ended-check_command :
      (tool : ToolDefinition S) (call : ToolCall) (r : Router S)
      → is_ended (check_command o tool call r).1 ≡ (
          has_command call
          && (o.validates tool.schema (args_for call) && is_approved tool call r.state))
  unfolding check_command
  is_ended-check_command tool call r = elim (Bool-cases (call.name == "exec")) [
    | inr e ↦ let h = is_ended-check_args tool call call.args r in rw e (rw e at h)
    | inl e ↦
        let args = normalize_exec_args o.texts call.args in
        elim (Bool-cases (is_empty (o.texts.trim args.command))) [
          | inl empty ↦ rw (e, empty)
          | inr full ↦
              let h = is_ended-check_args tool call (exec_value args) r in rw (e, full) (rw e at h)
        ]
  ]

  is_ended-execute_found :
      (found : Option (ToolDefinition S)) (call : ToolCall) (r : Router S)
      → is_ended (execute_found o found call r).1 ≡ may_run found call r.state
  unfolding execute_found
  is_ended-execute_found none call r = refl
  is_ended-execute_found (some tool) call r =
      elim (Bool-cases (o.is_tool_isolation_enabled r.state && tool.is_high_risk)) [
        | inl e ↦ rw e
        | inr e ↦ rw e (is_ended-check_command tool call r)
      ]

  -- A call ends with what a tool ended with, exactly when the tool is registered, is not of high risk
  -- under isolation, gets arguments that its schema allows (with a command that is not blank for
  -- `exec`), and is of low risk, or `exec`, or was approved by the gate for this call.
  pub is_ended-execute :
      (call : ToolCall) (r : Router S)
      → is_ended (execute o call r).1 ≡ may_run (get call.name r.tools) call r.state
  unfolding execute
  is_ended-execute call r = is_ended-execute_found (get call.name r.tools) call r
