-- ===== src/ToolRouter/Decisions.antt =====
-- `ToolRouter.execute` of src/tools.ts: what is logged and counted.
use cursor_claw.Base.{
  ℕ, suc, ◌+◌, ◌≡◌, refl, ap, Bool, true, false, not, ◌&&◌, Option, none, some, List, [], ◌∷◌, ◌++◌,
  ◌==◌, string_eq, if◌then◌else◌, arith, Bool-cases, inl, inr, eq_of_==,
}
use cursor_claw.Base.Dict.{get, set, or_else, get-set}
use cursor_claw.Approvals.Args.{Value}
use cursor_claw.ToolRouter.{
  is_empty, normalize_exec_args, exec_value, ReasonCode, allowed, tool_unknown, tool_schema_invalid,
  tool_policy_blocked, tool_approval_required, tool_exec_denied, code_eq, Ending, resolves, throws,
  ToolDefinition, Options, ToolCall, Router, Reply, unknown_tool, isolation_error, command_error,
  args_error, approval_error, ended, log_decision, answer, ends_with, run_tool, question, ask_gate,
  check_args, check_command, execute_found, execute,
}

abbrev pub is_resolved : Reply → Bool
is_resolved (ended (resolves v)) = true
is_resolved _ = false

abbrev pub tally : ReasonCode → List (ReasonCode × ℕ) → ℕ
tally code counts = or_else (get code counts) 0

abbrev pub times : ReasonCode → List (Bool × ReasonCode) → ℕ
times code [] = 0
times code ((allow, c) ∷ logs) = (if c == code then 1 else 0) + times code logs

times-append :
    (code c : ReasonCode) (allow : Bool) (logs : List (Bool × ReasonCode))
    → times code (logs ++ (allow, c) ∷ []) ≡ times code logs + (if c == code then 1 else 0)
times-append code c allow [] = omega arith
times-append code c allow ((b, d) ∷ logs) = omega (arith, times-append code c allow logs)

module _ {S : Type 0} (o : Options S) where
  -- One entry is logged and counted between the two.
  abbrev pub LogsOnce : (before after : Router S) → Reply → Type 0
  LogsOnce r r' reply =
      (code : ReasonCode) × ((r'.decision_logs ≡ r.decision_logs ++ (is_resolved reply, code) ∷ [])
        × ((c : ReasonCode)
            → tally c r'.decision_count ≡ tally c r.decision_count + (if code == c then 1 else 0)))

  tally-set :
      (code c : ReasonCode) (counts : List (ReasonCode × ℕ))
      → tally c (set code (suc (tally code counts)) counts)
        ≡ tally c counts + (if code == c then 1 else 0)
  tally-set code c counts = elim (Bool-cases (code == c)) [
    | inl e ↦
        let same = eq_of_== code c e in
        rw (get-set code c (suc (tally code counts)) counts, e, same) (omega arith)
    | inr e ↦ rw (get-set code c (suc (tally code counts)) counts, e) (omega arith)
  ]

  logged-LogsOnce :
      (allow : Bool) (code : ReasonCode) (reply : Reply) (r : Router S)
      → is_resolved reply ≡ allow
      → LogsOnce r (answer allow code reply r).0 (answer allow code reply r).1
  unfolding log_decision
  logged-LogsOnce allow code reply r e = (code, (rw e, λ c. tally-set code c r.decision_count))

  run_tool-LogsOnce :
      (tool : ToolDefinition S) (args : Value) (r : Router S)
      → LogsOnce r (run_tool tool args r).0 (run_tool tool args r).1
  unfolding run_tool
  run_tool-LogsOnce tool args r =
      go (tool.execute args r.state).1 (record r { state = (tool.execute args r.state).0 })
    where
      go : (e : Ending) (r' : Router S) → LogsOnce r' (ends_with e r').0 (ends_with e r').1
      go (resolves v) r' = logged-LogsOnce true allowed (ended (resolves v)) r' refl
      go (throws m) r' = logged-LogsOnce false tool_exec_denied (ended (throws m)) r' refl

  ask_gate-LogsOnce :
      (tool : ToolDefinition S) (call : ToolCall) (args : Value) (r : Router S)
      → LogsOnce r (ask_gate o tool call args r).0 (ask_gate o tool call args r).1
  unfolding ask_gate
  ask_gate-LogsOnce tool call args r =
      let asked = o.gate.approve (question call args) r.state in
      elim (Bool-cases asked.1) [
        | inl e ↦ rw e (run_tool-LogsOnce tool args (record r { state = asked.0 }))
        | inr e ↦ rw e (
            logged-LogsOnce false tool_approval_required
              (approval_error (o.gate.request_id asked.0)) (record r { state = asked.0 }) refl)
      ]

  check_args-LogsOnce :
      (tool : ToolDefinition S) (call : ToolCall) (args : Value) (r : Router S)
      → LogsOnce r (check_args o tool call args r).0 (check_args o tool call args r).1
  unfolding check_args
  check_args-LogsOnce tool call args r = elim (Bool-cases (o.validates tool.schema args)) [
    | inr e ↦ rw e (logged-LogsOnce false tool_schema_invalid args_error r refl)
    | inl e ↦ rw e (elim (Bool-cases (tool.is_high_risk && not (call.name == "exec"))) [
      | inl high ↦ rw high (ask_gate-LogsOnce tool call args r)
      | inr low ↦ rw low (run_tool-LogsOnce tool args r)
    ])
  ]

  check_command-LogsOnce :
      (tool : ToolDefinition S) (call : ToolCall) (r : Router S)
      → LogsOnce r (check_command o tool call r).0 (check_command o tool call r).1
  unfolding check_command
  check_command-LogsOnce tool call r = elim (Bool-cases (call.name == "exec")) [
    | inr e ↦ let h = check_args-LogsOnce tool call call.args r in rw e (rw e at h)
    | inl e ↦
        let args = normalize_exec_args o.texts call.args in
        elim (Bool-cases (is_empty (o.texts.trim args.command))) [
          | inl empty ↦
              rw (e, empty) (logged-LogsOnce false tool_schema_invalid command_error r refl)
          | inr full ↦
              let h = check_args-LogsOnce tool call (exec_value args) r in rw (e, full) (rw e at h)
        ]
  ]

  execute_found-LogsOnce :
      (found : Option (ToolDefinition S)) (call : ToolCall) (r : Router S)
      → LogsOnce r (execute_found o found call r).0 (execute_found o found call r).1
  unfolding execute_found
  execute_found-LogsOnce none call r = logged-LogsOnce false tool_unknown unknown_tool r refl
  execute_found-LogsOnce (some tool) call r =
      elim (Bool-cases (o.is_tool_isolation_enabled r.state && tool.is_high_risk)) [
        | inl e ↦ rw e (logged-LogsOnce false tool_policy_blocked isolation_error r refl)
        | inr e ↦ rw e (check_command-LogsOnce tool call r)
      ]

  -- Every call logs exactly one decision, also when a tool throws, and counts it under its reason: it
  -- allows when the tool's promise resolves, and denies otherwise.
  pub execute-LogsOnce :
      (call : ToolCall) (r : Router S) → LogsOnce r (execute o call r).0 (execute o call r).1
  unfolding execute
  execute-LogsOnce call r = execute_found-LogsOnce (get call.name r.tools) call r

  -- The calls of a turn, in their order.
  abbrev pub execute_all : List ToolCall → Router S → Router S
  execute_all [] r = r
  execute_all (call ∷ calls) r = execute_all calls (execute o call r).0

  -- When the counters agree with the log before, they do after any calls: the count of every reason is
  -- the number of the log's entries with that reason.
  pub tally-execute_all :
      (calls : List ToolCall) (r : Router S)
      → ((c : ReasonCode) → tally c r.decision_count ≡ times c r.decision_logs)
      → (c : ReasonCode)
      → tally c (execute_all calls r).decision_count ≡ times c (execute_all calls r).decision_logs
  tally-execute_all [] r h c = h c
  tally-execute_all (call ∷ calls) r h c =
      let r' = (execute o call r).0 in
      let (code, (logged, counted)) = execute-LogsOnce call r in
      tally-execute_all calls r'
        (λ d. omega (
          arith,
          counted d,
          h d,
          ap (times d) logged,
          times-append d code (is_resolved (execute o call r).1) r.decision_logs,
        ))
        c
