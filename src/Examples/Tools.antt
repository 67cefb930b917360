-- ===== src/Examples/Tools.antt =====
-- The exec tool and the tool router at concrete inputs.
use cursor_claw.Base.{
  ℕ, suc, ◌<◌, ◌≡◌, ◌↔◌, refl, true, false, none, some, [], ◌∷◌, String, All, string_eq, ◌==◌,
  arith, if◌then◌else◌,
}
use cursor_claw.Base.Dict.{get}
use cursor_claw.Capabilities.{required_capabilities_for_approval}
use cursor_claw.Capabilities.Uses.{available}
use cursor_claw.Approvals.{◌+++◌}
use cursor_claw.Approvals.Args.{null, undefined}
use cursor_claw.Gate.{Gate, needed, input_scope, is_exempt}
use cursor_claw.ExecTool as Exec
use cursor_claw.ExecTool.{
  ApprovalGate, Platform, Call, input, bin_plan, classify_command_intent, is_destructive_command,
  args_under_profile, choose_cwd, non_empty,
}
use cursor_claw.ExecTool.Guards.{is_guarded, is_guarded-execute}
use cursor_claw.ExecTool.OneUse.{with_grants, is_run, intent_of, is_run-execute_iff}
use cursor_claw.ToolRouter.{
  Texts, code_eq, resolves, ToolDefinition, ToolCall, Options, Router, execute,
}
use cursor_claw.ToolRouter.Running.{is_ended, may_run, is_ended-execute}
use cursor_claw.ToolRouter.Decisions.{LogsOnce, execute-LogsOnce}

-- The command line `touch notes`, which changes files.
abbrev posix : Platform
posix = record {
  normalize = λ s. s;
  has_privilege_word = λ s. false;
  has_network_word = λ s. false;
  has_mutating_word = λ s. s == "touch notes";
  has_redirection = λ s. false;
  destructive_patterns = (λ s. s == "mkfs") ∷ [];
  words = λ s. if s == "touch notes" then "touch" ∷ "notes" ∷ [] else s ∷ [];
  resolve = λ s. s;
  resolve_from = λ base path. base +++ "/" +++ path;
  sep = "/";
  working_directory = "/";
}

abbrev touch : Call
touch = record {
  command = "touch notes";
  cwd = none;
  value = null;
  provenance = none;
  profile_root = some "/home/p";
}

abbrev gate_without_grants : Gate
gate_without_grants = record {
  options = record {
    dev_mode = false;
    allow_read_only_without_grant = none;
    allow_mutating_without_grant = false;
    allow_net_fetch_without_grant = false;
    allow_high_risk_without_grant = false;
  };
  workflow = record {
    requests = [];
    by_fingerprint = [];
    store = record { grants = []; state_dir = false; disk = none };
    default_ttl_ms = 100;
    default_uses = 1;
    state_dir = false;
    disk = none;
  };
  last_denial = none;
}

abbrev one_id : ℕ → String
one_id n = "r"

is_run-execute_iff_example :
    (is_run
        (Exec.execute
          (with_grants ("cat" ∷ []) 5 one_id 10 posix touch)
          posix
          0
          touch
          (gate_without_grants, 0)).outcome
      ≡ true)
    ↔ All
        (λ cap.
          1
          < available cap
              (input_scope (input touch (intent_of [] 5 one_id 10 posix touch) (bin_plan "touch")))
              10
              gate_without_grants.workflow.store)
        (needed (input touch (intent_of [] 5 one_id 10 posix touch) (bin_plan "touch")))
unfolding is_destructive_command classify_command_intent args_under_profile choose_cwd is_exempt
    required_capabilities_for_approval
is_run-execute_iff_example =
    is_run-execute_iff ("cat" ∷ []) 5 one_id 10 posix touch "touch" ("notes" ∷ []) 0
      gate_without_grants (omega arith) refl refl refl refl refl refl

-- A gate that approves everything and counts the questions.
abbrev counting_gate : ApprovalGate ℕ
counting_gate = record {
  approve = λ question n. (suc n, true);
  request_id = λ n. none;
  supports_destructive_approval = true;
}

abbrev exec_options : Exec.Options ℕ
exec_options = record { allowed_bins = []; gate = counting_gate; concurrency_cap = 5 }

is_guarded-execute_example :
    is_guarded exec_options posix touch
      (Exec.execute exec_options posix 0 touch 0).outcome
      (Exec.execute exec_options posix 0 touch 0).asked
    ≡ true
is_guarded-execute_example = is_guarded-execute exec_options posix touch (λ path. refl) 0 0

abbrev texts : Texts
texts = record { parse = λ s. none; trim = λ s. s; show = λ v. [] }

abbrev router_options : Options ℕ
router_options = record {
  gate = counting_gate;
  is_tool_isolation_enabled = λ n. false;
  validates = λ schema args. true;
  texts = texts;
}

abbrev write_tool : ToolDefinition ℕ
write_tool = record {
  name = "gh_pr_write";
  schema = undefined;
  is_high_risk = true;
  execute = λ args n. (n, resolves null);
}

abbrev router : Router ℕ
router = record {
  tools = ("gh_pr_write", write_tool) ∷ [];
  state = 0;
  decision_count = [];
  decision_logs = [];
}

abbrev write_call : ToolCall
write_call = record { name = "gh_pr_write"; args = null; provenance = none }

abbrev unknown_call : ToolCall
unknown_call = record { name = "other"; args = null; provenance = none }

is_ended-execute_example :
    is_ended (execute router_options write_call router).1
    ≡ may_run router_options (get "gh_pr_write" router.tools) write_call 0
is_ended-execute_example = is_ended-execute router_options write_call router

execute-LogsOnce_example :
    LogsOnce router_options router
      (execute router_options write_call router).0
      (execute router_options write_call router).1
execute-LogsOnce_example = execute-LogsOnce router_options write_call router
