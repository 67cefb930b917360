-- ===== src/Examples/Grants.antt =====
-- The approvals and the capability grants at concrete inputs.
use cursor_claw.Base.{
  ℕ, ◌+◌, ◌≡◌, ◌≢◌, refl, ◌↔◌, true, false, none, some, [], ◌∷◌, String, ◌==◌, string_eq, nat_eq,
  arith, All, ◌<◌,
}
use cursor_claw.Base.Dict.{get, map_values, values}
use cursor_claw.Capabilities.{
  process_exec, process_exec_mutate, capability_eq, mutating, operator, Store, Grant,
  consume_required, all_consumable, prune_expired, required_capabilities_for_approval,
}
use cursor_claw.Capabilities.Uses.{available}
use cursor_claw.Approvals.{
  Input, Workflow, Request, Resolution, approve, request, resolve, expire_stale_requests,
  new_request, denied,
}
use cursor_claw.Approvals.Args.{Value, null, text, array, no_items, item}
use cursor_claw.Approvals.Issuing.{awarded, available-resolve}
use cursor_claw.Gate.{Gate, needed, input_scope, is_exempt, after_consume}
use cursor_claw.Gate.{approve as gate_approve}
use cursor_claw.Gate.Grants.{approve-eq-true_iff, approve_after_resolve}

abbrev write_call : Input
write_call = record {
  tool = "exec";
  intent = mutating;
  plan = "touch a";
  args = null;
  provenance = some operator;
}

abbrev one_grant : Grant
one_grant = record {
  id = "g";
  capability = process_exec;
  scope = "exec";
  issued_at = 0;
  expires_at = 100;
  uses_remaining = 2;
}

abbrev empty_store : Store
empty_store = record { grants = []; state_dir = false; disk = none }

abbrev small_store : Store
small_store = record { grants = (process_exec, one_grant ∷ []) ∷ []; state_dir = true; disk = none }

abbrev no_requests : Workflow
no_requests = record {
  requests = [];
  by_fingerprint = [];
  store = empty_store;
  default_ttl_ms = 900000;
  default_uses = 1;
  state_dir = false;
  disk = none;
}

abbrev strict_gate : Gate
strict_gate = record {
  options = record {
    dev_mode = false;
    allow_read_only_without_grant = none;
    allow_mutating_without_grant = false;
    allow_net_fetch_without_grant = false;
    allow_high_risk_without_grant = false;
  };
  workflow = no_requests;
  last_denial = none;
}

abbrev approval : Resolution
approval = record {
  request_id = "r1";
  decision = approve;
  reason = none;
  grant_ttl_ms = none;
  grant_uses = none;
}

-- Texts that the comparison tells apart.
string_ne : {a b : String} → (a == b) ≡ false → a ≢ b
string_ne {a} {b} e p = cc (e, (string_eq.is_same_iff a b).1 p)

abbrev grant_ids : ℕ → String
grant_ids i = "g1"

approve_after_resolve_example :
    let g' = (gate_approve write_call "r1" 0 strict_gate).0 in
    let w = (resolve approval grant_ids 10 g'.workflow).0 in
    (gate_approve write_call "r2" 20 (record g' { workflow = w })).1 ≡ true
unfolding is_exempt gate_approve after_consume consume_required all_consumable prune_expired
    required_capabilities_for_approval get map_values expire_stale_requests values
approve_after_resolve_example =
    approve_after_resolve write_call "r1" "r2" grant_ids 0 10 20 strict_gate approval refl refl refl
      refl refl (omega arith) (omega arith) (omega arith)

approve-eq-true_iff_example :
    ((gate_approve write_call "r1" 0 strict_gate).1 ≡ true)
    ↔ All (λ c. 0 < available c (input_scope write_call) 0 empty_store) (needed write_call)
unfolding is_exempt required_capabilities_for_approval
approve-eq-true_iff_example = approve-eq-true_iff write_call "r1" 0 strict_gate refl

abbrev filed : Workflow
filed = (request write_call "r1" 0 no_requests).0

available-resolve_example :
    available process_exec_mutate "exec" 20 (resolve approval grant_ids 10 filed).0.store
    ≡ available process_exec_mutate "exec" 20 filed.store
      + awarded approval 10 20 filed process_exec_mutate "exec" (get "r1" filed.requests)
available-resolve_example =
    available-resolve approval grant_ids 10 20 filed (omega arith) process_exec_mutate "exec"

abbrev refused : Request
refused = record (new_request write_call "r1" 0) { status = denied; denied_reason = some "no" }

abbrev with_refused : Workflow
with_refused = record no_requests { requests = ("r1", refused) ∷ [] }

abbrev long_args : Value
long_args = array (item null (item (text (b'a' ∷ b'b' ∷ [])) no_items))
