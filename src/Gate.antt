-- ===== src/Gate.antt =====
-- The approval gates of src/tools.ts. `getLastDenial` reads the `last_denial` field.
pub mod Grants
use cursor_claw.Base.{
  ℕ, ◌≡◌, refl, Bool, true, false, ◌&&◌, not, Option, none, some, List, [], ◌∷◌, String, arith,
  if◌then◌else◌, ◌==◌, string_eq, mem, Eq, eqb, ◌↔◌,
}
use cursor_claw.Base.Dict.{or_else}
use cursor_claw.Capabilities.{
  Capability, net_fetch, capability_eq, Intent, read_only, mutating, network_impacting,
  privilege_impacting, high_risk_tool, Provenance, Store, consume_required,
  required_capabilities_for_approval,
}
use cursor_claw.Approvals.{Input, Request, Workflow, request, scope_key}

pub data Reason : Type 0 where
  always_deny high_risk_blocked missing_grant : Reason
  intent_blocked : Intent → Reason

pub record Denial : Type 0 where
  pub reason : Reason
  pub request_id : Option String
  pub required_capabilities : List Capability

abbrev intent_tag : Intent → ℕ
intent_tag read_only = 0
intent_tag mutating = 1
intent_tag network_impacting = 2
intent_tag privilege_impacting = 3
intent_tag high_risk_tool = 4

pub intent_beq_iff : (a b : Intent) → (eqb (intent_tag a) (intent_tag b) ≡ true) ↔ (a ≡ b)
intent_beq_iff a b = ground arith

instance abbrev pub intent_eq : Eq Intent
intent_eq = record {
  is_same = λ a b. eqb (intent_tag a) (intent_tag b);
  is_same_iff = intent_beq_iff;
}

pub record PolicyOptions : Type 0 where
  pub dev_mode : Bool
  pub allow_high_risk_tools : Bool
  pub allow_exec_intents : List Intent

abbrev deny_for : Reason → Denial
deny_for reason = record { reason = reason; request_id = none; required_capabilities = [] }

abbrev verdict : Bool → Reason → Option Denial × Bool
verdict true reason = (none, true)
verdict false reason = (some (deny_for reason), false)

-- `PolicyApprovalGate.approve`: the last denial and the answer.
unfoldable pub policy_approve : PolicyOptions → Intent → Option Denial × Bool
policy_approve options intent =
    if options.dev_mode
    then (none, true)
    else if intent == high_risk_tool
    then verdict options.allow_high_risk_tools high_risk_blocked
    else verdict (mem intent options.allow_exec_intents) (intent_blocked intent)

pub record CapabilityOptions : Type 0 where
  pub dev_mode : Bool
  pub allow_read_only_without_grant : Option Bool
  pub allow_mutating_without_grant : Bool
  pub allow_net_fetch_without_grant : Bool
  pub allow_high_risk_without_grant : Bool

-- The gate with the workflow, whose `store` field is the capability store that both share.
pub record Gate : Type 0 where
  pub options : CapabilityOptions
  pub workflow : Workflow
  pub last_denial : Option Denial

abbrev is_net_fetch_only : List Capability → Bool
is_net_fetch_only (c ∷ []) = c == net_fetch
is_net_fetch_only _ = false

abbrev is_empty : List Capability → Bool
is_empty [] = true
is_empty (c ∷ cs) = false

abbrev pub needed : Input → List Capability
needed input = required_capabilities_for_approval input.tool input.intent

-- The conditions under which `approve` answers true with no grant.
unfoldable pub is_exempt : CapabilityOptions → Input → Bool
is_exempt options input =
    if options.dev_mode
    then true
    else if or_else options.allow_read_only_without_grant true && input.intent == read_only
    then true
    else if options.allow_mutating_without_grant
        && (input.intent == mutating && input.tool == "exec")
    then true
    else if options.allow_high_risk_without_grant && input.intent == high_risk_tool
    then true
    else if options.allow_net_fetch_without_grant && is_net_fetch_only (needed input)
    then true
    else is_empty (needed input)

abbrev pub input_scope : Input → String
input_scope input = scope_key input.tool input.intent input.provenance

abbrev denial_of : Input → Request → Denial
denial_of input r = record {
  reason = missing_grant;
  request_id = some r.id;
  required_capabilities = needed input;
}

-- `approve` after `consumeRequired`: a refusal files a request.
unfoldable pub after_consume : Input → (id : String) (now : ℕ) → Gate → Store × Bool → Gate × Bool
after_consume input id now g (store, true) =
    (record g { workflow = record g.workflow { store = store }; last_denial = none }, true)
after_consume input id now g (store, false) =
    let (w, r) = request input id now (record g.workflow { store = store }) in
    (record g { workflow = w; last_denial = some (denial_of input r) }, false)

-- `CapabilityApprovalGate.approve`; `id` is the id of a request that it may file.
unfoldable pub approve : Input → (id : String) (now : ℕ) → Gate → Gate × Bool
unfolding is_exempt after_consume
approve input id now g =
    if is_exempt g.options input
    then (record g { last_denial = none }, true)
    else after_consume input id now g
        (consume_required (needed input) (input_scope input) now g.workflow.store)
