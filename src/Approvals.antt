-- ===== src/Approvals.antt =====
-- src/security/approval-workflow.ts: requests for approval, and the grants that an approval issues.
-- Times are milliseconds, which the source keeps as ISO texts; a call runs at one instant. Ids
-- (`randomUUID`) are arguments. The state file is the `disk` field; its writes succeed.
pub mod Args
pub mod Bounds
pub mod Lifecycle
pub mod Issuing
pub mod Repeats
use cursor_claw.Base.{
  ℕ, zero, suc, ◌+◌, ◌*◌, ◌≡◌, Bool, true, false, ◌&&◌, ◌||◌, not, Option, none, some, List, [],
  ◌∷◌, ◌++◌, map, String, arith, ltb, leb, if◌then◌else◌, ◌==◌, keep, any, string_eq,
}
use Prim.Native.String
use cursor_claw.Base.Dict.{or_else, get, set, values, map_values}
use cursor_claw.Capabilities.{
  Capability, tool_high_risk, net_fetch, fs_write, process_exec, process_exec_mutate,
  process_exec_privileged, Intent, read_only, mutating, network_impacting, privilege_impacting,
  high_risk_tool, Provenance, system, operator, untrusted, Grant, Store, grant,
  required_capabilities_for_approval,
}
use Args.{Value, sanitize_args}

pub data Status : Type 0 where
  pending approved denied expired : Status

abbrev pub is_pending : Status → Bool
is_pending pending = true
is_pending _ = false

pub record Request : Type 0 where
  pub id : String
  pub created_at : ℕ
  pub updated_at : ℕ
  pub status : Status
  pub tool : String
  pub intent : Intent
  pub plan : String
  pub args : Value
  pub required_capabilities : List Capability
  pub provenance : Option Provenance
  pub grants : Option (List Grant)
  pub denied_reason : Option String

-- `CapabilityApprovalInput`.
pub record Input : Type 0 where
  pub tool : String
  pub intent : Intent
  pub plan : String
  pub args : Value
  pub provenance : Option Provenance

pub record Workflow : Type 0 where
  pub requests : List (String × Request)
  pub by_fingerprint : List (String × String)
  pub store : Store
  pub default_ttl_ms : ℕ
  pub default_uses : ℕ
  pub state_dir : Bool
  pub disk : Option (List Request)

-- The texts that the source uses for the constants.
abbrev pub capability_label : Capability → String
capability_label tool_high_risk = "tool.high-risk"
capability_label net_fetch = "net.fetch"
capability_label fs_write = "fs.write"
capability_label process_exec = "process.exec"
capability_label process_exec_mutate = "process.exec.mutate"
capability_label process_exec_privileged = "process.exec.privileged"

abbrev pub intent_label : Intent → String
intent_label read_only = "read-only"
intent_label mutating = "mutating"
intent_label network_impacting = "network-impacting"
intent_label privilege_impacting = "privilege-impacting"
intent_label high_risk_tool = "high-risk-tool"

abbrev pub provenance_label : Option Provenance → String
provenance_label none = ""
provenance_label (some system) = "system"
provenance_label (some operator) = "operator"
provenance_label (some untrusted) = "untrusted"

-- The place of a capability in the order of `sort()`, which is that of the texts.
abbrev sort_place : Capability → ℕ
sort_place fs_write = 0
sort_place net_fetch = 1
sort_place process_exec = 2
sort_place process_exec_mutate = 3
sort_place process_exec_privileged = 4
sort_place tool_high_risk = 5

insert_capability : Capability → List Capability → List Capability
insert_capability c [] = c ∷ []
insert_capability c (d ∷ ds) =
    if leb (sort_place c) (sort_place d) then c ∷ d ∷ ds else d ∷ insert_capability c ds

-- `requiredCapabilities.sort()`, which sorts the request's own list.
pub sort_capabilities : List Capability → List Capability
sort_capabilities [] = []
sort_capabilities (c ∷ cs) = insert_capability c (sort_capabilities cs)

infixr 60 ◌+++◌
abbrev pub ◌+++◌ : String → String → String
a +++ b = String.◌++◌ a b

abbrev join_capabilities : List Capability → String
join_capabilities [] = ""
join_capabilities (c ∷ []) = capability_label c
join_capabilities (c ∷ d ∷ ds) = capability_label c +++ "," +++ join_capabilities (d ∷ ds)

pub stable_fingerprint : String → Intent → String → List Capability → Option Provenance → String
stable_fingerprint tool intent plan sorted provenance =
    tool
    +++ "|"
    +++ intent_label intent
    +++ "|"
    +++ plan
    +++ "|"
    +++ join_capabilities sorted
    +++ "|"
    +++ provenance_label provenance

-- The scope of the grants; `CapabilityApprovalGate` builds the same text.
pub scope_key : String → Intent → Option Provenance → String
scope_key tool intent (some untrusted) = "untrusted:" +++ tool +++ ":" +++ intent_label intent
scope_key tool intent provenance = tool +++ ":" +++ intent_label intent

-- 24 hours.
abbrev pub stale_after_ms : ℕ
stale_after_ms = 24 * 60 * 60000

abbrev pub is_stale : ℕ → Request → Bool
is_stale now r = is_pending r.status && ltb (r.created_at + stale_after_ms) now

abbrev pub expire : ℕ → Request → Request
expire now r = if is_stale now r then record r { status = expired; updated_at = now } else r

pub persist : Workflow → Workflow
persist w = if w.state_dir then record w { disk = some (values w.requests) } else w

unfoldable pub expire_stale_requests : ℕ → Workflow → Workflow
unfolding persist
expire_stale_requests now w =
    let w' = record w { requests = map_values (expire now) w.requests } in
    if any (is_stale now) (values w.requests) then persist w' else w'

-- A request of the file; an empty id is passed over. `requiredCapabilities.sort()` sorts the list
-- of a pending request.
pub load_request : Request → Workflow → Workflow
load_request r w =
    let pends = is_pending r.status in
    let sorted = sort_capabilities r.required_capabilities in
    let r' = record r {
      required_capabilities = if pends then sorted else r.required_capabilities;
      grants = some (or_else r.grants []);
    } in
    if r.id == "" then w else record w {
      requests = set r.id r' w.requests;
      by_fingerprint =
          if pends
          then set (stable_fingerprint r.tool r.intent r.plan sorted r.provenance) r.id
              w.by_fingerprint
          else w.by_fingerprint;
    }

pub load_requests : List Request → Workflow → Workflow
load_requests [] w = w
load_requests (r ∷ rs) w = load_requests rs (load_request r w)

-- `load` of the file that `persist` wrote.
pub load : Workflow → Workflow
unfolding load_requests
load w = if w.state_dir then load_requests (or_else w.disk []) w else w

-- The request found by its fingerprint, if it is still pending. An empty id is not followed.
abbrev pub only_pending : Option Request → Option Request
only_pending none = none
only_pending (some r) = if is_pending r.status then some r else none

abbrev pub pending_at : Option String → List (String × Request) → Option Request
pending_at none rs = none
pending_at (some id) rs = if id == "" then none else only_pending (get id rs)

abbrev pub required_for : Input → List Capability
required_for input = sort_capabilities (required_capabilities_for_approval input.tool input.intent)

abbrev pub fingerprint_of : Input → String
fingerprint_of input =
    stable_fingerprint input.tool input.intent input.plan (required_for input) input.provenance

unfoldable pub new_request : Input → (id : String) (now : ℕ) → Request
new_request input id now = record {
  id = id;
  created_at = now;
  updated_at = now;
  status = pending;
  tool = input.tool;
  intent = input.intent;
  plan = input.plan;
  args = sanitize_args input.args;
  required_capabilities = required_for input;
  provenance = input.provenance;
  grants = none;
  denied_reason = none;
}

unfoldable pub add_request : Input → (id : String) (now : ℕ) → Workflow → Workflow
add_request input id now w = persist (record w {
  requests = set id (new_request input id now) w.requests;
  by_fingerprint = set (fingerprint_of input) id w.by_fingerprint;
})

-- `request` after the lookup.
unfoldable pub request_found :
    Option Request → Input → (id : String) (now : ℕ) → Workflow → Workflow × Request
unfolding add_request new_request
request_found (some existing) input id now w = (w, existing)
request_found none input id now w = (add_request input id now w, new_request input id now)

unfoldable pub request : Input → (id : String) (now : ℕ) → Workflow → Workflow × Request
unfolding expire_stale_requests request_found
request input id now w =
    let w' = expire_stale_requests now w in
    request_found (pending_at (get (fingerprint_of input) w'.by_fingerprint) w'.requests) input id
      now w'

insert_by_age : Request → List Request → List Request
insert_by_age r [] = r ∷ []
insert_by_age r (q ∷ qs) =
    if leb r.created_at q.created_at then r ∷ q ∷ qs else q ∷ insert_by_age r qs

-- `sort` by creation time, which keeps the order of equals.
pub sort_by_age : List Request → List Request
sort_by_age [] = []
sort_by_age (r ∷ rs) = insert_by_age r (sort_by_age rs)

abbrev status_tag : Status → ℕ
status_tag pending = 0
status_tag approved = 1
status_tag denied = 2
status_tag expired = 3

unfoldable pub list_requests : Option Status → ℕ → Workflow → Workflow × List Request
unfolding expire_stale_requests sort_by_age insert_by_age
list_requests status now w =
    let w' = expire_stale_requests now w in
    let all = sort_by_age (values w'.requests) in
    (
      w',
      elim status [
        | none ↦ all
        | some st ↦
            keep
              (λ r.
                leb (status_tag r.status) (status_tag st)
                && leb (status_tag st) (status_tag r.status))
              all
      ],
    )

pub data Decision : Type 0 where
  approve deny : Decision

pub record Resolution : Type 0 where
  pub request_id : String
  pub decision : Decision
  pub reason : Option String
  pub grant_ttl_ms : Option ℕ
  pub grant_uses : Option ℕ

-- The loop that issues one grant for each capability; the i-th has the id `ids i`.
pub issue :
    (cs : List Capability) (scope : String) (ttl uses : ℕ) (ids : ℕ → String) (now : ℕ)
    → Store
    → Store × List Grant
issue [] scope ttl uses ids now s = (s, [])
issue (c ∷ cs) scope ttl uses ids now s =
    let (s', g) = grant (ids 0) c scope ttl (some uses) now s in
    let (s'', gs) = issue cs scope ttl uses (λ i. ids (suc i)) now s' in (s'', g ∷ gs)

-- The end of `resolve`: the request as it was changed, with the grants issued, is saved.
pub settle : Resolution → Request → Store → Workflow → Workflow × Request
unfolding persist
settle res r s w = (persist (record w { requests = set res.request_id r w.requests; store = s }), r)

abbrev pub ttl_of : Resolution → Workflow → ℕ
ttl_of res w = or_else res.grant_ttl_ms w.default_ttl_ms

abbrev pub uses_of : Resolution → Workflow → ℕ
uses_of res w = or_else res.grant_uses w.default_uses

abbrev pub issue_for :
    Resolution → Request → (ids : ℕ → String) (now : ℕ) → Workflow → Store × List Grant
issue_for res r ids now w =
    issue r.required_capabilities (scope_key r.tool r.intent r.provenance) (ttl_of res w)
      (uses_of res w) ids now w.store

-- The branches of `resolve` at a pending request.
pub decide :
    Decision → Resolution → Request → (ids : ℕ → String) (now : ℕ) → Workflow → Workflow × Request
unfolding settle
decide deny res r ids now w =
    settle res
      (record r {
        updated_at = now;
        status = denied;
        denied_reason = some (or_else res.reason "denied");
      })
      w.store w
decide approve res r ids now w =
    let (s, gs) = issue_for res r ids now w in
    settle res (record r { updated_at = now; status = approved; grants = some gs }) s w

-- `resolve` after the lookup; `none` is the error "approval request not found".
pub resolve_found :
    Option Request
    → Resolution
    → (ids : ℕ → String) (now : ℕ) → Workflow
    → Workflow × Option Request
unfolding decide
resolve_found none res ids now w = (w, none)
resolve_found (some r) res ids now w =
    if is_pending r.status
    then (let (w', r') = decide res.decision res r ids now w in (w', some r'))
    else (w, some r)

unfoldable pub resolve :
    Resolution → (ids : ℕ → String) (now : ℕ) → Workflow → Workflow × Option Request
unfolding expire_stale_requests resolve_found
resolve res ids now w =
    let w' = expire_stale_requests now w in
    resolve_found (get res.request_id w'.requests) res ids now w'
