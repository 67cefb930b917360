-- ===== src/Capabilities.antt =====
-- src/security/capabilities.ts: the capability grants and their use. Times are milliseconds; a call
-- runs at one instant, which is `Date.now()` and the default of every `now` argument. Grant ids
-- (`randomUUID`) are arguments. The state file is the `disk` field; its writes succeed.
pub mod Uses
pub mod Spending
pub mod Granting
use cursor_claw.Base.{
  ℕ, ◌+◌, ◌-◌, ◌≡◌, refl, ◌↔◌, Bool, true, false, ◌&&◌, ◌||◌, not, Option, none, some, List, [],
  ◌∷◌, ◌++◌, max, String, arith, ltb, eqb, if◌then◌else◌, Eq, ◌==◌, keep, any, dedup, string_eq,
}
use cursor_claw.Base.Dict.{or_else, get, set, values, map_values}

pub data Capability : Type 0 where
  tool_high_risk net_fetch fs_write process_exec process_exec_mutate process_exec_privileged :
      Capability

abbrev tag : Capability → ℕ
tag tool_high_risk = 0
tag net_fetch = 1
tag fs_write = 2
tag process_exec = 3
tag process_exec_mutate = 4
tag process_exec_privileged = 5

pub capability_beq_iff : (a b : Capability) → (eqb (tag a) (tag b) ≡ true) ↔ (a ≡ b)
capability_beq_iff a b = ground arith

instance abbrev pub capability_eq : Eq Capability
capability_eq = record { is_same = λ a b. eqb (tag a) (tag b); is_same_iff = capability_beq_iff }

-- `ExecIntent` and "high-risk-tool".
pub data Intent : Type 0 where
  read_only mutating network_impacting privilege_impacting high_risk_tool : Intent

pub data Provenance : Type 0 where
  system operator untrusted : Provenance

pub record Grant : Type 0 where
  pub id : String
  pub capability : Capability
  pub scope : String
  pub issued_at : ℕ
  pub expires_at : ℕ
  pub uses_remaining : ℕ

pub record Store : Type 0 where
  pub grants : List (Capability × List Grant)
  pub state_dir : Bool
  pub disk : Option (List Grant)

abbrev pub entries : Capability → Store → List Grant
entries c s = or_else (get c s.grants) []

abbrev pub is_active : ℕ → Grant → Bool
is_active now g = ltb now g.expires_at && ltb 0 g.uses_remaining

unfoldable pub prune_expired : ℕ → Store → Store
prune_expired now s = record s { grants = map_values (keep (is_active now)) s.grants }

abbrev pub concat : List (List Grant) → List Grant
concat [] = []
concat (x ∷ xs) = x ++ concat xs

unfoldable pub list_active : ℕ → Store → Store × List Grant
unfolding prune_expired
list_active now s = (prune_expired now s, concat (values (prune_expired now s).grants))

-- The write lists the active grants, which also prunes the store.
pub persist : ℕ → Store → Store
persist now s =
    if s.state_dir
    then (let (t, active) = list_active now s in record t { disk = some active })
    else s

pub add_grant : Grant → Store → Store
add_grant g s = record s { grants = set g.capability (entries g.capability s ++ g ∷ []) s.grants }

abbrev load_all : List Grant → Store → Store
load_all [] s = s
load_all (g ∷ gs) s = load_all gs (add_grant g s)

-- `load`, at a file that holds what `persist` wrote; a missing file is `none`.
unfoldable pub load : Store → Store
unfolding add_grant
load s = if s.state_dir then load_all (or_else s.disk []) s else s

unfoldable pub grant :
    (id : String) (c : Capability) (scope : String) (ttl_ms : ℕ) (uses : Option ℕ) (now : ℕ)
    → Store
    → Store × Grant
unfolding add_grant persist
grant id c scope ttl_ms uses now s =
    let g : Grant = record {
      id = id;
      capability = c;
      scope = scope;
      issued_at = now;
      expires_at = now + ttl_ms;
      uses_remaining = max 1 (or_else uses 1);
    } in
    (persist now (add_grant g s), g)

abbrev pub is_consumable : String → Grant → Bool
is_consumable scope g = g.scope == scope && ltb 0 g.uses_remaining

-- The loop of `consumeOne`, which stops at its first hit.
pub use_first : String → List Grant → List Grant
use_first scope [] = []
use_first scope (g ∷ gs) =
    if is_consumable scope g
    then record g { uses_remaining = g.uses_remaining - 1 } ∷ gs
    else g ∷ use_first scope gs

abbrev pub has_uses : Grant → Bool
has_uses g = ltb 0 g.uses_remaining

pub consume_one : Capability → String → ℕ → Store → Store
consume_one c scope now s =
    persist now
      (record s { grants = set c (keep has_uses (use_first scope (entries c s))) s.grants })

unfoldable pub all_consumable : List Capability → String → Store → Bool
all_consumable [] scope s = true
all_consumable (c ∷ cs) scope s =
    any (is_consumable scope) (entries c s) && all_consumable cs scope s

pub consume_all : List Capability → String → ℕ → Store → Store
consume_all [] scope now s = s
consume_all (c ∷ cs) scope now s = consume_all cs scope now (consume_one c scope now s)

unfoldable pub consume_required : List Capability → String → ℕ → Store → Store × Bool
unfolding all_consumable consume_all consume_one use_first prune_expired persist
consume_required capabilities scope now s =
    let required = dedup capabilities in
    let p = prune_expired now s in
    if all_consumable required scope p then (consume_all required scope now p, true) else (p, false)

-- The last part of `requiredCapabilitiesForApproval`, for `exec` by intent.
exec_capabilities : Intent → List Capability
exec_capabilities read_only = []
exec_capabilities network_impacting = process_exec ∷ net_fetch ∷ []
exec_capabilities mutating = process_exec ∷ fs_write ∷ process_exec_mutate ∷ []
exec_capabilities _ = process_exec ∷ process_exec_privileged ∷ []

-- What a tool call needs: `requiredCapabilitiesForApproval`.
unfoldable pub required_capabilities_for_approval : String → Intent → List Capability
unfolding exec_capabilities
required_capabilities_for_approval tool high_risk_tool =
    if tool == "exec" then process_exec ∷ [] else tool_high_risk ∷ []
required_capabilities_for_approval tool intent =
    if tool == "web_fetch" || tool == "mcp_web_fetch"
    then net_fetch ∷ []
    else if tool == "web_search" || tool == "mcp_web_search"
    then net_fetch ∷ []
    else if tool == "gh_pr_write"
    then process_exec ∷ fs_write ∷ process_exec_mutate ∷ []
    else if not (tool == "exec")
    then []
    else exec_capabilities intent
