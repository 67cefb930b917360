-- ===== src/Config.antt =====
-- The merging of configurations of src/config.ts, and the handler of `config.patch` of
-- src/gateway.ts. No key is `__proto__`, and the keys of an object stay in the order of insertion.
pub mod Patching
pub mod Profiles
use cursor_claw.Base.{
  ℕ, Bool, true, false, not, ◌&&◌, ◌||◌, Option, none, some, List, [], ◌∷◌, String, if◌then◌else◌,
  ◌==◌, string_eq,
}

-- A value of JavaScript; an array is the object of its indices. `other` is a number or a Boolean.
mutual
  pub data Value : Type 0 where
    undefined null : Value
    text : String → Value
    other : ℕ → Value
    array : Fields → Value
    object : Fields → Value

  pub data Fields : Type 0 where
    no_fields : Fields
    field : (key : String) (value : Value) (rest : Fields) → Fields

-- `fields[key]`.
unfoldable pub lookup : (key : String) → Fields → Value
lookup key no_fields = undefined
lookup key (field k v fs) = if k == key then v else lookup key fs

-- `fields[key] = value`.
unfoldable pub assign : (key : String) → Value → Fields → Fields
assign key v no_fields = field key v no_fields
assign key v (field k w fs) = if k == key then field key v fs else field k w (assign key v fs)

-- An object over the current value of its key: merged into a value that is an object or an array.
abbrev pub merge_into :
    (key : String) → Fields → (Fields → Fields) → (current : Value) → Fields → Fields
merge_into key fs merged (object cs) out = assign key (object (merged cs)) out
merge_into key fs merged (array cs) out = assign key (object (merged cs)) out
merge_into key fs merged _ out = assign key (object fs) out

unfoldable mutual
  -- One entry of the override.
  pub merge_entry : Value → (key : String) → Fields → Fields
  merge_entry undefined key out = out
  merge_entry (object fs) key out = merge_into key fs (merge fs) (lookup key out) out
  merge_entry null key out = assign key null out
  merge_entry (text t) key out = assign key (text t) out
  merge_entry (other n) key out = assign key (other n) out
  merge_entry (array fs) key out = assign key (array fs) out

  pub merge : (override base : Fields) → Fields
  merge no_fields base = base
  merge (field k v fs) base = merge fs (merge_entry v k base)

abbrev pub patchable_config_keys : List String
patchable_config_keys =
    "heartbeat" ∷ "autonomyBudget" ∷ "memory" ∷ "reflection" ∷ "session" ∷ "compaction"
    ∷ "workspaces" ∷ "contextCompression" ∷ "networkTrace" ∷ "metrics" ∷ "reliability" ∷ "tools"
    ∷ "substrate" ∷ "continuity" ∷ "profiles" ∷ "providerModelResilience" ∷ "models"
    ∷ "defaultModel" ∷ []

abbrev pub assign_defined : (key : String) → Value → Fields → Fields
assign_defined key undefined out = out
assign_defined key v out = assign key v out

unfoldable pub filter_keys : (allowed : List String) (partial out : Fields) → Fields
filter_keys [] partial out = out
filter_keys (k ∷ ks) partial out = filter_keys ks partial (assign_defined k (lookup k partial) out)

unfoldable pub merge_config_patch : (current partial : Fields) (allowed : List String) → Fields
merge_config_patch current partial allowed = merge (filter_keys allowed partial no_fields) current

-- A text that is not blank, trimmed; `trim` of JavaScript is an argument.
abbrev pub bind_address_of : (trim : String → String) → Value → Option String
bind_address_of trim (text t) = if trim t == "" then none else some (trim t)
bind_address_of trim _ = none

abbrev pub bind_of : Value → Option String
bind_of (text t) = if t == "loopback" || t == "0.0.0.0" then some t else none
bind_of _ = none

abbrev pub assign_text : (key : String) → Option String → Fields → Fields
assign_text key none fs = fs
assign_text key (some t) fs = assign key (text t) fs

-- `{...value}`.
abbrev pub fields_of : Value → Fields
fields_of (object fs) = fs
fields_of (array fs) = fs
fields_of _ = no_fields

abbrev pub is_undefined : Value → Bool
is_undefined undefined = true
is_undefined _ = false

unfoldable pub bound_gateway : (trim : String → String) (gateway patched : Fields) → Fields
bound_gateway trim gateway patched =
    assign_text "bind" (bind_of (lookup "bind" patched))
      (assign_text "bindAddress" (bind_address_of trim (lookup "bindAddress" patched)) gateway)

-- The address that has to be valid, when there is one.
abbrev pub address_ok : (valid : String → Bool) → Option String → Bool
address_ok valid none = true
address_ok valid (some a) = valid a

-- The configuration that is set, or `none` when the bind address is refused.
unfoldable pub patch_gateway :
    (trim : String → String) (valid : String → Bool) (updated patched : Fields) → Option Fields
patch_gateway trim valid updated patched =
    let gateway = bound_gateway trim (fields_of (lookup "gateway" updated)) patched in
    if is_undefined (lookup "bindAddress" patched) && is_undefined (lookup "bind" patched)
    then some updated
    else if address_ok valid (bind_address_of trim (lookup "bindAddress" gateway))
    then some (assign "gateway" (object gateway) updated)
    else none

abbrev pub with_gateway :
    (trim : String → String) (valid : String → Bool) (updated : Fields) → Value → Option Fields
with_gateway trim valid updated (object gw) = patch_gateway trim valid updated gw
with_gateway trim valid updated (array gw) = patch_gateway trim valid updated gw
with_gateway trim valid updated _ = some updated

unfoldable pub config_patch :
    (trim : String → String) (valid : String → Bool) (current partial : Fields) → Option Fields
config_patch trim valid current partial =
    with_gateway trim valid (merge_config_patch current partial patchable_config_keys)
      (lookup "gateway" partial)
