-- ===== src/Gateway.antt =====
-- The checks that `POST /rpc` of src/gateway.ts makes before it looks at the method, and the log
-- entry of a method that ended well. Times are milliseconds.
pub mod Admitting
pub mod Params
pub mod Waiting
use cursor_claw.Base.{
  ℕ, Bool, true, false, not, ◌&&◌, ◌||◌, Option, none, some, List, [], ◌∷◌, String, leb,
  if◌then◌else◌, ◌==◌, string_eq, mem, any,
}
use cursor_claw.Base.Dict.{get}
use cursor_claw.Addresses.{Network, is_private_ip}
use cursor_claw.Incidents.{Commander, Patterns, is_token_revoked, score_inbound_risk}
use cursor_claw.Ingress.{
  Role, local, remote, admin, AuthOptions, AuthContext, AuthResult, accepted, rejected, authorize,
  add,
}
use cursor_claw.Ingress as Ingress
use cursor_claw.RateLimit.{Events, allow}
use cursor_claw.RateLimit as RateLimit

pub data Reason : Type 0 where
  allowed proto_version_unsupported auth_role_mismatch rate_limited risk_blocked : Reason
  auth : Ingress.Reason → Reason

pub record Decision : Type 0 where
  pub method : String
  pub is_allowed : Bool
  pub reason : Reason

-- The headers have lower-case names; `text` is the text that the risk is scored of.
pub record Request : Type 0 where
  pub method : String
  pub version : String
  pub ip : String
  pub headers : List (String × String)
  pub text : String

-- What the handler is given: packages, the configuration and the options of its parts.
pub record Deps : Type 0 where
  pub net : Network
  pub codes : String → List ℕ
  pub strip_bearer : String → String
  pub to_lower : String → String
  pub hash : String → String
  pub patterns : Patterns
  pub protocol_version : String
  pub auth_options : AuthOptions
  pub rate_options : RateLimit.Options
  pub max_entries : ℕ

pub record State : Type 0 where
  pub logs : List Decision
  pub events : Events
  pub commander : Commander

-- The answer by its HTTP status, or the role under which the method runs. `thrown` is an error that
-- the handler does not catch.
pub data Verdict : Type 0 where
  refused : (status : ℕ) (reason : Reason) → Verdict
  thrown : Verdict
  admitted : Role → Verdict

abbrev all_roles : List String
all_roles =
    "agent.run" ∷ "agent.wait" ∷ "chat.send" ∷ "chat.getThread" ∷ "thread.set"
    ∷ "advisor.file_change" ∷ "workspace.status" ∷ "workspace.semantic_search" ∷ "trace.ingest"
    ∷ "advisor.explain_function" ∷ "heartbeat.poll" ∷ "heartbeat.getFile" ∷ "heartbeat.update" ∷ []

abbrev not_remote : List String
not_remote =
    "cron.add" ∷ "cron.list" ∷ "approval.list" ∷ "approval.resolve" ∷ "approval.capabilities"
    ∷ "config.get" ∷ "config.reload" ∷ "config.patch" ∷ "profile.list" ∷ "profile.create"
    ∷ "profile.delete" ∷ "admin.restart" ∷ "substrate.list" ∷ "substrate.get" ∷ "substrate.update"
    ∷ "substrate.reload" ∷ "memory.listLogs" ∷ "memory.getFile" ∷ "memory.writeFile"
    ∷ "skills.fetchFromUrl" ∷ "skills.list" ∷ "skills.analyze" ∷ "skills.install"
    ∷ "skills.credentials.set" ∷ "skills.credentials.delete" ∷ "skills.credentials.list"
    ∷ "provider.credentials.set" ∷ "provider.credentials.delete" ∷ "provider.credentials.list"
    ∷ "provider.models.list" ∷ []

abbrev admin_only : List String
admin_only = "incident.bundle" ∷ []

-- The names that every JavaScript object inherits; their values have no `includes`.
abbrev inherited : List String
inherited =
    "constructor" ∷ "toString" ∷ "toLocaleString" ∷ "valueOf" ∷ "hasOwnProperty" ∷ "isPrototypeOf"
    ∷ "propertyIsEnumerable" ∷ "__proto__" ∷ "__defineGetter__" ∷ "__defineSetter__"
    ∷ "__lookupGetter__" ∷ "__lookupSetter__" ∷ []

unfoldable pub is_inherited : String → Bool
is_inherited method = mem method inherited

abbrev role_is_remote : Role → Bool
role_is_remote remote = true
role_is_remote _ = false

abbrev role_is_admin : Role → Bool
role_is_admin admin = true
role_is_admin _ = false

-- `METHOD_SCOPES[method].includes(role)`, where the method has a list of its own.
unfoldable pub in_scope : String → Role → Bool
in_scope method role =
    mem method all_roles
    || (mem method not_remote && not (role_is_remote role)
        || mem method admin_only && role_is_admin role)

unfoldable pub is_local : Deps → (ip : String) → Bool
is_local d ip = ip == "127.0.0.1" || (ip == "::1" || is_private_ip d.net (d.codes ip))

unfoldable pub auth_of : Deps → Commander → Request → AuthResult
unfolding is_local
auth_of d c r =
    authorize d.strip_bearer d.to_lower (is_token_revoked d.hash c) d.auth_options
      (record { is_local = is_local d r.ip; remote_ip = r.ip; headers = r.headers })

-- `request.ip || "unknown"`.
abbrev pub subject_of : (ip : String) → String
subject_of ip = if ip == "" then "unknown" else ip

unfoldable pub deny : Deps → Request → (status : ℕ) (reason : Reason) → State → State × Verdict
deny d r status reason s = (
  record s {
    logs =
        add d.max_entries (record { method = r.method; is_allowed = false; reason = reason })
          s.logs;
  },
  refused status reason,
)

unfoldable pub risk_of : Deps → Request → Role → ℕ
risk_of d r role = score_inbound_risk d.patterns (not (role_is_remote role)) 0 r.text

unfoldable pub check_risk : Deps → Request → Role → State → State × Verdict
check_risk d r role s =
    if leb 90 (risk_of d r role) then deny d r 400 risk_blocked s else (s, admitted role)

abbrev pub check_rate_found : Deps → Request → Role → State → Events × Bool → State × Verdict
check_rate_found d r role s (events, true) = check_risk d r role (record s { events = events })
check_rate_found d r role s (events, false) =
    deny d r 429 rate_limited (record s { events = events })

unfoldable pub check_rate : Deps → Request → (now : ℕ) → Role → State → State × Verdict
check_rate d r now role s =
    check_rate_found d r role s (allow d.rate_options r.method (subject_of r.ip) now s.events)

unfoldable pub check_scope : Deps → Request → (now : ℕ) → Role → State → State × Verdict
check_scope d r now role s =
    if is_inherited r.method
    then (s, thrown)
    else (if in_scope r.method role
        then check_rate d r now role s
        else deny d r 403 auth_role_mismatch s)

unfoldable pub check_auth : Deps → Request → (now : ℕ) → AuthResult → State → State × Verdict
check_auth d r now (rejected reason) s = deny d r 401 (auth reason) s
check_auth d r now (accepted role) s = check_scope d r now role s

unfoldable pub admit : Deps → Request → (now : ℕ) → State → State × Verdict
admit d r now s =
    if r.method == "" || r.version == ""
    then (s, refused 400 proto_version_unsupported)
    else (if r.version == d.protocol_version
        then check_auth d r now (auth_of d s.commander r) s
        else deny d r 400 proto_version_unsupported s)

-- A method that ended well; one that throws leaves the log alone.
unfoldable pub complete : Deps → Request → (succeeded : Bool) → State → State
complete d r true s = record s {
  logs =
      add d.max_entries (record { method = r.method; is_allowed = true; reason = allowed }) s.logs;
}
complete d r false s = s
