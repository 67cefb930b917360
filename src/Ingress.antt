-- ===== src/Ingress.antt =====
-- `PolicyDecisionLogger`, `evaluateIngressPolicy` and `AuthService` of src/security.ts. The removal
-- of "Bearer " from a header, `toLowerCase` and `isTokenRevoked` are arguments. Secrets whose UTF-8
-- bytes agree are equal texts.
pub mod Admission
use cursor_claw.Base.{
  ℕ, ◌≡◌, Bool, true, false, not, ◌&&◌, ◌||◌, Option, none, some, List, [], ◌∷◌, ◌++◌, String, leb,
  if◌then◌else◌, ◌==◌, string_eq, mem, length, drop,
}
use cursor_claw.Base.Dict.{get, map_option}

-- The entries are of any type; the instant of an entry is part of it.
unfoldable pub add {ℓ} : {A : Type ℓ} (max_entries : ℕ) (entry : A) → List A → List A
add max_entries entry logs =
    (if leb max_entries (length logs) then drop 1 logs else logs) ++ entry ∷ []

pub data ChannelKind : Type 0 where
  dm group web mobile : ChannelKind

pub data DmPolicy : Type 0 where
  strict_allowlist pairing allow_dm : DmPolicy

pub data GroupPolicy : Type 0 where
  mention_required allowlist allow_group : GroupPolicy

pub data Reason : Type 0 where
  dm_policy_blocked group_policy_blocked auth_missing auth_invalid : Reason

pub record IngressConfig : Type 0 where
  pub dm_policy : DmPolicy
  pub group_policy : GroupPolicy
  pub dm_allowlist : List String
  pub group_allowlist : List String

-- `none` for `{ allow: true }`, or the reason of the refusal.
abbrev refuse_unless : Bool → Reason → Option Reason
refuse_unless true r = none
refuse_unless false r = some r

abbrev dm_verdict : DmPolicy → (listed : Bool) → Option Reason
dm_verdict allow_dm listed = none
dm_verdict strict_allowlist listed = refuse_unless listed dm_policy_blocked
dm_verdict pairing listed = refuse_unless listed dm_policy_blocked

abbrev group_verdict : GroupPolicy → (mentioned listed : Bool) → Option Reason
group_verdict allow_group mentioned listed = none
group_verdict mention_required mentioned listed = refuse_unless mentioned group_policy_blocked
group_verdict allowlist mentioned listed = refuse_unless listed group_policy_blocked

unfoldable pub evaluate_ingress_policy :
    ChannelKind → (sender_id : String) (is_mentioned : Bool) → IngressConfig → Option Reason
evaluate_ingress_policy dm sender_id is_mentioned c =
    dm_verdict c.dm_policy (mem sender_id c.dm_allowlist)
evaluate_ingress_policy group sender_id is_mentioned c =
    group_verdict c.group_policy is_mentioned (mem sender_id c.group_allowlist)
evaluate_ingress_policy web sender_id is_mentioned c = none
evaluate_ingress_policy mobile sender_id is_mentioned c = none

pub data Mode : Type 0 where
  token_mode password_mode no_auth : Mode

pub record AuthOptions : Type 0 where
  pub mode : Mode
  pub token : Option String
  pub password : Option String
  pub trusted_proxy_ips : List String
  pub trusted_identity_header : Option String

pub record AuthContext : Type 0 where
  pub is_local : Bool
  pub remote_ip : String
  pub headers : List (String × String)

pub data Role : Type 0 where
  local remote admin : Role

pub data AuthResult : Type 0 where
  accepted : Role → AuthResult
  rejected : Reason → AuthResult

abbrev pub same_secret : Option String → Option String → Bool
same_secret none rhs = false
same_secret (some a) none = false
same_secret (some a) (some b) = a == b

-- `undefined` and the empty text are false.
abbrev pub is_given : Option String → Bool
is_given none = false
is_given (some t) = not (t == "")

abbrev pub is_revoked : (String → Bool) → Option String → Bool
is_revoked revoked none = false
is_revoked revoked (some t) = not (t == "") && revoked t

-- Whether the credentials are those of the mode.
abbrev pub credentials_match :
    (revoked : String → Bool) → AuthOptions → (header_token header_password : Option String) → Bool
credentials_match revoked o t p = elim o.mode [
  | token_mode ↦ same_secret t o.token && not (is_revoked revoked t)
  | password_mode ↦ same_secret p o.password
  | no_auth ↦ true
]

abbrev pub proxy_trusted : (to_lower : String → String) → AuthOptions → AuthContext → Bool
proxy_trusted to_lower o c = elim o.trusted_identity_header [
  | none ↦ true
  | some h ↦
      if h == ""
      then true
      else mem c.remote_ip o.trusted_proxy_ips && is_given (get (to_lower h) c.headers)
]

abbrev pub token_of : (strip_bearer : String → String) → AuthContext → Option String
token_of strip_bearer c = map_option strip_bearer (get "authorization" c.headers)

abbrev pub password_of : AuthContext → Option String
password_of c = get "x-gateway-password" c.headers

abbrev pub is_no_auth : Mode → Bool
is_no_auth no_auth = true
is_no_auth _ = false

unfoldable pub authorize :
    (strip_bearer to_lower : String → String) (revoked : String → Bool)
    → AuthOptions
    → AuthContext
    → AuthResult
authorize strip_bearer to_lower revoked o c =
    let t = token_of strip_bearer c in
    let p = password_of c in
    if is_no_auth o.mode
    then accepted (if c.is_local then local else remote)
    else (if not (is_given t) && not (is_given p)
        then rejected auth_missing
        else (if credentials_match revoked o t p
            then (if proxy_trusted to_lower o c
                then accepted (if c.is_local then admin else remote)
                else rejected auth_invalid)
            else rejected auth_invalid))
