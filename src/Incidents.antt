-- ===== src/Incidents.antt =====
-- `IncidentCommander` and `scoreInboundRisk` of src/security.ts. The hash of a token and what the
-- regular expressions of `RISKY_PATTERNS` answer are arguments.
use cursor_claw.Base.{
  ℕ, ◌+◌, ◌*◌, Bool, true, false, List, [], ◌∷◌, ◌++◌, String, ltb, min, if◌then◌else◌, string_eq,
  mem,
}

-- The hashes of the revoked tokens are in the order of insertion.
pub record Commander : Type 0 where
  pub proactive_disabled : Bool
  pub isolated_tools : Bool
  pub revoked_token_hashes : List String

-- What the constructor makes.
abbrev pub new_commander : Commander
new_commander = record {
  proactive_disabled = false;
  isolated_tools = false;
  revoked_token_hashes = [];
}

-- `add` of a `Set`.
abbrev pub insert_new : String → List String → List String
insert_new h hs = if mem h hs then hs else hs ++ h ∷ []

unfoldable pub add_hashes : (hash : String → String) → List String → List String → List String
add_hashes hash [] hs = hs
add_hashes hash (t ∷ ts) hs = add_hashes hash ts (insert_new (hash t) hs)

unfoldable pub revoke_tokens : (hash : String → String) → List String → Commander → Commander
unfolding add_hashes
revoke_tokens hash tokens c = record c {
  revoked_token_hashes = add_hashes hash tokens c.revoked_token_hashes;
}

unfoldable pub is_token_revoked : (hash : String → String) → Commander → String → Bool
is_token_revoked hash c token = mem (hash token) c.revoked_token_hashes

unfoldable pub disable_proactive_sends : Commander → Commander
disable_proactive_sends c = record c { proactive_disabled = true }

unfoldable pub isolate_tool_hosts : Commander → Commander
isolate_tool_hosts c = record c { isolated_tools = true }

-- The regular expressions of `RISKY_PATTERNS`, in order.
pub record Patterns : Type 0 where
  pub ignore_instructions : String → Bool
  pub curl : String → Bool
  pub wget : String → Bool
  pub exec : String → Bool
  pub rm_rf : String → Bool
  pub token : String → Bool

abbrev pub bit : Bool → ℕ
bit true = 1
bit false = 0

unfoldable pub matches : Patterns → String → ℕ
matches p text =
    bit (p.ignore_instructions text)
    + bit (p.curl text)
    + bit (p.wget text)
    + bit (p.exec text)
    + bit (p.rm_rf text)
    + bit (p.token text)

abbrev pub trigger_score : ℕ → ℕ
trigger_score n = if ltb 10 n then 30 else if ltb 4 n then 15 else 0

unfoldable pub score_inbound_risk :
    Patterns → (sender_trusted : Bool) (recent_trigger_count : ℕ) (text : String) → ℕ
score_inbound_risk p sender_trusted recent_trigger_count text =
    min
      ((if sender_trusted then 0 else 30)
        + trigger_score recent_trigger_count
        + 12 * matches p text)
      100
