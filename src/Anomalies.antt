-- ===== src/Anomalies.antt =====
-- `AnomalyDetector` of src/security.ts. Whether a domain is suspicious, a regular expression, is given.
pub mod Triggers
use cursor_claw.Base.{
  ℕ, suc, ◌+◌, Bool, true, false, Option, none, some, List, [], ◌∷◌, ◌++◌, String, string_eq, ltb,
  leb, if◌then◌else◌, length, keep, any,
}
use cursor_claw.Base.Dict.{get, set, values, or_else}

-- The entries of one kind: an instant, and a tool, a domain or a session.
pub record AnomalyDetector : Type 0 where
  pub tool_calls : List (ℕ × String)
  pub fetch_domains : List (ℕ × String)
  pub session_triggers : List (ℕ × String)

pub data Finding : Type 0 where
  tool_call_surge suspicious_domain_fetches possible_self_trigger_loop : Finding

unfoldable pub note_tool_call : (tool : String) (now : ℕ) → AnomalyDetector → AnomalyDetector
note_tool_call tool now d = record d { tool_calls = d.tool_calls ++ (now, tool) ∷ [] }

unfoldable pub note_fetch : (domain : String) (now : ℕ) → AnomalyDetector → AnomalyDetector
note_fetch domain now d = record d { fetch_domains = d.fetch_domains ++ (now, domain) ∷ [] }

unfoldable pub note_trigger : (session_id : String) (now : ℕ) → AnomalyDetector → AnomalyDetector
note_trigger session_id now d = record d {
  session_triggers = d.session_triggers ++ (now, session_id) ∷ [];
}

-- `entry.at >= now - 60_000`.
abbrev pub is_recent : (now : ℕ) → ℕ × String → Bool
is_recent now (at, name) = leb now (at + 60000)

-- The loop over the recent triggers.
unfoldable pub count_triggers : List (ℕ × String) → List (String × ℕ) → List (String × ℕ)
count_triggers [] counts = counts
count_triggers ((at, session_id) ∷ triggers) counts =
    count_triggers triggers (set session_id (suc (or_else (get session_id counts) 0)) counts)

abbrev pub finding_when : Bool → Finding → List Finding
finding_when true f = f ∷ []
finding_when false f = []

unfoldable pub detect : (is_suspicious : String → Bool) (now : ℕ) → AnomalyDetector → List Finding
unfolding count_triggers
detect is_suspicious now d =
    let recent_tool_calls = keep (is_recent now) d.tool_calls in
    let recent_fetches = keep (is_recent now) d.fetch_domains in
    let recent_triggers = keep (is_recent now) d.session_triggers in
    let suspicious_fetches = keep (λ e. is_suspicious e.1) recent_fetches in
    let trigger_counts = count_triggers recent_triggers [] in
    finding_when (ltb 25 (length recent_tool_calls)) tool_call_surge
    ++ (finding_when (ltb 3 (length suspicious_fetches)) suspicious_domain_fetches
        ++ finding_when (any (λ count. ltb 15 count) (values trigger_counts))
            possible_self_trigger_loop)
