-- ===== src/Reliability/Scoring.antt =====
-- The range of the score of src/reliability/confidence-model.ts and what lowers it.
use cursor_claw.Base.{ℕ, ◌+◌, ◌-◌, ◌*◌, ◌≤◌, ◌≡◌, Bool, true, arith, ltb, min, max, if◌then◌else◌}
use cursor_claw.Reliability.{ConfidenceInput, score}

-- The score lies between 20 and 100 whatever the input.
pub score_bounds : (i : ConfidenceInput) → (20 ≤ score i) × (score i ≤ 100)
unfolding score
score_bounds i = ground arith

less_after_failures :
    (m n : ℕ)
    → m ≤ n
    → (if ltb 0 n then 82 - min 35 (n * 12) else 82)
      ≤ (if ltb 0 m then 82 - min 35 (m * 12) else 82)
less_after_failures m n h = ground arith

less_after_plugins :
    (a b m n : ℕ)
    → b ≤ a
    → m ≤ n
    → (if ltb 0 n then b - min 15 (n * 4) else b) ≤ (if ltb 0 m then a - min 15 (m * 4) else a)
less_after_plugins a b m n k h = ground arith

less_after_tools :
    (a b m n : ℕ)
    → b ≤ a
    → m ≤ n
    → (if ltb 8 n then b - min 12 (n - 8) else b) ≤ (if ltb 8 m then a - min 12 (m - 8) else a)
less_after_tools a b m n k h = ground arith

less_after_bonuses :
    (a b : ℕ) (s t s' t' : Bool)
    → b ≤ a
    → (s' ≡ true → s ≡ true)
    → (t' ≡ true → t ≡ true)
    → max 0 (min 100 (if t' then (if s' then b + 8 else b) + 10 else (if s' then b + 8 else b)))
      ≤ max 0 (min 100 (if t then (if s then a + 8 else a) + 10 else (if s then a + 8 else a)))
less_after_bonuses a b s t s' t' k hs ht = ground arith

-- More failures, plugin diagnostics or tool calls never raise the score, nor does losing the deep
-- scan or the passing tests.
pub score_antitone :
    (i j : ConfidenceInput)
    → i.failure_count ≤ j.failure_count
    → i.plugin_diagnostic_count ≤ j.plugin_diagnostic_count
    → i.tool_call_count ≤ j.tool_call_count
    → (j.has_deep_scan ≡ true → i.has_deep_scan ≡ true)
    → (j.has_recent_tests_passing ≡ true → i.has_recent_tests_passing ≡ true)
    → score j ≤ score i
unfolding score
score_antitone i j f p t d r =
    let k = less_after_plugins _ _ _ _ (less_after_failures _ _ f) p in
    let l = less_after_tools _ _ _ _ k t in
    less_after_bonuses _ _ i.has_deep_scan i.has_recent_tests_passing j.has_deep_scan
      j.has_recent_tests_passing l d r
