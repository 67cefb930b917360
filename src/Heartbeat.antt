-- ===== src/Heartbeat.antt =====
-- `HeartbeatRunner` of src/scheduler.ts. `getHours`, the local hour, is an argument. The factors
-- 0.5, 0.75 and 1.2 are fractions here, which is what the floating product rounds down to for
-- intervals under 2^50 ms.
pub mod Interval
use cursor_claw.Base.{
  ℕ, ◌*◌, ◌/◌, ◌≡◌, Bool, true, false, not, ◌&&◌, ◌||◌, Option, none, some, String, ltb, leb, eqb,
  if◌then◌else◌, min, max,
}
use cursor_claw.Budget.{Hours, Budget, allow}
use cursor_claw.Budget as Auto

pub record Config : Type 0 where
  pub enabled : Bool
  pub min_ms : ℕ
  pub max_ms : ℕ
  pub active_hours : Option Hours

pub is_active : Option Hours → ℕ → Bool
is_active none hour = true
is_active (some h) hour =
    if leb h.start_hour h.end_hour
    then leb h.start_hour hour && ltb hour h.end_hour
    else leb h.start_hour hour || ltb hour h.end_hour

-- The new interval, which is also the new `currentIntervalMs`.
unfoldable pub next_interval : Config → (unread hour current : ℕ) → ℕ
unfolding is_active
next_interval c unread hour current =
    if not (is_active c.active_hours hour)
    then c.max_ms
    else if ltb 20 unread
    then max c.min_ms (current / 2)
    else if ltb 8 unread
    then max c.min_ms (current * 3 / 4)
    else if eqb unread 0
    then min c.max_ms (current * 6 / 5)
    else current

pub data Outcome : Type 0 where
  heartbeat_ok sent failed : Outcome

-- What the turn does: `none` is a throw, and `some ok` a reply that is "HEARTBEAT_OK" or not.
abbrev pub TurnReply : Type 0
TurnReply = Option Bool

abbrev outcome : TurnReply → Outcome
outcome none = failed
outcome (some true) = heartbeat_ok
outcome (some false) = sent

-- `runOnce`: the budget, the outcome, and whether the turn ran.
unfoldable pub run_once :
    Config
    → (budget_config : Auto.Config) (bypass : Bool) (channel : String) (now : ℕ) → TurnReply
    → Budget
    → Budget × Outcome × Bool
run_once c bc bypass channel now reply b =
    if not c.enabled
    then (b, heartbeat_ok, false)
    else if bypass
    then (b, outcome reply, true)
    else (let (b', allowed) = allow bc channel now b in
        if allowed then (b', outcome reply, true) else (b', heartbeat_ok, false))
