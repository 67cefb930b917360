-- ===== src/Heartbeat/Interval.antt =====
-- How the interval moves, and when the turn runs.
use cursor_claw.Base.{ℕ, ◌≤◌, ◌≡◌, ◌↔◌, ◌⊎◌, Bool, true, not, ◌&&◌, String, arith, if◌then◌else◌}
use cursor_claw.Budget.{Budget, allow}
use cursor_claw.Budget as Auto
use cursor_claw.Heartbeat.{Config, next_interval, TurnReply, run_once}

-- The interval never leaves the configured range once it is in it.
pub next_interval_bounds :
    (c : Config) (unread hour current : ℕ)
    → c.min_ms ≤ current
    → current ≤ c.max_ms
    → (c.min_ms ≤ next_interval c unread hour current)
      × (next_interval c unread hour current ≤ c.max_ms)
unfolding next_interval
next_interval_bounds c unread hour current lo hi = ground arith

-- From an interval within the configured range, more unread events never make the next heartbeat
-- later.
pub next_interval_antitone :
    (c : Config) (unread more hour current : ℕ)
    → c.min_ms ≤ current
    → current ≤ c.max_ms
    → unread ≤ more
    → next_interval c more hour current ≤ next_interval c unread hour current
unfolding next_interval
next_interval_antitone c unread more hour current lo hi h = ground arith

-- A turn runs exactly when heartbeats are enabled and the budget is bypassed or lets it through; the
-- budget is charged as by `allow` when heartbeats are enabled and it is not bypassed, and else kept.
pub run_once_iff :
    (c : Config) (bc : Auto.Config) (bypass : Bool) (channel : String) (now : ℕ) (reply : TurnReply)
    (b : Budget)
    → let (b', out, ran) = run_once c bc bypass channel now reply b in
      let (charged, allowed) = allow bc channel now b in
      ((ran ≡ true) ↔ ((c.enabled ≡ true) × ((bypass ≡ true) ⊎ (allowed ≡ true))))
      × (b' ≡ (if c.enabled && not bypass then charged else b))
unfolding run_once
run_once_iff c bc bypass channel now reply b = (ground arith, ground arith)
