-- ===== src/SessionQueue/Overlap.antt =====
-- How many turns of one session `SessionQueue` (src/runtime.ts) executes at a time.
use cursor_claw.Base.{ℕ, ◌≤◌, ◌<◌, ◌≡◌, List, [], ◌∷◌, arith, nat_eq, length}
use cursor_claw.SessionQueue.Drains.{IsMatched, run-IsMatched}
use cursor_claw.SessionQueue.Single.{IsOf, run-IsOf, weigh-of}
use cursor_claw.SessionQueue.{
  Options, Session, idle, begin, add_turn, after_listing, take_next, after_enqueue, after_taking,
  run_task, tick_tasks, tick, Event, begins, ticks, step, run,
}

-- The first turn of a session is enqueued, and the event loop gets to it.
abbrev pub first_enqueued : (turn : ℕ) → List Event → List Event
first_enqueued turn es = begins turn ∷ ticks ∷ ticks ∷ es

-- Two turns of a session that has none are enqueued at once, and the event loop gets to them.
abbrev pub two_at_once : (first second : ℕ) → List Event
two_at_once first second =
    begins first ∷ begins second ∷ ticks ∷ ticks ∷ ticks ∷ ticks ∷ ticks ∷ ticks ∷ []

first-IsOf :
    (o : Options) (turn : ℕ)
    → 0 < o.hard_limit
    → IsOf 0 (run o (first_enqueued turn []) idle).tasks (run o (first_enqueued turn []) idle)
unfolding run step begin tick tick_tasks run_task after_listing add_turn after_enqueue take_next
first-IsOf o turn h = ground arith

first-IsMatched :
    (o : Options) (turn : ℕ)
    → IsMatched 0 (run o (first_enqueued turn []) idle).tasks (run o (first_enqueued turn []) idle)
first-IsMatched o turn = run-IsMatched 0 o (first_enqueued turn []) idle (omega arith)

one_executing :
    (object : ℕ) (s : Session)
    → IsOf object s.tasks s
    → IsMatched object s.tasks s
    → length s.executing ≤ 1
one_executing object s one matched = ground (arith, one, matched, weigh-of object s.executing)

-- When the first turn of a session has been enqueued before a second one begins, the session executes
-- one turn at most, whatever begins and ends afterwards and in whatever order. The hard limit is
-- positive.
pub executing-run-first_enqueued :
    (o : Options) (turn : ℕ) (es : List Event)
    → 0 < o.hard_limit
    → length (run o (first_enqueued turn es) idle).executing ≤ 1
unfolding run
executing-run-first_enqueued o turn es h =
    let s = run o (first_enqueued turn []) idle in
    let one = run-IsOf 0 o es s (first-IsOf o turn h) in
    let matched = run-IsMatched 0 o es s (first-IsMatched o turn) in
    one_executing 0 (run o es s) one matched

-- Two turns that are enqueued at once for a session without a state execute at the same time: each
-- call made a state object of its own, and so each has a drain. The hard limit is positive.
pub executing-run-two_at_once :
    (o : Options) (first second : ℕ)
    → 0 < o.hard_limit
    → (run o (two_at_once first second) idle).executing ≡ (1, second) ∷ (0, first) ∷ []
unfolding run step begin tick tick_tasks run_task after_listing add_turn after_enqueue take_next
    after_taking
executing-run-two_at_once o first second h = ground arith
