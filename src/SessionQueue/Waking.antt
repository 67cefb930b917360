-- ===== src/SessionQueue/Waking.antt =====
-- No turn of `SessionQueue` (src/runtime.ts) is left waiting when nothing is under way.
use cursor_claw.Base.{
  ℕ, ◌+◌, ◌≡◌, refl, Bool, true, false, not, ◌&&◌, ◌||◌, Option, none, some, List, [], ◌∷◌, ◌++◌,
  arith, leb, nat_eq, mem, length, Bool-cases, inl, inr, ==_refl,
}
use cursor_claw.SessionQueue.Counting.{among-present}
use cursor_claw.SessionQueue.Places.{places-run, places, times_settled, begun}
use cursor_claw.SessionQueue.Drains.{IsMatched, drains_in, step-IsMatched}
use cursor_claw.SessionQueue.{
  Options, DropStrategy, drop_oldest, defer_new, Task, listed, dropped, enqueued, drained, Session,
  idle, head, tail, settle, bit, warn, begin, object_of, outcome, dropped_by_cap, add_turn,
  at_limit, after_listing, after_dropping, take_next, after_enqueue, after_taking, run_task,
  tick_tasks, tick, extract, finish_found, finish, Event, begins, ticks, finishes, step, run,
}

-- A drain that is about to end, one that has a turn, and an enqueueing that will look for a drain.
abbrev pub ends : Task → Bool
ends (drained j none) = true
ends _ = false

abbrev pub has_turn : Task → Bool
has_turn (drained j (some turn)) = true
has_turn _ = false

abbrev pub wakes : Task → Bool
wakes (enqueued j) = true
wakes _ = false

abbrev pub none_ends : List Task → Bool
none_ends [] = true
none_ends (x ∷ xs) = not (ends x) && none_ends xs

abbrev pub some_has_turn : List Task → Bool
some_has_turn [] = false
some_has_turn (x ∷ xs) = has_turn x || some_has_turn xs

-- An enqueueing that looks for a drain when the drains about to end have ended.
abbrev pub some_wakes : List Task → Bool
some_wakes [] = false
some_wakes (x ∷ xs) = wakes x && none_ends xs || some_wakes xs

abbrev pub is_empty {ℓ} : {A : Type ℓ} → List A → Bool
is_empty [] = true
is_empty (x ∷ xs) = false

-- If a turn waits, something under way will take it.
abbrev pub IsAwake : List Task → Session → Type 0
IsAwake xs s =
    (is_empty s.queue || (not (is_empty s.executing) || (some_has_turn xs || some_wakes xs))) ≡ true

some_has_turn-append :
    (xs : List Task) (x : Task) → some_has_turn (xs ++ x ∷ []) ≡ (some_has_turn xs || has_turn x)
some_has_turn-append [] x = ground arith
some_has_turn-append (y ∷ xs) x = ground (arith, some_has_turn-append xs x)

none_ends-append :
    (xs : List Task) (x : Task) → none_ends (xs ++ x ∷ []) ≡ (none_ends xs && not (ends x))
none_ends-append [] x = ground arith
none_ends-append (y ∷ xs) x = ground (arith, none_ends-append xs x)

some_wakes-append :
    (xs : List Task) (x : Task)
    → some_wakes (xs ++ x ∷ []) ≡ (some_wakes xs && not (ends x) || wakes x)
some_wakes-append [] x = ground arith
some_wakes-append (y ∷ xs) x = ground (arith, some_wakes-append xs x, none_ends-append xs x)

take_next-IsAwake : (j : ℕ) (s : Session) → IsAwake (take_next j s).tasks (take_next j s)
unfolding take_next
take_next-IsAwake j s = go s.queue s
  where
    go :
        (q : List ℕ) (r : Session)
        → IsAwake (r.tasks ++ drained j (head q) ∷ []) (record r { queue = tail q })
    go [] r = refl
    go (t ∷ q) r = ground (arith, some_has_turn-append r.tasks (drained j (some t)))

add_turn-IsAwake :
    (turn j : ℕ) (s : Session) → IsAwake (add_turn turn j s).tasks (add_turn turn j s)
unfolding add_turn
add_turn-IsAwake turn j s = ground (arith, some_wakes-append s.tasks (enqueued j))

at_limit-IsAwake :
    (d : DropStrategy) (turn j : ℕ) (s : Session)
    → IsAwake s.tasks s
    → IsAwake (at_limit d turn j s).tasks (at_limit d turn j s)
unfolding at_limit
at_limit-IsAwake defer_new turn j s a = a
at_limit-IsAwake drop_oldest turn j s a = ground (
  arith,
  a,
  some_wakes-append s.tasks (dropped turn j (head s.queue)),
  some_has_turn-append s.tasks (dropped turn j (head s.queue)),
)

after_listing-IsAwake :
    (o : Options) (turn j pending : ℕ) (s : Session)
    → IsAwake s.tasks s
    → IsAwake (after_listing o turn j pending s).tasks (after_listing o turn j pending s)
unfolding after_listing
after_listing-IsAwake o turn j pending s a =
    let depth = pending + bit (mem j s.running) in
    let a' : IsAwake (warn o depth s).tasks (warn o depth s) =
      elim (Bool-cases (leb o.soft_limit depth)) [ inl e ↦ rw e a | inr e ↦ rw e a ] in
    elim (Bool-cases (leb o.hard_limit depth)) [
      | inl full ↦ rw full (at_limit-IsAwake o.drop_strategy turn j (warn o depth s) a')
      | inr room ↦ rw room (add_turn-IsAwake turn j (warn o depth s))
    ]

after_dropping-IsAwake :
    (turn j : ℕ) (oldest : Option ℕ) (s : Session)
    → IsAwake s.tasks s
    → IsAwake (after_dropping turn j oldest s).tasks (after_dropping turn j oldest s)
unfolding after_dropping
after_dropping-IsAwake turn j (some u) s a = add_turn-IsAwake turn j (settle u dropped_by_cap s)
after_dropping-IsAwake turn j none s a = elim (Bool-cases (mem j s.running)) [
  | inl busy ↦ rw busy a
  | inr free ↦ rw free (add_turn-IsAwake turn j s)
]

-- Without a drain in a turn or about to end there is no drain of any object.
drains_in-eq-zero :
    (j : ℕ) (xs : List Task) → none_ends xs ≡ true → some_has_turn xs ≡ false → drains_in j xs ≡ 0
drains_in-eq-zero j [] h k = refl
drains_in-eq-zero j (listed turn i pending ∷ xs) h k = omega (arith, drains_in-eq-zero j xs h k)
drains_in-eq-zero j (dropped turn i oldest ∷ xs) h k = omega (arith, drains_in-eq-zero j xs h k)
drains_in-eq-zero j (enqueued i ∷ xs) h k = omega (arith, drains_in-eq-zero j xs h k)
drains_in-eq-zero j (drained i none ∷ xs) h k = cc
drains_in-eq-zero j (drained i (some turn) ∷ xs) h k = cc

after_enqueue-IsAwake :
    (j : ℕ) (s : Session)
    → IsMatched j s.tasks s
    → IsAwake (enqueued j ∷ s.tasks) s
    → IsAwake (after_enqueue j s).tasks (after_enqueue j s)
unfolding after_enqueue
after_enqueue-IsAwake j s m a = elim (Bool-cases (mem j s.running)) [
  | inl busy ↦ rw busy (
      ground
        (arith, a, m, among-present j j s.running busy (==_refl j), drains_in-eq-zero j s.tasks))
  | inr free ↦ rw free (take_next-IsAwake j (record s { state = some j; running = j ∷ s.running }))
]

run_task-IsAwake :
    (o : Options) (x : Task) (s : Session)
    → ((j : ℕ) → IsMatched j (x ∷ s.tasks) s)
    → IsAwake (x ∷ s.tasks) s
    → IsAwake (run_task o x s).tasks (run_task o x s)
unfolding run_task after_taking
run_task-IsAwake o (listed turn j pending) s m a = after_listing-IsAwake o turn j pending s a
run_task-IsAwake o (dropped turn j oldest) s m a = after_dropping-IsAwake turn j oldest s a
run_task-IsAwake o (enqueued j) s m a = after_enqueue-IsAwake j s (omega (arith, m j)) a
run_task-IsAwake o (drained j none) s m a = a
run_task-IsAwake o (drained j (some turn)) s m a = ground (arith, a)

tick_tasks-IsAwake :
    (o : Options) (xs : List Task) (s : Session)
    → s.tasks ≡ xs
    → ((j : ℕ) → IsMatched j xs s)
    → IsAwake xs s
    → IsAwake (tick_tasks o xs s).tasks (tick_tasks o xs s)
unfolding tick_tasks
tick_tasks-IsAwake o [] s e m a = ground (arith, a, e)
tick_tasks-IsAwake o (x ∷ xs) s e m a = run_task-IsAwake o x (record s { tasks = xs }) m a

finish_found-IsAwake :
    (j : ℕ) (succeeds : Bool) (found : Option (ℕ × List (ℕ × ℕ))) (s : Session)
    → IsAwake s.tasks s
    → IsAwake (finish_found j succeeds found s).tasks (finish_found j succeeds found s)
unfolding finish_found
finish_found-IsAwake j succeeds none s a = a
finish_found-IsAwake j succeeds (some (turn, others)) s a =
    take_next-IsAwake j (settle turn (outcome succeeds) (record s { executing = others }))

step-IsAwake :
    (o : Options) (e : Event) (s : Session)
    → ((j : ℕ) → IsMatched j s.tasks s)
    → IsAwake s.tasks s
    → IsAwake (step o e s).tasks (step o e s)
unfolding step begin tick finish
step-IsAwake o (begins turn) s m a = ground (
  arith,
  a,
  some_wakes-append s.tasks (listed turn (object_of s.state s.objects) (length s.queue)),
  some_has_turn-append s.tasks (listed turn (object_of s.state s.objects) (length s.queue)),
)
step-IsAwake o ticks s m a = tick_tasks-IsAwake o s.tasks s refl m a
step-IsAwake o (finishes j succeeds) s m a =
    finish_found-IsAwake j succeeds (extract j s.executing) s a

run-IsAwake :
    (o : Options) (es : List Event) (s : Session)
    → ((j : ℕ) → IsMatched j s.tasks s)
    → IsAwake s.tasks s
    → IsAwake (run o es s).tasks (run o es s)
unfolding run
run-IsAwake o [] s m a = a
run-IsAwake o (e ∷ es) s m a =
    run-IsAwake o es (step o e s) (λ j. step-IsMatched j o e s (m j)) (step-IsAwake o e s m a)

-- A session at rest has an empty queue.
at_rest :
    (t : ℕ) (s : Session)
    → s.tasks ≡ []
    → s.executing ≡ []
    → IsAwake s.tasks s
    → places t s ≡ times_settled t s.settled
at_rest t s no_tasks no_turns a = go s.queue a
  where
    go :
        (q : List ℕ)
        → IsAwake s.tasks (record s { queue = q })
        → places t (record s { queue = q }) ≡ times_settled t s.settled
    go [] a = rw no_tasks (rw no_turns (omega arith))
    go (u ∷ q) a = ground (arith, a, no_tasks, no_turns)

-- Whatever order the turns began and ended in and the event loop ran in: when no task waits for the
-- event loop and no turn executes, every turn is settled exactly as often as it was begun. No turn is
-- left waiting in the queue.
pub times_settled-run :
    (t : ℕ) (o : Options) (es : List Event)
    → (run o es idle).tasks ≡ []
    → (run o es idle).executing ≡ []
    → times_settled t (run o es idle).settled ≡ begun t es
times_settled-run t o es no_tasks no_turns =
    let a = run-IsAwake o es idle (λ j. omega arith) refl in
    omega (arith, at_rest t (run o es idle) no_tasks no_turns a, places-run t o es idle)
