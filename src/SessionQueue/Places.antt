-- ===== src/SessionQueue/Places.antt =====
-- Where the turns of `SessionQueue` (src/runtime.ts) are: none is lost and none is settled twice.
use cursor_claw.Base.{
  ℕ, ◌+◌, ◌≡◌, refl, ap, Bool, Option, none, some, List, [], ◌∷◌, ◌++◌, arith, leb, ◌==◌, nat_eq,
  length, mem, Bool-cases, inl, inr,
}
use cursor_claw.SessionQueue.Counting.{among, weigh, found, weigh-extract}
use cursor_claw.SessionQueue.{
  Options, DropStrategy, drop_oldest, defer_new, Outcome, dropped_by_cap, outcome, Task, listed,
  dropped, enqueued, drained, Session, head, tail, settle, bit, warn, begin, add_turn, at_limit,
  after_listing, after_dropping, take_next, after_enqueue, after_taking, run_task, tick_tasks, tick,
  extract, finish_found, finish, Event, begins, ticks, finishes, step, run, object_of,
}

module _ (t : ℕ) where
  abbrev pub in_option : Option ℕ → ℕ
  in_option none = 0
  in_option (some u) = bit (u == t)

  abbrev pub in_task : Task → ℕ
  in_task (listed turn object pending) = bit (turn == t)
  in_task (dropped turn object oldest) = bit (turn == t) + in_option oldest
  in_task (enqueued object) = 0
  in_task (drained object next) = in_option next

  abbrev pub in_tasks : List Task → ℕ
  in_tasks [] = 0
  in_tasks (x ∷ xs) = in_task x + in_tasks xs

  abbrev pub executed : List (ℕ × ℕ) → ℕ
  executed xs = weigh (λ object u. bit (u == t)) xs

  abbrev pub times_settled : List (ℕ × Outcome) → ℕ
  times_settled [] = 0
  times_settled ((u, o) ∷ xs) = bit (u == t) + times_settled xs

  -- How often the turn is waiting, on its way, under way or settled.
  abbrev pub places : Session → ℕ
  places s = among t s.queue + in_tasks s.tasks + executed s.executing + times_settled s.settled

  abbrev pub begun : List Event → ℕ
  begun [] = 0
  begun (begins u ∷ es) = bit (u == t) + begun es
  begun (ticks ∷ es) = begun es
  begun (finishes object succeeds ∷ es) = begun es

  among-append : (us : List ℕ) (u : ℕ) → among t (us ++ u ∷ []) ≡ among t us + bit (u == t)
  among-append [] u = omega arith
  among-append (v ∷ us) u = omega (arith, among-append us u)

  in_tasks-append : (xs : List Task) (x : Task) → in_tasks (xs ++ x ∷ []) ≡ in_tasks xs + in_task x
  in_tasks-append [] x = omega arith
  in_tasks-append (y ∷ xs) x = omega (arith, in_tasks-append xs x)

  among-tail : (us : List ℕ) → among t (tail us) + in_option (head us) ≡ among t us
  among-tail [] = refl
  among-tail (u ∷ us) = omega arith

  places-add_turn :
      (turn object : ℕ) (s : Session) → places (add_turn turn object s) ≡ places s + bit (turn == t)
  unfolding add_turn
  places-add_turn turn object s =
      omega (arith, among-append s.queue turn, in_tasks-append s.tasks (enqueued object))

  places-take_next : (object : ℕ) (s : Session) → places (take_next object s) ≡ places s
  unfolding take_next
  places-take_next object s =
      omega (arith, among-tail s.queue, in_tasks-append s.tasks (drained object (head s.queue)))

  places-at_limit :
      (d : DropStrategy) (turn object : ℕ) (s : Session)
      → places (at_limit d turn object s) ≡ places s + bit (turn == t)
  unfolding at_limit
  places-at_limit defer_new turn object s = omega arith
  places-at_limit drop_oldest turn object s =
      omega
        (arith, among-tail s.queue, in_tasks-append s.tasks (dropped turn object (head s.queue)))

  places-warn : (o : Options) (depth : ℕ) (s : Session) → places (warn o depth s) ≡ places s
  places-warn o depth s = elim (Bool-cases (leb o.soft_limit depth)) [ inl e ↦ rw e | inr e ↦ rw e ]

  places-after_listing :
      (o : Options) (turn object pending : ℕ) (s : Session)
      → places (after_listing o turn object pending s) ≡ places s + bit (turn == t)
  unfolding after_listing
  places-after_listing o turn object pending s =
      let depth = pending + bit (mem object s.running) in
      elim (Bool-cases (leb o.hard_limit depth)) [
        | inl full ↦ rw full (
            omega (
              arith,
              places-at_limit o.drop_strategy turn object (warn o depth s),
              places-warn o depth s,
            ))
        | inr room ↦
            rw room
              (omega (arith, places-add_turn turn object (warn o depth s), places-warn o depth s))
      ]

  places-after_dropping :
      (turn object : ℕ) (oldest : Option ℕ) (s : Session)
      → places (after_dropping turn object oldest s)
        ≡ places s + (bit (turn == t) + in_option oldest)
  unfolding after_dropping
  places-after_dropping turn object (some u) s =
      omega (arith, places-add_turn turn object (settle u dropped_by_cap s))
  places-after_dropping turn object none s = elim (Bool-cases (mem object s.running)) [
    | inl busy ↦ rw busy (omega arith)
    | inr free ↦ rw free (omega (arith, places-add_turn turn object s))
  ]

  places-after_enqueue : (object : ℕ) (s : Session) → places (after_enqueue object s) ≡ places s
  unfolding after_enqueue
  places-after_enqueue object s = elim (Bool-cases (mem object s.running)) [
    | inl busy ↦ rw busy
    | inr free ↦
        rw free
          (places-take_next object (record s { state = some object; running = object ∷ s.running }))
  ]

  places-run_task :
      (o : Options) (x : Task) (s : Session) → places (run_task o x s) ≡ places s + in_task x
  unfolding run_task after_taking
  places-run_task o (listed turn object pending) s = places-after_listing o turn object pending s
  places-run_task o (dropped turn object oldest) s = places-after_dropping turn object oldest s
  places-run_task o (enqueued object) s = omega (arith, places-after_enqueue object s)
  places-run_task o (drained object none) s = omega arith
  places-run_task o (drained object (some turn)) s = omega arith

  places-tick_tasks :
      (o : Options) (xs : List Task) (s : Session)
      → s.tasks ≡ xs
      → places (tick_tasks o xs s) ≡ places s
  unfolding tick_tasks
  places-tick_tasks o [] s e = refl
  places-tick_tasks o (x ∷ xs) s e =
      omega (arith, places-run_task o x (record s { tasks = xs }), ap in_tasks e)

  places-finish_found :
      (object : ℕ) (succeeds : Bool) (o : Option (ℕ × List (ℕ × ℕ))) (s : Session)
      → extract object s.executing ≡ o
      → places (finish_found object succeeds o s) ≡ places s
  unfolding finish_found
  places-finish_found object succeeds none s e = refl
  places-finish_found object succeeds (some (turn, others)) s e = omega (
    arith,
    places-take_next object (settle turn (outcome succeeds) (record s { executing = others })),
    ap (λ r. found (λ object u. bit (u == t)) object r (executed s.executing)) e,
    weigh-extract (λ object u. bit (u == t)) object s.executing,
  )

  places-step :
      (o : Options) (e : Event) (s : Session) → places (step o e s) ≡ places s + begun (e ∷ [])
  unfolding step begin tick finish
  places-step o (begins turn) s =
      omega (
        arith,
        in_tasks-append s.tasks (listed turn (object_of s.state s.objects) (length s.queue)),
      )
  places-step o ticks s = omega (arith, places-tick_tasks o s.tasks s refl)
  places-step o (finishes object succeeds) s =
      omega (arith, places-finish_found object succeeds (extract object s.executing) s refl)

  begun_cons : (e : Event) (es : List Event) → begun (e ∷ es) ≡ begun (e ∷ []) + begun es
  begun_cons (begins u) es = omega arith
  begun_cons ticks es = omega arith
  begun_cons (finishes object succeeds) es = omega arith

  -- Whatever comes from outside and whenever the event loop runs, each turn stays in exactly as many
  -- places as it was put in: waiting, on its way, under way or settled. So no turn is lost, and a turn
  -- that is begun once is settled at most once.
  pub places-run :
      (o : Options) (es : List Event) (s : Session) → places (run o es s) ≡ places s + begun es
  unfolding run
  places-run o [] s = omega arith
  places-run o (e ∷ es) s =
      omega (arith, places-run o es (step o e s), places-step o e s, begun_cons e es)
