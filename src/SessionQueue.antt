-- ===== src/SessionQueue.antt =====
-- `SessionQueue` of src/runtime.ts for one session key, over the in-memory backend. The session's
-- queue is the list that MemoryQueue/Fifo.antt shows that backend to be.
-- An async function runs up to its first `await`, and a call of the backend takes effect at once;
-- what follows an `await` is a task that the event loop runs later, the oldest task first. The end
-- of a turn's `execute` comes from outside at any time. A turn is known by a number.
pub mod Counting
pub mod Places
pub mod Drains
pub mod Waking
pub mod Ending
pub mod Single
pub mod Overlap
use cursor_claw.Base.{
  ℕ, suc, ◌+◌, Bool, true, false, not, Option, none, some, List, [], ◌∷◌, ◌++◌, leb, if◌then◌else◌,
  ◌==◌, nat_eq, length, keep, mem,
}
use cursor_claw.Base.Dict.{or_else}

pub data DropStrategy : Type 0 where
  drop_oldest defer_new : DropStrategy

pub record Options : Type 0 where
  pub soft_limit : ℕ
  pub hard_limit : ℕ
  pub drop_strategy : DropStrategy

-- The errors that a turn may be rejected with, and the end of its promise.
pub data Outcome : Type 0 where
  resolved hard_cap_reached dropped_by_cap no_drop_candidate execute_failed : Outcome

-- What waits for the event loop: `enqueueAsync` after `listPending` (with the length of its answer),
-- after `dequeue`, after `enqueue`, and `drain` after `dequeue`. Each holds the state object of the
-- session that its function holds.
pub data Task : Type 0 where
  listed : (turn object pending : ℕ) → Task
  dropped : (turn object : ℕ) → Option ℕ → Task
  enqueued : (object : ℕ) → Task
  drained : (object : ℕ) → Option ℕ → Task

-- State objects are numbered as they are made; `state` is the map's entry, and `running` lists the
-- objects whose flag is set. `executing` are the turns that `drain` awaits, each with its object.
pub record Session : Type 0 where
  pub queue : List ℕ
  pub state : Option ℕ
  pub objects : ℕ
  pub running : List ℕ
  pub tasks : List Task
  pub executing : List (ℕ × ℕ)
  pub settled : List (ℕ × Outcome)
  pub warnings : List ℕ

abbrev pub idle : Session
idle = record {
  queue = [];
  state = none;
  objects = 0;
  running = [];
  tasks = [];
  executing = [];
  settled = [];
  warnings = [];
}

abbrev pub head : List ℕ → Option ℕ
head [] = none
head (t ∷ ts) = some t

abbrev pub tail : List ℕ → List ℕ
tail [] = []
tail (t ∷ ts) = ts

abbrev pub settle : ℕ → Outcome → Session → Session
settle turn o s = record s { settled = (turn, o) ∷ s.settled }

abbrev pub object_of : Option ℕ → (fresh : ℕ) → ℕ
object_of none fresh = fresh
object_of (some object) fresh = object

abbrev pub fresh_after : Option ℕ → (fresh : ℕ) → ℕ
fresh_after none fresh = suc fresh
fresh_after (some object) fresh = fresh

-- `enqueue`, up to the await of `listPending`.
unfoldable pub begin : (turn : ℕ) → Session → Session
begin turn s = record s {
  objects = fresh_after s.state s.objects;
  tasks = s.tasks ++ (listed turn (object_of s.state s.objects) (length s.queue) ∷ []);
}

-- The call of `backend.enqueue` at the end of `enqueueAsync`.
unfoldable pub add_turn : (turn object : ℕ) → Session → Session
add_turn turn object s = record s {
  queue = s.queue ++ (turn ∷ []);
  tasks = s.tasks ++ (enqueued object ∷ []);
}

abbrev pub bit : Bool → ℕ
bit true = 1
bit false = 0

abbrev pub warn : Options → (depth : ℕ) → Session → Session
warn o depth s =
    if leb o.soft_limit depth then record s { warnings = s.warnings ++ (depth ∷ []) } else s

-- The hard limit is reached: the new turn is rejected, or `dequeue` is called.
unfoldable pub at_limit : DropStrategy → (turn object : ℕ) → Session → Session
at_limit defer_new turn object s = settle turn hard_cap_reached s
at_limit drop_oldest turn object s = record s {
  queue = tail s.queue;
  tasks = s.tasks ++ (dropped turn object (head s.queue) ∷ []);
}

unfoldable pub after_listing : Options → (turn object pending : ℕ) → Session → Session
unfolding at_limit add_turn
after_listing o turn object pending s =
    let depth = pending + bit (mem object s.running) in
    let s' = warn o depth s in
    if leb o.hard_limit depth
    then at_limit o.drop_strategy turn object s'
    else add_turn turn object s'

unfoldable pub after_dropping : (turn object : ℕ) → Option ℕ → Session → Session
unfolding add_turn
after_dropping turn object (some oldest) s = add_turn turn object (settle oldest dropped_by_cap s)
after_dropping turn object none s =
    if mem object s.running then settle turn no_drop_candidate s else add_turn turn object s

-- The call of `backend.dequeue` in the loop of `drain`.
unfoldable pub take_next : (object : ℕ) → Session → Session
take_next object s = record s {
  queue = tail s.queue;
  tasks = s.tasks ++ (drained object (head s.queue) ∷ []);
}

-- The map gets the object of this call, and `drain` reads it back.
unfoldable pub after_enqueue : (object : ℕ) → Session → Session
unfolding take_next
after_enqueue object s =
    let s' = record s { state = some object } in
    if mem object s.running
    then s'
    else take_next object (record s' { running = object ∷ s.running })

-- `drain` ends at `null`, and else executes the turn.
unfoldable pub after_taking : (object : ℕ) → Option ℕ → Session → Session
after_taking object none s = record s { running = keep (λ j. not (j == object)) s.running }
after_taking object (some turn) s = record s { executing = (object, turn) ∷ s.executing }

unfoldable pub run_task : Options → Task → Session → Session
unfolding after_listing after_dropping after_enqueue after_taking
run_task o (listed turn object pending) s = after_listing o turn object pending s
run_task o (dropped turn object oldest) s = after_dropping turn object oldest s
run_task o (enqueued object) s = after_enqueue object s
run_task o (drained object next) s = after_taking object next s

unfoldable pub tick_tasks : Options → List Task → Session → Session
unfolding run_task
tick_tasks o [] s = s
tick_tasks o (task ∷ rest) s = run_task o task (record s { tasks = rest })

-- The event loop runs its oldest task.
unfoldable pub tick : Options → Session → Session
unfolding tick_tasks
tick o s = tick_tasks o s.tasks s

-- The turn that the drain of an object executes, and the other ones.
unfoldable pub extract : (object : ℕ) → List (ℕ × ℕ) → Option (ℕ × List (ℕ × ℕ))
extract object [] = none
extract object ((j, turn) ∷ xs) =
    let rest = extract object xs in
    if j == object
    then some (turn, xs)
    else elim rest [ none ↦ none | some (t, ys) ↦ some (t, (j, turn) ∷ ys) ]

abbrev pub outcome : (succeeds : Bool) → Outcome
outcome true = resolved
outcome false = execute_failed

unfoldable pub finish_found :
    (object : ℕ) (succeeds : Bool) → Option (ℕ × List (ℕ × ℕ)) → Session → Session
unfolding take_next
finish_found object succeeds none s = s
finish_found object succeeds (some (turn, others)) s =
    take_next object (settle turn (outcome succeeds) (record s { executing = others }))

-- The turn of a drain ends.
unfoldable pub finish : (object : ℕ) (succeeds : Bool) → Session → Session
unfolding finish_found extract
finish object succeeds s = finish_found object succeeds (extract object s.executing) s

pub data Event : Type 0 where
  begins : (turn : ℕ) → Event
  ticks : Event
  finishes : (object : ℕ) (succeeds : Bool) → Event

unfoldable pub step : Options → Event → Session → Session
unfolding begin tick finish
step o (begins turn) s = begin turn s
step o ticks s = tick o s
step o (finishes object succeeds) s = finish object succeeds s

-- Any order of what comes from outside and of the event loop's ticks.
unfoldable pub run : Options → List Event → Session → Session
unfolding step
run o [] s = s
run o (e ∷ es) s = run o es (step o e s)
