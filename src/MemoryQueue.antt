-- ===== src/MemoryQueue.antt =====
-- src/queue/in-memory-backend.ts: the queues of the sessions in memory.
pub mod Fifo
use cursor_claw.Base.{
  ℕ, suc, ◌+◌, Bool, true, false, ◌&&◌, Option, none, some, List, [], ◌∷◌, ◌++◌, map, String,
  if◌then◌else◌, string_eq, nat_eq, ◌==◌,
}
use cursor_claw.Base.Dict.{or_else, get, set, delete}

-- The identifier `q-<counter>-<time>`, by its two numbers.
pub record ItemId : Type 0 where
  pub counter : ℕ
  pub at : ℕ

pub is_id : ItemId → ItemId → Bool
is_id i j = i.counter == j.counter && i.at == j.at

pub record Item {ℓ} (P : Type ℓ) : Type ℓ where
  pub id : ItemId
  pub payload : P

pub record Backend {ℓ} (P : Type ℓ) : Type ℓ where
  pub sessions : List (String × List (Item P))
  pub id_counter : ℕ

module _ {ℓ} {P : Type ℓ} where
  pub enqueue : (session_id : String) (payload : P) (now : ℕ) → Backend P → Backend P × ItemId
  enqueue session_id payload now b =
      let id : ItemId = record { counter = suc b.id_counter; at = now } in
      let list = or_else (get session_id b.sessions) [] in
      (
        record {
          sessions =
              set session_id (list ++ (record { id = id; payload = payload } ∷ [])) b.sessions;
          id_counter = suc b.id_counter;
        },
        id,
      )

  -- The map entry of a queue, which goes when the queue is empty.
  pub write_back : (session_id : String) → List (Item P) → Backend P → Backend P
  write_back session_id [] b = record b { sessions = delete session_id b.sessions }
  write_back session_id (x ∷ xs) b = record b { sessions = set session_id (x ∷ xs) b.sessions }

  pub dequeue_found :
      (session_id : String) → Option (List (Item P)) → Backend P → Backend P × Option P
  unfolding write_back
  dequeue_found session_id none b = (b, none)
  dequeue_found session_id (some []) b = (b, none)
  dequeue_found session_id (some (x ∷ xs)) b = (write_back session_id xs b, some x.payload)

  pub dequeue : (session_id : String) → Backend P → Backend P × Option P
  unfolding dequeue_found
  dequeue session_id b = dequeue_found session_id (get session_id b.sessions) b

  pub list_pending : (session_id : String) → Backend P → List ItemId
  list_pending session_id b = map (λ x. x.id) (or_else (get session_id b.sessions) [])

  -- `splice` at the first item of the identifier.
  pub splice : ItemId → List (Item P) → Option (List (Item P))
  splice id [] = none
  splice id (x ∷ xs) =
      let rest = splice id xs in
      if is_id x.id id then some xs else elim rest [ none ↦ none | some ys ↦ some (x ∷ ys) ]

  -- The first session whose queue has the identifier, and its queue without the item.
  pub find_session : ItemId → List (String × List (Item P)) → Option (String × List (Item P))
  find_session id [] = none
  find_session id ((s, xs) ∷ m) =
      let rest = find_session id m in elim (splice id xs) [ none ↦ rest | some ys ↦ some (s, ys) ]

  pub remove_found : Option (String × List (Item P)) → Backend P → Backend P
  remove_found none b = b
  remove_found (some (s, ys)) b = write_back s ys b

  pub remove : ItemId → Backend P → Backend P
  remove id b = remove_found (find_session id b.sessions) b

  pub close : Backend P → Backend P
  close b = record b { sessions = [] }
