-- ===== src/FileQueue.antt =====
-- `FileQueueBackend` of src/queue/file-backend.ts: one file for each session, which every call reads
-- and writes as a whole. The replacement of characters in a session's name is an argument; what
-- `JSON.parse` reads is what was written.
pub mod Calls
pub mod Races
use cursor_claw.Base.{
  ℕ, suc, ◌+◌, Bool, true, false, Option, none, some, List, [], ◌∷◌, ◌++◌, map, String,
  if◌then◌else◌, string_eq, ◌==◌,
}
use cursor_claw.Base.Dict.{or_else, get, set}
use cursor_claw.MemoryQueue.{Item, ItemId, splice}

-- The files in the order of the directory.
pub record Backend {ℓ} (P : Type ℓ) : Type ℓ where
  pub files : List (String × List (Item P))
  pub id_counter : ℕ

-- A write that is under way.
pub record Write {ℓ} (P : Type ℓ) : Type ℓ where
  pub name : String
  pub items : List (Item P)

module _ {ℓ} {P : Type ℓ} (safe : String → String) where
  unfoldable pub load : (session_id : String) → Backend P → List (Item P)
  load session_id b = or_else (get (safe session_id) b.files) []

  -- `enqueue` up to the await of its write.
  unfoldable pub begin_enqueue :
      (session_id : String) (payload : P) (now : ℕ) → Backend P → Backend P × Write P × ItemId
  unfolding load
  begin_enqueue session_id payload now b =
      let id : ItemId = record { counter = suc b.id_counter; at = now } in
      (
        record b { id_counter = suc b.id_counter },
        record {
          name = safe session_id;
          items = load session_id b ++ record { id = id; payload = payload } ∷ [];
        },
        id,
      )

  abbrev pub take_first : (session_id : String) → List (Item P) → Option (Write P × P)
  take_first session_id [] = none
  take_first session_id (x ∷ xs) = some (record { name = safe session_id; items = xs }, x.payload)

  -- `dequeue` up to the await of its write; `none` is the answer null, with no write.
  unfoldable pub begin_dequeue : (session_id : String) → Backend P → Option (Write P × P)
  unfolding load
  begin_dequeue session_id b = take_first session_id (load session_id b)

  unfoldable pub list_pending : (session_id : String) → Backend P → List ItemId
  unfolding load
  list_pending session_id b = map (λ x. x.id) (load session_id b)

module _ {ℓ} {P : Type ℓ} where
  unfoldable pub save : Write P → Backend P → Backend P
  save w b = record b { files = set w.name w.items b.files }

  -- The first file with the item, without it.
  abbrev pub remove_from :
      (name : String) (found : Option (List (Item P))) (rest : Option (Write P)) → Option (Write P)
  remove_from name none rest = rest
  remove_from name (some ys) rest = some (record { name = name; items = ys })

  unfoldable pub find_file : ItemId → List (String × List (Item P)) → Option (Write P)
  find_file id [] = none
  find_file id ((name, xs) ∷ m) = remove_from name (splice id xs) (find_file id m)

  abbrev pub save_found : Option (Write P) → Backend P → Backend P
  save_found none b = b
  save_found (some w) b = save w b

  unfoldable pub remove : ItemId → Backend P → Backend P
  unfolding find_file
  remove id b = save_found (find_file id b.files) b
