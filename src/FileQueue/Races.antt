-- ===== src/FileQueue/Races.antt =====
-- Calls of src/queue/file-backend.ts that overlap: each has read the file before any writes it.
use cursor_claw.Base.{
  ℕ, zero, suc, ◌≡◌, ◌⊎◌, Option, none, some, List, [], ◌∷◌, ◌++◌, String, string_eq, All, map,
}
use cursor_claw.Base.Dict.{or_else, get}
use cursor_claw.MemoryQueue.{Item}
use cursor_claw.FileQueue.{Backend, Write, begin_enqueue, save}

-- The arguments of a call of `enqueue`, and the time of the call.
pub record Enqueue {ℓ} (P : Type ℓ) : Type ℓ where
  pub session_id : String
  pub payload : P
  pub now : ℕ

-- The backend and the writes that have not landed yet.
pub record Writing {ℓ} (P : Type ℓ) : Type ℓ where
  pub backend : Backend P
  pub writes : List (Write P)

module _ {ℓ} {P : Type ℓ} where
  abbrev put_back : Write P → Option (Write P × List (Write P)) → Option (Write P × List (Write P))
  put_back w none = none
  put_back w (some (v, vs)) = some (v, w ∷ vs)

  -- The write at a place, and the list without it.
  unfoldable pub take_at : ℕ → List (Write P) → Option (Write P × List (Write P))
  take_at n [] = none
  take_at zero (w ∷ ws) = some (w, ws)
  take_at (suc n) (w ∷ ws) = put_back w (take_at n ws)

  unfoldable pub land_taken : Option (Write P × List (Write P)) → Writing P → Writing P
  unfolding save
  land_taken none x = x
  land_taken (some (w, ws)) x = record { backend = save w x.backend; writes = ws }

  -- The writes land one by one, each time the one at the given place of those that are left.
  unfoldable pub land_all : (places : List ℕ) → Writing P → Writing P
  unfolding take_at land_taken
  land_all [] x = x
  land_all (n ∷ places) x = land_all places (land_taken (take_at n x.writes) x)

  abbrev pub payloads_of : List (Enqueue P) → List P
  payloads_of cs = map (λ c. c.payload) cs

module _ {ℓ} {P : Type ℓ} (safe : String → String) where
  -- The calls up to their writes, in their order.
  unfoldable pub begin_all : List (Enqueue P) → Backend P → Writing P
  unfolding begin_enqueue
  begin_all [] b = record { backend = b; writes = [] }
  begin_all (c ∷ cs) b =
      let (b', w, id) = begin_enqueue safe c.session_id c.payload c.now b in
      let rest = begin_all cs b' in record rest { writes = w ∷ rest.writes }

module _ {ℓ} {P : Type ℓ} (before : List (Item P)) (payloads : List P) where
  -- The items are those from before and one with one of the payloads.
  abbrev pub HasOneMore : List (Item P) → Type ℓ
  HasOneMore xs =
      (item : Item P) × ((xs ≡ before ++ item ∷ [])
        × ((us : List P) × (vs : List P) × (payloads ≡ us ++ item.payload ∷ vs)))

module _ {ℓ} {P : Type ℓ} (name : String) (before : List (Item P)) (payloads : List P) where
  abbrev AddsOne : Write P → Type ℓ
  AddsOne w = (w.name ≡ name) × HasOneMore before payloads w.items

  abbrev file_of : Backend P → List (Item P)
  file_of b = or_else (get name b.files) []

  abbrev TakenAddsOne : Option (Write P × List (Write P)) → Type ℓ
  TakenAddsOne none = Unit
  TakenAddsOne (some (w, ws)) = AddsOne w × All AddsOne ws

  -- Either no write has landed, or the file has one more item.
  abbrev Landed : List (Write P) → Writing P → Type ℓ
  Landed begun x =
      All AddsOne x.writes × ((x.writes ≡ begun) ⊎ HasOneMore before payloads (file_of x.backend))
