-- ===== src/Approvals/Args.antt =====
-- `sanitizeArgs` of src/security/approval-workflow.ts: what of a tool's arguments a request keeps.
-- A text is the list of its UTF-16 code units; numbers are those that JSON carries and have no
-- part in the function.
use cursor_claw.Base.{
  ℕ, ◌≤◌, List, [], ◌∷◌, ◌++◌, Bool, ltb, if◌then◌else◌, length, take, String, zero, suc,
}

mutual
  pub data Value : Type 0 where
    null undefined : Value
    bool : Bool → Value
    num : ℕ → Value
    text : List ℕ → Value
    array : Items → Value
    object : Fields → Value

  pub data Items : Type 0 where
    no_items : Items
    item : Value → Items → Items

  pub data Fields : Type 0 where
    no_fields : Fields
    entry : String → Value → Fields → Fields

abbrev pub max_text : ℕ
max_text = 400

-- U+2026.
abbrev pub ellipsis : ℕ
ellipsis = 0x2026

unfoldable pub sanitize_text : List ℕ → List ℕ
sanitize_text s = if ltb max_text (length s) then take max_text s ++ ellipsis ∷ [] else s

-- `slice(0, 10)` and `slice(0, 20)` count down in `room`.
unfoldable mutual
  pub sanitize_args : Value → Value
  sanitize_args null = null
  sanitize_args undefined = undefined
  sanitize_args (bool b) = bool b
  sanitize_args (num n) = num n
  sanitize_args (text s) = text (sanitize_text s)
  sanitize_args (array xs) = array (sanitize_items xs 10)
  sanitize_args (object fs) = object (sanitize_fields fs 20)

  pub sanitize_items : Items → ℕ → Items
  sanitize_items no_items room = no_items
  sanitize_items (item x xs) zero = no_items
  sanitize_items (item x xs) (suc room) = item (sanitize_args x) (sanitize_items xs room)

  pub sanitize_fields : Fields → ℕ → Fields
  sanitize_fields no_fields room = no_fields
  sanitize_fields (entry k v fs) zero = no_fields
  sanitize_fields (entry k v fs) (suc room) = entry k (sanitize_args v) (sanitize_fields fs room)

-- Every text, array and object in a value is within the limits.
unfoldable mutual
  pub IsBounded : Value → Type 0
  IsBounded null = Unit
  IsBounded undefined = Unit
  IsBounded (bool b) = Unit
  IsBounded (num n) = Unit
  IsBounded (text s) = length s ≤ 401
  IsBounded (array xs) = AreBounded xs 10
  IsBounded (object fs) = HaveBounded fs 20

  pub AreBounded : Items → ℕ → Type 0
  AreBounded no_items room = Unit
  AreBounded (item x xs) zero = ⊥
  AreBounded (item x xs) (suc room) = IsBounded x × AreBounded xs room

  pub HaveBounded : Fields → ℕ → Type 0
  HaveBounded no_fields room = Unit
  HaveBounded (entry k v fs) zero = ⊥
  HaveBounded (entry k v fs) (suc room) = IsBounded v × HaveBounded fs room
