-- ===== src/ThreadStore.antt =====
-- src/thread-store.ts for one profile: the threads of messages, one file for each session. A text is
-- the list of its UTF-16 code units. Writing succeeds.
pub mod Names
pub mod Messages
use cursor_claw.Base.{
  ℕ, suc, keep, ◌-◌, Bool, true, false, ◌||◌, ◌&&◌, Option, none, some, List, [], ◌∷◌, ◌++◌, leb,
  eqb, if◌then◌else◌, map, take, drop, take_last, length, Eq, list_beq, list_beq_iff, nat_eq,
}
use cursor_claw.Base.Dict.{get, set}
use cursor_claw.Cron.Duration.{trim}

pub data Role : Type 0 where
  user assistant other_role : Role

pub record ThreadMessage : Type 0 where
  pub id : ℕ
  pub role : Role
  pub content : List ℕ
  pub at : ℕ

-- An entry of a file: a message, or a value that has no role and content.
pub data Entry : Type 0 where
  message_entry : ThreadMessage → Entry
  other_entry : Entry

instance abbrev pub text_eq : Eq (List ℕ)
text_eq = record { is_same = list_beq; is_same_iff = list_beq_iff }

-- The files by their names; `none` is a file that no list of messages is read from.
pub record Store : Type 0 where
  pub files : List (List ℕ × Option (List Entry))

abbrev pub max_messages_per_thread : ℕ
max_messages_per_thread = 1000

abbrev pub session_id_max_len : ℕ
session_id_max_len = 128

abbrev pub is_safe_unit : ℕ → Bool
is_safe_unit c =
    leb b'a' c && leb c b'z'
    || (leb b'A' c && leb c b'Z' || (leb b'0' c && leb c b'9' || (eqb c b'_' || eqb c b'-')))

abbrev pub safe_unit : ℕ → ℕ
safe_unit c = if is_safe_unit c then c else b'_'

abbrev pub or_empty : List ℕ → List ℕ
or_empty [] = b'_' ∷ b'e' ∷ b'm' ∷ b'p' ∷ b't' ∷ b'y' ∷ []
or_empty (c ∷ s) = c ∷ s

unfoldable pub sanitize_session_id : List ℕ → List ℕ
sanitize_session_id session_id =
    or_empty (map safe_unit (take session_id_max_len (trim session_id)))

abbrev pub is_shown : Role → Bool
is_shown user = true
is_shown assistant = true
is_shown other_role = false

abbrev pub keep_message : ThreadMessage → List ThreadMessage → List ThreadMessage
keep_message m ms = if is_shown m.role then m ∷ ms else ms

unfoldable pub valid_messages : List Entry → List ThreadMessage
valid_messages [] = []
valid_messages (other_entry ∷ es) = valid_messages es
valid_messages (message_entry m ∷ es) = keep_message m (valid_messages es)

abbrev pub read_file : Option (Option (List Entry)) → List ThreadMessage
read_file none = []
read_file (some none) = []
read_file (some (some es)) = valid_messages es

unfoldable pub get_thread : (session_id : List ℕ) → Store → List ThreadMessage
unfolding sanitize_session_id valid_messages
get_thread session_id s = read_file (get (sanitize_session_id session_id) s.files)

unfoldable pub write_thread : (session_id : List ℕ) → List ThreadMessage → Store → Store
unfolding sanitize_session_id
write_thread session_id ms s = record s {
  files = set (sanitize_session_id session_id) (some (map message_entry ms)) s.files;
}

-- A message to set, by its role and content.
abbrev pub numbered : (ids : ℕ → ℕ) (at n : ℕ) → List (Role × List ℕ) → List ThreadMessage
numbered ids at n [] = []
numbered ids at n ((role, content) ∷ ms) =
    record { id = ids n; role = role; content = content; at = at } ∷ numbered ids at (suc n) ms

unfoldable pub set_thread :
    (session_id : List ℕ) → List (Role × List ℕ) → (ids : ℕ → ℕ) (now : ℕ) → Store → Store
unfolding write_thread
set_thread session_id messages ids now s =
    write_thread session_id
      (numbered ids now 0 (take_last max_messages_per_thread (keep (λ m. is_shown m.0) messages))) s

unfoldable pub append_message : (session_id : List ℕ) → (message : ThreadMessage) → Store → Store
unfolding write_thread get_thread
append_message session_id message s =
    write_thread session_id
      (take_last max_messages_per_thread (get_thread session_id s ++ message ∷ [])) s
