-- ===== src/Gateway/Params.antt =====
-- The parsing of parameters and the errors of src/gateway.ts. A text is the list of its UTF-16 code
-- units; a field that is absent or null is `none`, each entry of a list is an object, and any other value is what `String` makes of it.
-- The texts of the errors are shortened, and logging on the console is left out.
pub mod Messages
use cursor_claw.Base.{
  ℕ, Bool, true, false, ◌&&◌, ◌||◌, Option, none, some, List, [], ◌∷◌, ◌++◌, String, ltb, leb,
  if◌then◌else◌, ◌==◌, string_eq, map, length, take,
}
use cursor_claw.Base.Dict.{or_else}

abbrev pub Text : Type 0
Text = List ℕ

pub data RpcError : Type 0 where
  bad_request : (message : String) → RpcError
  other_rpc_error : (status : ℕ) (code message : String) → RpcError
  plain_error not_an_error : RpcError

pub data Result {ℓ} (A : Type ℓ) : Type ℓ where
  ok : A → Result A
  err : RpcError → Result A

pub record Message : Type 0 where
  pub role : Text
  pub content : Text

abbrev pub marker : Text
marker =
    10 ∷ 10 ∷ b'[' ∷ b'.' ∷ b'.' ∷ b'.' ∷ b' ' ∷ b't' ∷ b'r' ∷ b'u' ∷ b'n' ∷ b'c' ∷ b'a' ∷ b't'
    ∷ b'e' ∷ b'd' ∷ b' ' ∷ b'f' ∷ b'o' ∷ b'r' ∷ b' ' ∷ b'l' ∷ b'e' ∷ b'n' ∷ b'g' ∷ b't' ∷ b'h'
    ∷ b']' ∷ []

abbrev pub user_text : Text
user_text = b'u' ∷ b's' ∷ b'e' ∷ b'r' ∷ []

unfoldable pub cut_content : (max_message_chars : ℕ) → Text → Text
cut_content max_message_chars content =
    if ltb max_message_chars (length content)
    then take max_message_chars content ++ marker
    else content

unfoldable pub parse_message : (max_message_chars : ℕ) → Option Text × Option Text → Message
unfolding cut_content
parse_message max_message_chars (role, content) = record {
  role = or_else role user_text;
  content = cut_content max_message_chars (or_else content []);
}

-- `none` is a value that is no array.
unfoldable pub parse_messages :
    (max_messages_per_turn max_message_chars : ℕ)
    → Option (List (Option Text × Option Text))
    → Result (List Message)
unfolding parse_message
parse_messages max_messages_per_turn max_message_chars none =
    err (bad_request "messages must be array")
parse_messages max_messages_per_turn max_message_chars (some ms) =
    if ltb max_messages_per_turn (length ms)
    then err (bad_request "message count exceeds server limit")
    else ok (map (parse_message max_message_chars) ms)

pub record SessionContext : Type 0 where
  pub session_id : String
  pub channel_id : String
  pub channel_kind : String
  pub user_id : Option String

-- Three fields that are given as texts that are not empty.
abbrev pub required :
    Option String → Option String → Option String → Option String → Result SessionContext
required (some s) (some c) (some k) u =
    if s == "" || (c == "" || k == "")
    then err (bad_request "invalid session context")
    else ok (record { session_id = s; channel_id = c; channel_kind = k; user_id = u })
required _ _ _ u = err (bad_request "invalid session context")

unfoldable pub parse_session_context :
    (session_id channel_id channel_kind user_id : Option String) → Result SessionContext
parse_session_context session_id channel_id channel_kind user_id =
    required session_id channel_id channel_kind user_id

-- `none` is undefined; `parse_int` answers `none` for what is no number above 0.
unfoldable pub parse_optional_positive_integer {ℓ} :
    {A : Type ℓ} (parse_int : A → Option ℕ) → Option A → Result (Option ℕ)
parse_optional_positive_integer parse_int none = ok none
parse_optional_positive_integer parse_int (some a) = elim (parse_int a) [
  | none ↦ err (bad_request "must be a positive integer")
  | some n ↦ if ltb 0 n then ok (some n) else err (bad_request "must be a positive integer")
]

unfoldable pub parse_string_array : Option (List String) → Result (List String)
parse_string_array none = err (bad_request "must be array")
parse_string_array (some xs) = ok xs

-- The tokens of an incident: undefined, no array, or an array.
pub data Tokens : Type 0 where
  undefined no_array : Tokens
  given : List String → Tokens

unfoldable pub parse_incident_tokens : Tokens → Result (List String)
parse_incident_tokens undefined = ok []
parse_incident_tokens no_array = err (bad_request "incident tokens must be array")
parse_incident_tokens (given ts) = ok ts

-- The status, the code and the message of an answer.
unfoldable pub map_rpc_error : RpcError → ℕ × (String × String)
map_rpc_error (bad_request m) = (400, ("BAD_REQUEST", m))
map_rpc_error (other_rpc_error status code m) = (status, (code, m))
map_rpc_error plain_error = (500, ("INTERNAL", "Internal server error"))
map_rpc_error not_an_error = (500, ("INTERNAL", "Internal server error"))
