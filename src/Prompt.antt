-- ===== src/Prompt.antt =====
-- The messages that `AgentRuntime` of src/runtime.ts sends to the model for a turn: the notes of
-- `buildPromptMessages`, in Prompt/Notes.antt, its messages, the freshness of the messages of the
-- user, and the budget of the system prompt. A text is the list of its UTF-16 code units. The fixed
-- wordings, the regular expressions, the scrubber and the plugins are arguments.
pub mod Notes
pub mod Kinds
pub mod Budget
pub mod Privacy
pub mod Birth
use cursor_claw.Base.{
  ℕ, zero, suc, ◌+◌, ◌-◌, ◌*◌, ◌/◌, min, max, Bool, true, false, not, ◌&&◌, ◌||◌, Option, none,
  some, List, [], ◌∷◌, ◌++◌, ltb, leb, eqb, if◌then◌else◌, ◌==◌, codes_eq, mem, length, take,
  take_last, any, find, map,
}
use mathlib.Core.List.{reverse}
use cursor_claw.Prompt.Notes.{
  Text, Note, Turn, Freshness, is_empty, is_some, context_flags, should_use_minimal_tool_context,
  system_notes,
}

pub data Role : Type 0 where
  system user assistant other_role : Role

pub record Message : Type 0 where
  pub role : Role
  pub content : Text

-- The regular expressions, over lower-case texts where the source lowers them.
pub record Expressions : Type 0 where
  pub run_tests : Text → Bool
  pub skip_tests : Text → Bool
  pub refactor : Text → Bool
  pub no_refactor : Text → Bool
  pub richer : Text → Bool
  pub tool_intent : Text → Bool

-- The wordings: of a note, of the line that tells of dropped messages, of the two contradictions,
-- and of the words before the request of the user.
pub record Wordings : Type 0 where
  pub of_note : Note → Text
  pub of_dropped : (retained total dropped : ℕ) → Text
  pub tests_conflict : Text
  pub refactor_conflict : Text
  pub user_request : Text

pub record Options : Type 0 where
  pub max_message_chars : ℕ
  pub expressions : Expressions
  pub wordings : Wordings
  pub scrub : Text → Text
  -- The messages that the plugins answer, from those of the user.
  pub run_plugins : List Message → List Message

abbrev pub text_if : Bool → Text → List Text
text_if true t = t ∷ []
text_if false t = []

unfoldable pub detect_instruction_contradictions : Options → List Message → List Text
detect_instruction_contradictions o ms =
    let e = o.expressions in
    text_if (any (λ m. e.run_tests m.content) ms && any (λ m. e.skip_tests m.content) ms)
      o.wordings.tests_conflict
    ++ text_if (any (λ m. e.refactor m.content) ms && any (λ m. e.no_refactor m.content) ms)
        o.wordings.refactor_conflict

abbrev pub max_retained : ℕ
max_retained = 8

unfoldable pub retained : List Message → List Message
retained ms = take_last max_retained ms

-- `Math.round` of the percentage.
unfoldable pub freshness_score : List Message → ℕ
unfolding retained
freshness_score ms = (200 * length (retained ms) + max 1 (length ms)) / (2 * max 1 (length ms))

unfoldable pub apply_user_message_freshness : Options → List Message → Freshness
unfolding retained detect_instruction_contradictions
apply_user_message_freshness o ms =
    let kept = length (retained ms) in
    record {
      summary_line =
          if ltb kept (length ms)
          then some (o.wordings.of_dropped kept (length ms) (length ms - kept))
          else none;
      found = detect_instruction_contradictions o (retained ms);
    }

abbrev is_user : Role → Bool
is_user user = true
is_user _ = false

-- The last message of the user among those retained.
unfoldable pub last_user : List Message → Option Message
last_user ms = find (λ m. is_user m.role) (reverse ms)

unfoldable pub scrub_message : Options → Message → Message
scrub_message o m = record { role = m.role; content = o.scrub m.content }

abbrev pub content_of : Option Message → Text
content_of none = []
content_of (some m) = m.content

-- Whether `shouldUseMinimalToolContext` answers true for the last message of the user.
unfoldable pub auto_minimal : Options → Turn → Option Message → Bool
auto_minimal o t m =
    should_use_minimal_tool_context t.tool_count (o.expressions.richer (content_of m))
      (o.expressions.tool_intent (content_of m))

abbrev pub chosen_messages :
    Options → (minimal_context : Bool) → Option Message → List Message → List Message
chosen_messages o true (some m) ms = scrub_message o m ∷ []
chosen_messages o true none ms = ms
chosen_messages o false m ms = ms

-- The last message gets the words that ask for a tool call.
unfoldable pub ask_for_tools : Options → List Message → List Message
ask_for_tools o [] = []
ask_for_tools o (m ∷ []) =
    record { role = m.role; content = o.scrub (o.wordings.user_request ++ m.content) } ∷ []
ask_for_tools o (m ∷ n ∷ ms) = m ∷ ask_for_tools o (n ∷ ms)

unfoldable pub flags_of : Options → Turn → List Message → Bool × Bool
unfolding last_user
flags_of o t ms =
    let last = last_user (retained ms) in context_flags t (is_some last) (auto_minimal o t last)

unfoldable pub user_messages : Options → Turn → List Message → List Message
unfolding last_user flags_of
user_messages o t ms =
    let chosen =
      chosen_messages o (flags_of o t ms).0 (last_user (retained ms))
        (map (scrub_message o) (retained ms)) in
    if (flags_of o t ms).1 then ask_for_tools o chosen else chosen

unfoldable pub note_messages : Options → List Note → List Message
note_messages o [] = []
note_messages o (n ∷ ns) =
    record { role = system; content = o.scrub (o.wordings.of_note n) } ∷ note_messages o ns

unfoldable pub plugin_messages : Options → Turn → List Message → List Message
plugin_messages o t ms =
    if (flags_of o t ms).1
    then []
    else map (scrub_message o) (
        o.run_plugins (
          chosen_messages o (flags_of o t ms).0 (last_user (retained ms))
            (map (scrub_message o) (retained ms))))

-- The system messages that the rest of the budget has room for.
unfoldable pub within_budget : (per_message_max remaining : ℕ) → List Message → List Message
within_budget per_message_max remaining [] = []
within_budget per_message_max remaining (m ∷ ms) =
    let bounded = take (min per_message_max remaining) m.content in
    let rest = within_budget per_message_max (remaining - length bounded) ms in
    if eqb remaining 0
    then []
    else if is_empty bounded
    then rest
    else record { role = m.role; content = bounded } ∷ rest

unfoldable pub total_budget : (per_message_max : ℕ) → ℕ
total_budget per_message_max = max per_message_max (3 * per_message_max / 2)

unfoldable pub apply_system_prompt_budget : (per_message_max : ℕ) → List Message → List Message
unfolding within_budget total_budget
apply_system_prompt_budget per_message_max ms =
    within_budget per_message_max (total_budget per_message_max) ms

-- The sessions that had a turn, whose keys join the profile and the session.
abbrev pub Sessions : Type 0
Sessions = List Text

abbrev pub add_session : Text → Sessions → Sessions
add_session key sessions = if mem key sessions then sessions else key ∷ sessions

unfoldable pub notes_for : Options → Turn → List Message → Sessions → List Note
unfolding apply_user_message_freshness
notes_for o t ms sessions =
    system_notes (flags_of o t ms).1 (not (mem t.session_key sessions))
      (apply_user_message_freshness o ms) t

-- The sessions afterwards, and the messages of the prompt. The minimal system prompt does not look
-- at the sessions.
unfoldable pub build_prompt_messages :
    Options → Turn → List Message → Sessions → Sessions × List Message
unfolding notes_for note_messages plugin_messages user_messages
build_prompt_messages o t ms sessions = (
  if (flags_of o t ms).1 then sessions else add_session t.session_key sessions,
  apply_system_prompt_budget o.max_message_chars
        (note_messages o (notes_for o t ms sessions) ++ plugin_messages o t ms)
      ++ user_messages o t ms,
)
