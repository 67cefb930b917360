-- ===== src/Prompt/Notes.antt =====
-- The notes that `buildPromptMessages` of src/runtime.ts puts before the messages of the user.
use cursor_claw.Base.{
  ℕ, ◌-◌, Bool, true, false, not, ◌&&◌, ◌||◌, Option, none, some, List, [], ◌∷◌, ◌++◌, ltb, leb,
  eqb, if◌then◌else◌, codes_eq, length, take,
}
use cursor_claw.Cron.Duration.{trim}

abbrev pub Text : Type 0
Text = List ℕ

-- A system message by its place in the source, with the text that its wording holds.
pub data Note : Type 0 where
  profile_scope minimal_continuity when_to_update ollama_continuity ollama_access tools_required :
      Note
  ollama_tools compatible_tools substrate_or_memory web_chat speakers no_birth evolution planning :
      Note
  multi_path : Note
  agents identity soul user_file session_memory recent_topics experiences interrupted birth :
      Text → Note
  capabilities tools_file roadmap study_goals freshness_summary deep_scan : Text → Note
  contradictions decisions : List Text → Note

pub data Provider : Type 0 where
  ollama lm_studio openai_compatible other_provider : Provider

pub data ContextMode : Type 0 where
  full minimal auto : ContextMode

-- The files of the substrate that the prompt uses.
pub record Substrate : Type 0 where
  pub agents_text : Option Text
  pub identity_text : Option Text
  pub soul_text : Option Text
  pub birth_text : Option Text
  pub capabilities_text : Option Text
  pub user_text : Option Text
  pub tools_text : Option Text
  pub roadmap_text : Option Text
  pub study_goals_text : Option Text

-- What a turn brings along, besides its messages. A service that is not there answers `none`.
pub record Turn : Type 0 where
  pub session_key : Text
  pub provider : Provider
  pub context_mode : Option ContextMode
  pub tool_turn_minimal : Bool
  pub ollama_minimal_system : Bool
  pub tool_count : ℕ
  pub is_main_session : Bool
  pub profile_count : ℕ
  pub profile_id : Text
  pub has_substrate : Bool
  pub substrate : Substrate
  pub memory_context : Option Text
  pub topics_context : Option Text
  pub experience_context : Option Text
  pub interrupted_notice : Option Text
  pub include_capabilities : Bool
  pub allow_evolution : Bool
  pub force_multi_path : Bool
  pub deep_scan_summary : Option Text
  pub recent_decisions : List Text

-- What the freshness of the messages adds.
pub record Freshness : Type 0 where
  pub summary_line : Option Text
  pub found : List Text

abbrev pub is_empty {ℓ} : {A : Type ℓ} → List A → Bool
is_empty [] = true
is_empty (x ∷ xs) = false

abbrev pub non_empty : Text → Option Text
non_empty [] = none
non_empty (c ∷ t) = some (c ∷ t)

-- `text?.trim()`, where it is not the empty text.
abbrev pub trimmed : Option Text → Option Text
trimmed none = none
trimmed (some t) = non_empty (trim t)

abbrev pub is_some {ℓ} : {A : Type ℓ} → Option A → Bool
is_some none = false
is_some (some a) = true

unfoldable pub note_of : (Text → Note) → Option Text → List Note
note_of f none = []
note_of f (some t) = f t ∷ []

unfoldable pub note_if : Bool → Note → List Note
note_if true n = n ∷ []
note_if false n = []

unfoldable pub only_if {ℓ} : {A : Type ℓ} → Bool → List A → List A
only_if true xs = xs
only_if false xs = []

abbrev pub is_ollama : Provider → Bool
is_ollama ollama = true
is_ollama _ = false

abbrev pub is_compatible : Provider → Bool
is_compatible lm_studio = true
is_compatible openai_compatible = true
is_compatible _ = false

-- What `shouldUseMinimalToolContext` answers; what its two tests of the text find are arguments.
unfoldable pub should_use_minimal_tool_context : (tool_count : ℕ) (richer tool_intent : Bool) → Bool
should_use_minimal_tool_context tool_count richer tool_intent =
    if eqb tool_count 0 then false else if richer then false else tool_intent

-- Whether only the last message of the user is sent, and whether the system prompt is the minimal
-- one.
abbrev mode_flags : Turn → (has_last_user auto_minimal : Bool) → Option ContextMode → Bool × Bool
mode_flags t has_last_user auto_minimal (some full) = (false, false)
mode_flags t has_last_user auto_minimal (some minimal) =
    (ltb 0 t.tool_count && has_last_user, ltb 0 t.tool_count)
mode_flags t has_last_user auto_minimal (some auto) = (auto_minimal && has_last_user, auto_minimal)
mode_flags t has_last_user auto_minimal none = (
  t.tool_turn_minimal && (ltb 0 t.tool_count && has_last_user),
  t.ollama_minimal_system && ltb 0 t.tool_count,
)

unfoldable pub context_flags : Turn → (has_last_user auto_minimal : Bool) → Bool × Bool
context_flags t has_last_user auto_minimal =
    if is_ollama t.provider then mode_flags t has_last_user auto_minimal t.context_mode else (
      not (is_compatible t.provider)
          && (t.tool_turn_minimal && (ltb 0 t.tool_count && has_last_user)),
      false,
    )

unfoldable pub scope_notes : Turn → List Note
scope_notes t = note_if (ltb 1 t.profile_count && not (is_empty t.profile_id)) profile_scope

unfoldable pub minimal_notes : Turn → List Note
minimal_notes t =
    minimal_continuity
    ∷ (note_of agents (trimmed t.substrate.agents_text)
        ++ (note_of identity (trimmed t.substrate.identity_text)
            ++ (note_of soul (trimmed t.substrate.soul_text) ++ when_to_update ∷ [])))

abbrev pub tool_access_notes : (minimal_system : Bool) → Provider → List Note
tool_access_notes minimal_system p =
    if is_ollama p && not minimal_system
    then ollama_continuity ∷ ollama_access ∷ []
    else tools_required
      ∷ (note_if (is_ollama p) ollama_tools ++ note_if (is_compatible p) compatible_tools)

unfoldable pub tool_notes : (minimal_system : Bool) → Turn → List Note
tool_notes minimal_system t =
    only_if (ltb 0 t.tool_count)
      (tool_access_notes minimal_system t.provider ++ substrate_or_memory ∷ [])

-- The notes for the web chat only.
unfoldable pub main_session_notes : Turn → List Note
main_session_notes t = only_if t.is_main_session (
    web_chat
    ∷ speakers
    ∷ (note_of user_file (trimmed t.substrate.user_text)
        ++ (note_of session_memory (trimmed t.memory_context)
            ++ (note_of recent_topics (trimmed t.topics_context)
                ++ (note_of experiences (trimmed t.experience_context)
                    ++ note_of interrupted (trimmed t.interrupted_notice))))))

abbrev pub birth_found : (has_substrate : Bool) → Option Text → List Note
birth_found has_substrate (some b) = birth b ∷ []
birth_found has_substrate none = note_if has_substrate no_birth

unfoldable pub birth_notes : (is_first_turn : Bool) → Turn → List Note
birth_notes is_first_turn t =
    only_if is_first_turn (birth_found t.has_substrate (trimmed t.substrate.birth_text))

-- The text, or its beginning and three dots.
unfoldable pub cut_text : (limit : ℕ) → Text → Text
cut_text limit t = if leb (length t) limit then t else take (limit - 3) t ++ b'.' ∷ b'.' ∷ b'.' ∷ []

abbrev pub map_text : (Text → Text) → Option Text → Option Text
map_text f none = none
map_text f (some t) = some (f t)

unfoldable pub planning_notes : Turn → List Note
planning_notes t =
    only_if t.include_capabilities
      (note_of capabilities (map_text (cut_text 500) (trimmed t.substrate.capabilities_text)))
    ++ (note_of tools_file (map_text (cut_text 400) (trimmed t.substrate.tools_text))
        ++ (note_of roadmap (trimmed t.substrate.roadmap_text)
            ++ (note_of study_goals (trimmed t.substrate.study_goals_text)
                ++ (note_if (t.allow_evolution && t.is_main_session) evolution
                    ++ note_if
                        (is_some (trimmed t.substrate.agents_text)
                          || (is_some (trimmed t.substrate.roadmap_text)
                              || is_some (trimmed t.substrate.study_goals_text)))
                        planning))))

abbrev given_text : Option Text → Option Text
given_text none = none
given_text (some t) = non_empty t

unfoldable pub warning_notes : Freshness → Turn → List Note
warning_notes f t =
    note_of freshness_summary f.summary_line
    ++ (note_if (not (is_empty f.found)) (contradictions f.found)
        ++ (note_if t.force_multi_path multi_path
            ++ note_of deep_scan (given_text t.deep_scan_summary)))

-- With another system prompt than the minimal one.
unfoldable pub full_notes : (is_first_turn : Bool) → Freshness → Turn → List Note
full_notes is_first_turn f t =
    note_of agents (trimmed t.substrate.agents_text)
    ++ (tool_notes false t
        ++ (note_of identity (trimmed t.substrate.identity_text)
            ++ (note_of soul (trimmed t.substrate.soul_text)
                ++ (main_session_notes t
                    ++ (birth_notes is_first_turn t ++ (planning_notes t ++ warning_notes f t))))))

unfoldable pub journal_notes : Turn → List Note
journal_notes t = note_if (not (is_empty t.recent_decisions)) (decisions t.recent_decisions)

unfoldable pub system_notes : (minimal_system is_first_turn : Bool) → Freshness → Turn → List Note
system_notes minimal_system is_first_turn f t =
    scope_notes t
    ++ (if minimal_system then minimal_notes t else full_notes is_first_turn f t ++ journal_notes t)
