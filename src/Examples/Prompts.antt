-- ===== src/Examples/Prompts.antt =====
-- The prompt, the clean-up of replies and the plugins at concrete inputs.
use cursor_claw.Base.{
  ℕ, ◌+◌, ◌≡◌, ◌++◌, refl, true, false, none, some, List, [], ◌∷◌, min, max, ◌*◌, ◌/◌, any, take,
}
use cursor_claw.Prompt.Notes.{
  Turn, other_provider, Text, system_notes, scope_notes, note_if, full_notes, note_of, tool_notes,
  only_if, main_session_notes, birth_notes, planning_notes, warning_notes, journal_notes,
  context_flags, should_use_minimal_tool_context,
}
use cursor_claw.Prompt.{
  Message, Options, system, user, apply_system_prompt_budget, build_prompt_messages, notes_for,
  within_budget, total_budget, note_messages, apply_user_message_freshness, retained,
  detect_instruction_contradictions, plugin_messages, flags_of, last_user, user_messages,
  scrub_message, auto_minimal,
}
use cursor_claw.Prompt.Budget.{total, demanded, all_within, total-apply_system_prompt_budget}
use cursor_claw.Prompt.Privacy.{is_private, private-notes_for, scrubbed-build_prompt_messages}
use cursor_claw.Reply.{brace_open, brace_close, find_json_object_extent}
use cursor_claw.Reply.Endings.{
  Items, plain, string, braces, no_items, char, escape, no_chars, print_items, size_items,
  find_json_object_extent-print_items,
}
use cursor_claw.PluginHost.{Host, resolves, rejects, run}
use cursor_claw.PluginHost.Failing.{
  all_values, healthy_synthesizers, insights_of, failing_ids, ids_of, run-healthy,
}

abbrev options : Options
options = record {
  max_message_chars = 4;
  expressions = record {
    run_tests = λ t. false;
    skip_tests = λ t. false;
    refactor = λ t. false;
    no_refactor = λ t. false;
    richer = λ t. false;
    tool_intent = λ t. false;
  };
  wordings = record {
    of_note = λ n. b'n' ∷ [];
    of_dropped = λ r t d. b'd' ∷ [];
    tests_conflict = [];
    refactor_conflict = [];
    user_request = [];
  };
  scrub = λ t. b's' ∷ t;
  run_plugins = λ ms. [];
}

-- A turn outside the web chat, with texts that only the web chat gets.
abbrev turn : Turn
turn = record {
  session_key = b'k' ∷ [];
  provider = other_provider;
  context_mode = none;
  tool_turn_minimal = false;
  ollama_minimal_system = false;
  tool_count = 0;
  is_main_session = false;
  profile_count = 1;
  profile_id = b'p' ∷ [];
  has_substrate = false;
  substrate = record {
    agents_text = none;
    identity_text = none;
    soul_text = none;
    birth_text = none;
    capabilities_text = none;
    user_text = some (b'u' ∷ []);
    tools_text = none;
    roadmap_text = none;
    study_goals_text = none;
  };
  memory_context = some (b'm' ∷ []);
  topics_context = none;
  experience_context = none;
  interrupted_notice = none;
  include_capabilities = false;
  allow_evolution = false;
  force_multi_path = false;
  deep_scan_summary = none;
  recent_decisions = [];
}

abbrev question : List Message
question = record { role = user; content = b'q' ∷ [] } ∷ []

abbrev two_notes : List Message
two_notes =
    record { role = system; content = 1 ∷ 2 ∷ 3 ∷ 4 ∷ 5 ∷ [] }
    ∷ record { role = system; content = 6 ∷ 7 ∷ 8 ∷ [] }
    ∷ []

total-apply_system_prompt_budget_example :
    (total (apply_system_prompt_budget 4 two_notes)
      ≡ min (max 4 (3 * 4 / 2)) (demanded 4 two_notes))
    × (all_within 4 (apply_system_prompt_budget 4 two_notes) ≡ true)
total-apply_system_prompt_budget_example = total-apply_system_prompt_budget 4 two_notes

private-notes_for_example : any is_private (notes_for options turn question []) ≡ false
private-notes_for_example = private-notes_for options turn question [] refl

abbrev sent : Message
sent = record { role = user; content = b's' ∷ b'q' ∷ [] }

prompt_run : (build_prompt_messages options turn question []).1 ≡ [] ++ sent ∷ []
unfolding build_prompt_messages apply_system_prompt_budget within_budget total_budget note_messages
    notes_for system_notes scope_notes note_if full_notes note_of tool_notes only_if
    main_session_notes birth_notes planning_notes warning_notes journal_notes
    apply_user_message_freshness retained detect_instruction_contradictions plugin_messages flags_of
    last_user context_flags user_messages scrub_message auto_minimal should_use_minimal_tool_context
prompt_run = refl

scrubbed-build_prompt_messages_example :
    (text : Text) × (n : ℕ) × (sent.content ≡ take n (b's' ∷ text))
scrubbed-build_prompt_messages_example =
    scrubbed-build_prompt_messages options turn question [] [] [] sent prompt_run

-- {"a\"}": {}}
abbrev items : Items
items =
    string (char b'a' refl refl (escape 34 (char 125 refl refl no_chars)))
      (plain b':' refl refl refl (braces no_items no_items))

find_json_object_extent-print_items_example :
    find_json_object_extent
      ((b'x' ∷ []) ++ (brace_open ∷ print_items items (brace_close ∷ b'y' ∷ [])))
      1
    ≡ some (1 + size_items items + 2)
find_json_object_extent-print_items_example =
    find_json_object_extent-print_items (b'x' ∷ []) items (b'y' ∷ [])

abbrev host : Host ℕ ℕ ℕ ℕ
host = record {
  collectors =
      record { id = "a"; timeout_ms = none; answer = λ c. resolves (c ∷ []); duration_ms = λ c. 1 }
      ∷ record {
        id = "b";
        timeout_ms = some 5;
        answer = λ c. resolves (c ∷ []);
        duration_ms = λ c. 9;
      }
      ∷ [];
  analyzers =
      record { id = "c"; timeout_ms = none; answer = λ c. rejects "no"; duration_ms = λ c. 1 } ∷ [];
  synthesizers =
      record { id = "d"; timeout_ms = none; answer = λ c. resolves (8 ∷ []); duration_ms = λ c. 1 }
      ∷ [];
  default_timeout_ms = 100;
}

run-healthy_example :
    ((run host 3).0 ≡ all_values (healthy_synthesizers host 3) (3, insights_of host 3))
    × (ids_of (run host 3).1 ≡ failing_ids host 3)
run-healthy_example = run-healthy host 3
