-- ===== src/Examples/Stores.antt =====
-- The queue, the runs, the intents and the context at concrete inputs.
use cursor_claw.Base.{ℕ, ◌≡◌, refl, true, none, List, [], ◌∷◌, ◌++◌, string_eq, if◌then◌else◌}
use cursor_claw.Base.Dict.{get}
use cursor_claw.MemoryQueue.{Backend}
use cursor_claw.MemoryQueue.Fifo.{
  Call, put, take_one, answers, spec_answers, answers-spec_answers, waiting,
}
use cursor_claw.RunStore as Runs
use cursor_claw.RunStore.{
  RunRecord, is_pending, interrupt, mark_in_flight_interrupted, list_interrupted_runs, get_run,
  consume,
}
use cursor_claw.AutonomyState as Autonomy
use cursor_claw.AutonomyState.{
  ProactiveIntent, Snapshot, is_due, list_pending_intents, mark_intent_sent, queue_intent,
}
use cursor_claw.AutonomyState.Delivery.{restarted, list_pending_intents-queue_intent}
use cursor_claw.ContextTokens.{Message, apply_max_context_tokens}
use cursor_claw.ContextTokens.Trimming.{IsLongestSuffix, apply_max_context_tokens-IsLongestSuffix}

abbrev calls : List (Call ℕ)
calls =
    put "a" 1 5
    ∷ put "b" 2 6
    ∷ put "a" 3 7
    ∷ take_one "a"
    ∷ take_one "b"
    ∷ take_one "a"
    ∷ take_one "a"
    ∷ []

abbrev empty_backend : Backend ℕ
empty_backend = record { sessions = []; id_counter = 0 }

answers-spec_answers_example : answers calls empty_backend ≡ spec_answers calls (λ t. [])
unfolding waiting get
answers-spec_answers_example = answers-spec_answers calls empty_backend (λ t. []) (λ t. refl)

abbrev pending_run : RunRecord
pending_run = record {
  run_id = "r";
  session_id = "s";
  profile_id = none;
  status = Runs.pending;
  created_at = 1;
  updated_at = 1;
  consumed_at = none;
  result = none;
  error = none;
}

abbrev run_store : Runs.Store
run_store = record { records = ("r", pending_run) ∷ []; disk = []; max_completed_runs = 2000 }

abbrev due_intent : ProactiveIntent
due_intent = record {
  id = "i";
  channel_id = "c";
  text = "hi";
  not_before_ms = 5;
  created_at = 1;
  status = Autonomy.pending;
  sent_at = none;
}

abbrev intents_store : Autonomy.Store
intents_store = record {
  state = record {
    budget = record { hourly = []; daily = [] };
    intents = due_intent ∷ [];
    updated_at = 1;
  };
  loaded = true;
  disk = none;
}

abbrev later_intent : ProactiveIntent
later_intent = record due_intent { id = "j"; not_before_ms = 40 }

list_pending_intents-queue_intent_example :
    list_pending_intents 50
      (restarted intents_store.state (queue_intent later_intent 9 intents_store))
    ≡ list_pending_intents 50 intents_store
      ++ (if is_due 50 later_intent then later_intent ∷ [] else [])
list_pending_intents-queue_intent_example =
    list_pending_intents-queue_intent later_intent 9 50 intents_store.state intents_store refl

abbrev messages : List Message
messages =
    record { role = "system"; content = 1 ∷ 2 ∷ 3 ∷ 4 ∷ 5 ∷ [] }
    ∷ record { role = "user"; content = 1 ∷ 2 ∷ [] }
    ∷ record { role = "user"; content = 7 ∷ [] }
    ∷ []

apply_max_context_tokens-IsLongestSuffix_example :
    IsLongestSuffix 2 messages (apply_max_context_tokens messages 2 [])
apply_max_context_tokens-IsLongestSuffix_example =
    apply_max_context_tokens-IsLongestSuffix messages 2
