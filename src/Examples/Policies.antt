-- ===== src/Examples/Policies.antt =====
-- The failure guard, the resets, the score and the plans of messages at concrete inputs.
use cursor_claw.Base.{◌≡◌, refl, inr, true, false, none, some, [], ◌∷◌, arith, string_eq}
use cursor_claw.Base.Dict.{get}
use cursor_claw.Reliability.{ConfidenceInput}
use cursor_claw.Responsiveness.{
  EngineOptions, Engine, SendPlanInput, thinking, plan_send, should_send,
}
use cursor_claw.Ingress.{
  IngressConfig, pairing, mention_required, AuthOptions, AuthContext, token_mode,
}
use cursor_claw.Responsiveness.Pacing.{plans, plan_send_after_plans}

abbrev calm : ConfidenceInput
calm = record {
  failure_count = 1;
  has_deep_scan = true;
  plugin_diagnostic_count = 0;
  tool_call_count = 9;
  has_recent_tests_passing = true;
}

abbrev troubled : ConfidenceInput
troubled = record calm {
  failure_count = 2;
  plugin_diagnostic_count = 3;
  has_recent_tests_passing = false;
}

abbrev engine_options : EngineOptions
engine_options = record { typing_mode = thinking; min_inter_message_ms = 100; cooldown_ms = 1000 }

abbrev idle_engine : Engine
idle_engine = record { presence = []; last_sent_by_channel = []; last_greeting_by_thread = [] }

abbrev message : SendPlanInput
message = record {
  channel_id = "c";
  thread_id = "t";
  is_new_thread = true;
  is_complex = false;
  has_tool_calls = true;
  urgent = false;
}

plan_send_after_plans_example :
    (plan_send engine_options message 560 (
      plans engine_options
        ((message, 550) ∷ [])
        (plan_send engine_options message 500 idle_engine).0)).1.allow_send
    ≡ false
unfolding plan_send should_send get
plan_send_after_plans_example =
    plan_send_after_plans engine_options message 500 560 ((message, 550) ∷ []) idle_engine refl
      message refl refl (omega arith) (inr (refl, omega arith), tt)

abbrev friends_only : IngressConfig
friends_only = record {
  dm_policy = pairing;
  group_policy = mention_required;
  dm_allowlist = "ann" ∷ [];
  group_allowlist = [];
}

abbrev token_options : AuthOptions
token_options = record {
  mode = token_mode;
  token = some "t1";
  password = none;
  trusted_proxy_ips = [];
  trusted_identity_header = none;
}

abbrev signed_call : AuthContext
signed_call = record {
  is_local = true;
  remote_ip = "127.0.0.1";
  headers = ("authorization", "t1") ∷ [];
}
