-- ===== src/Examples/Requests.antt =====
-- The gateway and the configuration at concrete inputs.
use cursor_claw.Base.{
  ℕ, ◌≤◌, ◌≡◌, ◌≢◌, ◌↔◌, refl, true, false, none, some, [], ◌∷◌, ◌==◌, string_eq,
}
use cursor_claw.Base.Dict.{get}
use cursor_claw.Incidents.{new_commander, Patterns, revoke_tokens}
use cursor_claw.Ingress.{token_mode, admin}
use cursor_claw.Gateway.{Request, Deps, State, admitted, admit}
use cursor_claw.Gateway.Admitting.{
  Admits, logged, admit-admitted_iff, admit-logged, admit-revoked, disable, isolate, take_all,
}
use cursor_claw.RunStore.{TurnResult}
use cursor_claw.Gateway.Waiting.{Threads, Server, resolved, agent_wait, not_found}
use cursor_claw.Gateway.Waiting.Once.{agent_wait_again}
use cursor_claw.Gateway.Waiting.Racing.{begins, finishes, run, times, times-run-le}
use cursor_claw.Gateway.Waiting.Racing as Racing
use cursor_claw.Config.{
  text, object, Fields, no_fields, field, lookup, config_patch, assign, merge, merge_entry,
  filter_keys, merge_config_patch, patch_gateway, bound_gateway,
}
use cursor_claw.Config.Patching.{gateway_field, config_patch-protected}

abbrev patterns : Patterns
patterns = record {
  ignore_instructions = λ t. false;
  curl = λ t. false;
  wget = λ t. false;
  exec = λ t. t == "exec";
  rm_rf = λ t. false;
  token = λ t. false;
}

abbrev deps : Deps
deps = record {
  net = record { lower = λ s. s; is_ip = λ s. 0; lookup = λ s. none };
  codes = λ s. [];
  strip_bearer = λ s. s;
  to_lower = λ s. s;
  hash = λ s. s;
  patterns = patterns;
  protocol_version = "2";
  auth_options = record {
    mode = token_mode;
    token = some "key";
    password = none;
    trusted_proxy_ips = [];
    trusted_identity_header = none;
  };
  rate_options = record { default_limit = 2; window_ms = 1000; method_limits = [] };
  max_entries = 10;
}

abbrev request : Request
request = record {
  method = "cron.list";
  version = "2";
  ip = "127.0.0.1";
  headers = ("authorization", "key") ∷ [];
  text = "";
}

abbrev fresh : State
fresh = record { logs = []; events = []; commander = new_commander }

admit-admitted_iff_example :
    ((admit deps request 5 fresh).1 ≡ admitted admin) ↔ Admits deps request 5 fresh admin
admit-admitted_iff_example = admit-admitted_iff deps request 5 fresh admin

admit-logged_example :
    ((admit deps request 5 fresh).0.logs ≡ logged deps request [] (admit deps request 5 fresh).1)
    × ((admit deps request 5 fresh).0.commander ≡ new_commander)
admit-logged_example = admit-logged deps request 5 fresh

abbrev after_incident : State
after_incident = record fresh {
  commander =
      take_all (λ s. s) (disable ∷ isolate ∷ [])
        (revoke_tokens (λ s. s) ("key" ∷ []) new_commander);
}

admit-revoked_example : (admit deps request 5 after_incident).1 ≢ admitted admin
unfolding get
admit-revoked_example =
    admit-revoked deps request 5 after_incident new_commander ("key" ∷ []) (disable ∷ isolate ∷ [])
      "key" admin refl refl refl refl refl

abbrev threads : Threads ℕ
threads = record { has_text = λ r. true; shows = λ p s r t. false; append = λ p s r t. t }

abbrev reply : TurnResult
reply = record { event_session = none; content = 7 }

abbrev server : Server ℕ
server = record {
  pending_runs = ("r1", resolved reply) ∷ [];
  appended = [];
  store = record { records = []; disk = []; max_completed_runs = 5 };
  threads = 0;
}

agent_wait_again_example :
    agent_wait threads "r1" 9 (agent_wait threads "r1" 8 server).0
    ≡ ((agent_wait threads "r1" 8 server).0, not_found)
unfolding agent_wait get
agent_wait_again_example = agent_wait_again threads "r1" 8 9 server refl

abbrev racing : Racing.State ℕ
racing = record { server = server; under_way = []; finished = [] }

times-run-le_example :
    times "r1"
      (run threads
        (begins "r1" reply ∷ begins "r1" reply ∷ finishes ∷ finishes ∷ [])
        racing).finished
    ≤ 1
times-run-le_example =
    times-run-le threads "r1" (begins "r1" reply ∷ begins "r1" reply ∷ finishes ∷ finishes ∷ [])
      racing refl refl

abbrev current : Fields
current =
    field "gateway"
      (object (field "auth" (text "secret") (field "bind" (text "loopback") no_fields)))
      (field "defaultModel" (text "a") no_fields)

abbrev partial : Fields
partial =
    field "gateway" (object (field "auth" (text "none") (field "bind" (text "0.0.0.0") no_fields)))
      (field "defaultModel" (text "b") no_fields)

abbrev patched : Fields
patched =
    field "gateway"
      (object (field "auth" (text "secret") (field "bind" (text "0.0.0.0") no_fields)))
      (field "defaultModel" (text "b") no_fields)

config_patch_run : config_patch (λ t. t) (λ a. true) current partial ≡ some patched
unfolding config_patch lookup assign merge merge_entry filter_keys merge_config_patch patch_gateway
    bound_gateway
config_patch_run = refl

config_patch-protected_example :
    (lookup "dm" patched ≡ lookup "dm" current)
    × (gateway_field "auth" patched ≡ gateway_field "auth" current)
config_patch-protected_example =
    config_patch-protected (λ t. t) (λ a. true) current partial patched "dm" "auth" config_patch_run
      refl refl refl refl
