-- ===== src/Responsiveness.antt =====
-- src/responsiveness.ts: typing events, presence, pacing of messages and greetings.
pub mod Pacing
use cursor_claw.Base.{
  ℕ, ◌+◌, Bool, true, false, not, ◌&&◌, ◌||◌, Option, none, some, List, [], ◌∷◌, String, ltb,
  if◌then◌else◌, string_eq,
}
use cursor_claw.Base.Dict.{or_else, get, set, delete}

pub data TypingMode : Type 0 where
  never instant thinking message : TypingMode

pub events_for_turn : TypingMode → (is_complex has_tool_calls : Bool) → List String
events_for_turn never is_complex has_tool_calls = []
events_for_turn instant is_complex has_tool_calls = "typing:start" ∷ []
events_for_turn thinking is_complex has_tool_calls =
    if is_complex || has_tool_calls then "typing:start" ∷ "typing:keepalive" ∷ [] else []
events_for_turn message is_complex has_tool_calls = "typing:start" ∷ "typing:stop" ∷ []

pub data Status : Type 0 where
  online away busy offline : Status

pub record PresenceRecord : Type 0 where
  pub status : Status
  pub updated_at : ℕ

-- The source writes to an entry of the same status in place; the entry's place in the map and its
-- contents are those of a new entry.
pub set_presence :
    String → Status → (now : ℕ) → List (String × PresenceRecord) → List (String × PresenceRecord)
set_presence channel_id status now m =
    set channel_id (record { status = status; updated_at = now }) m

-- `now - updatedAt > ttlMs`, which is below 0 for an entry of the future.
get_presence_entry :
    (channel_id : String) (ttl_ms now : ℕ)
    → List (String × PresenceRecord)
    → Option PresenceRecord
    → List (String × PresenceRecord) × Option PresenceRecord
get_presence_entry channel_id ttl_ms now m none = (m, none)
get_presence_entry channel_id ttl_ms now m (some entry) =
    if ltb (entry.updated_at + ttl_ms) now then (delete channel_id m, none) else (m, some entry)

pub get_presence :
    (channel_id : String) (ttl_ms now : ℕ)
    → List (String × PresenceRecord)
    → List (String × PresenceRecord) × Option PresenceRecord
get_presence channel_id ttl_ms now m = get_presence_entry channel_id ttl_ms now m (get channel_id m)

-- `now - last < minInterMessageMs`, which holds for a `last` of the future.
unfoldable pub should_send :
    (min_inter_message_ms : ℕ) (channel_id : String) (now : ℕ) (urgent : Bool)
    → List (String × ℕ)
    → List (String × ℕ) × Bool
should_send min_inter_message_ms channel_id now urgent m =
    if urgent
    then (set channel_id now m, true)
    else (if ltb now (or_else (get channel_id m) 0 + min_inter_message_ms)
        then (m, false)
        else (set channel_id now m, true))

abbrev pub is_cooling : (cooldown_ms now : ℕ) → Option ℕ → Bool
is_cooling cooldown_ms now none = false
is_cooling cooldown_ms now (some last) = ltb now (last + cooldown_ms)

pub should_greet :
    (cooldown_ms : ℕ) (thread_id : String) (is_new_thread : Bool) (now : ℕ)
    → List (String × ℕ)
    → List (String × ℕ) × Bool
should_greet cooldown_ms thread_id is_new_thread now m =
    if not is_new_thread
    then (m, false)
    else (if is_cooling cooldown_ms now (get thread_id m)
        then (m, false)
        else (set thread_id now m, true))

pub record EngineOptions : Type 0 where
  pub typing_mode : TypingMode
  pub min_inter_message_ms : ℕ
  pub cooldown_ms : ℕ

pub record Engine : Type 0 where
  pub presence : List (String × PresenceRecord)
  pub last_sent_by_channel : List (String × ℕ)
  pub last_greeting_by_thread : List (String × ℕ)

pub record SendPlanInput : Type 0 where
  pub channel_id : String
  pub thread_id : String
  pub is_new_thread : Bool
  pub is_complex : Bool
  pub has_tool_calls : Bool
  pub urgent : Bool

pub record SendPlan : Type 0 where
  pub allow_send : Bool
  pub typing_events : List String
  pub greets : Bool

unfoldable pub plan_send : EngineOptions → SendPlanInput → (now : ℕ) → Engine → Engine × SendPlan
unfolding should_send should_greet
plan_send o i now e =
    let (sent, allow_send) =
      should_send o.min_inter_message_ms i.channel_id now i.urgent e.last_sent_by_channel in
    let (greeted, greets) =
      if allow_send
      then should_greet o.cooldown_ms i.thread_id i.is_new_thread now e.last_greeting_by_thread
      else (e.last_greeting_by_thread, false) in
    (
      record {
        presence = set_presence i.channel_id online now e.presence;
        last_sent_by_channel = sent;
        last_greeting_by_thread = greeted;
      },
      record {
        allow_send = allow_send;
        typing_events = events_for_turn o.typing_mode i.is_complex i.has_tool_calls;
        greets = greets;
      },
    )
