-- ===== src/AutonomyState.antt =====
-- src/autonomy-state.ts: the state of the autonomy that outlives the process. Instants stand for
-- the ISO texts; the identifier of a new intent is an argument.
pub mod Delivery
use cursor_claw.Base.{
  ℕ, Bool, true, false, ◌&&◌, Option, none, some, List, [], ◌∷◌, ◌++◌, String, leb, if◌then◌else◌,
  string_eq, ◌==◌, keep,
}
use cursor_claw.Base.Dict.{or_else}

pub data IntentStatus : Type 0 where
  pending sent cancelled : IntentStatus

pub record ProactiveIntent : Type 0 where
  pub id : String
  pub channel_id : String
  pub text : String
  pub not_before_ms : ℕ
  pub created_at : ℕ
  pub status : IntentStatus
  pub sent_at : Option ℕ

pub record BudgetState : Type 0 where
  pub hourly : List (String × List ℕ)
  pub daily : List (String × List ℕ)

pub record Snapshot : Type 0 where
  pub budget : BudgetState
  pub intents : List ProactiveIntent
  pub updated_at : ℕ

-- A snapshot as a caller or the file gives it: a field of another type, or none, is `none`, and so
-- is an intent that lacks a field.
pub record RawSnapshot : Type 0 where
  pub hourly : Option (List (String × List ℕ))
  pub daily : Option (List (String × List ℕ))
  pub intents : Option (List (Option ProactiveIntent))
  pub updated_at : Option ℕ

pub empty_snapshot : (now : ℕ) → Snapshot
empty_snapshot now = record {
  budget = record { hourly = []; daily = [] };
  intents = [];
  updated_at = now;
}

pub well_formed : List (Option ProactiveIntent) → List ProactiveIntent
well_formed [] = []
well_formed (none ∷ xs) = well_formed xs
well_formed (some i ∷ xs) = i ∷ well_formed xs

pub sanitize_snapshot : (now : ℕ) → Option RawSnapshot → Snapshot
unfolding empty_snapshot well_formed
sanitize_snapshot now none = empty_snapshot now
sanitize_snapshot now (some raw) = record {
  budget = record { hourly = or_else raw.hourly []; daily = or_else raw.daily [] };
  intents = well_formed (or_else raw.intents []);
  updated_at = or_else raw.updated_at now;
}

abbrev pub to_raw_intents : List ProactiveIntent → List (Option ProactiveIntent)
to_raw_intents [] = []
to_raw_intents (i ∷ is) = some i ∷ to_raw_intents is

-- What `JSON.parse` of a written snapshot gives.
pub to_raw : Snapshot → RawSnapshot
to_raw s = record {
  hourly = some s.budget.hourly;
  daily = some s.budget.daily;
  intents = some (to_raw_intents s.intents);
  updated_at = some s.updated_at;
}

-- `disk` is what the file gives when it is read and parsed, `none` where that fails.
pub record Store : Type 0 where
  pub state : Snapshot
  pub loaded : Bool
  pub disk : Option RawSnapshot

pub load : (now : ℕ) → Store → Store
unfolding sanitize_snapshot
load now s =
    if s.loaded then s else record s { state = sanitize_snapshot now s.disk; loaded = true }

pub persist : Store → Store
unfolding to_raw
persist s = record s { disk = some (to_raw s.state) }

pub replace : (next : RawSnapshot) (now : ℕ) → Store → Store
unfolding load persist sanitize_snapshot
replace next now s = persist (record (load now s) {
  state = record (sanitize_snapshot now (some next)) { updated_at = now };
})

pub upsert_budget : BudgetState → (now : ℕ) → Store → Store
unfolding load persist
upsert_budget budget now s =
    let s' = load now s in
    persist (record s' { state = record s'.state { budget = budget; updated_at = now } })

pub new_intent :
    (id channel_id text : String) (not_before_ms : Option ℕ) (now : ℕ) → ProactiveIntent
new_intent id channel_id text not_before_ms now = record {
  id = id;
  channel_id = channel_id;
  text = text;
  not_before_ms = or_else not_before_ms now;
  created_at = now;
  status = pending;
  sent_at = none;
}

pub queue_intent : ProactiveIntent → (now : ℕ) → Store → Store
unfolding load persist
queue_intent intent now s =
    let s' = load now s in
    persist (record s' {
      state = record s'.state { intents = s'.state.intents ++ (intent ∷ []); updated_at = now };
    })

abbrev pub is_pending : IntentStatus → Bool
is_pending pending = true
is_pending sent = false
is_pending cancelled = false

abbrev pub is_due : (now : ℕ) → ProactiveIntent → Bool
is_due now intent = is_pending intent.status && leb intent.not_before_ms now

-- The intents that the loaded store answers.
pub list_pending_intents : (now : ℕ) → Store → List ProactiveIntent
unfolding load
list_pending_intents now s = keep (is_due now) (load now s).state.intents

-- `find`, and the write to the intent found.
pub mark_first : (intent_id : String) (now : ℕ) → List ProactiveIntent → List ProactiveIntent
mark_first intent_id now [] = []
mark_first intent_id now (i ∷ is) =
    let rest = mark_first intent_id now is in
    if i.id == intent_id then record i { status = sent; sent_at = some now } ∷ is else i ∷ rest

pub has_intent : (intent_id : String) → List ProactiveIntent → Bool
has_intent intent_id [] = false
has_intent intent_id (i ∷ is) = if i.id == intent_id then true else has_intent intent_id is

pub mark_intent_sent : (intent_id : String) (now : ℕ) → Store → Store
unfolding load persist mark_first has_intent
mark_intent_sent intent_id now s =
    let s' = load now s in
    if has_intent intent_id s'.state.intents
    then persist (record s' {
      state = record s'.state {
        intents = mark_first intent_id now s'.state.intents;
        updated_at = now;
      };
    })
    else s'
