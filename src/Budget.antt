-- ===== src/Budget.antt =====
-- `AutonomyBudget` of src/scheduler.ts: how often a channel may act on its own. Times are
-- milliseconds since the epoch, so `getUTCHours` is arithmetic.
pub mod Bound
use cursor_claw.Base.{
  ℕ, ◌+◌, ◌*◌, ◌/◌, ◌%◌, ◌≡◌, Bool, true, false, ◌&&◌, ◌||◌, Option, none, some, List, [], ◌∷◌,
  ◌++◌, String, ltb, leb, if◌then◌else◌, string_eq, length,
}
use cursor_claw.Base.Dict.{or_else, get, set, delete}
use cursor_claw.Window.{window}

pub record Hours : Type 0 where
  pub start_hour : ℕ
  pub end_hour : ℕ

pub record Config : Type 0 where
  pub max_per_hour : ℕ
  pub max_per_day : ℕ
  pub quiet_hours : Option Hours

pub record Budget : Type 0 where
  pub hourly : List (String × List ℕ)
  pub daily : List (String × List ℕ)

abbrev pub hour_ms : ℕ
hour_ms = 60 * 60000

abbrev pub day_ms : ℕ
day_ms = 24 * 60 * 60000

abbrev pub utc_hour : ℕ → ℕ
utc_hour now = (now / hour_ms) % 24

-- The hours from `start` up to `end`, across midnight if `end` is the smaller.
pub in_hours : Hours → ℕ → Bool
in_hours h hour =
    (leb h.start_hour h.end_hour && (leb h.start_hour hour && ltb hour h.end_hour))
    || (ltb h.end_hour h.start_hour && (leb h.start_hour hour || ltb hour h.end_hour))

pub is_quiet : Option Hours → ℕ → Bool
is_quiet none hour = false
is_quiet (some h) hour = in_hours h hour

abbrev pub stamps : String → List (String × List ℕ) → List ℕ
stamps channel m = or_else (get channel m) []

-- The first part of `allow`: both windows of the channel without what is old.
pub filter_windows : (channel : String) (now : ℕ) → Budget → Budget
filter_windows channel now b = record {
  hourly = set channel (window hour_ms now (stamps channel b.hourly)) b.hourly;
  daily = set channel (window day_ms now (stamps channel b.daily)) b.daily;
}

-- The early returns, in order: quiet hours, then the two limits.
pub is_refused : Config → (channel : String) (now : ℕ) → Budget → Bool
is_refused c channel now b =
    if is_quiet c.quiet_hours (utc_hour now)
    then true
    else if leb c.max_per_hour (length (stamps channel b.hourly))
    then true
    else leb c.max_per_day (length (stamps channel b.daily))

-- The last part: the instant is noted in both windows.
pub note_action : (channel : String) (now : ℕ) → Budget → Budget
note_action channel now b = record {
  hourly = set channel (stamps channel b.hourly ++ now ∷ []) b.hourly;
  daily = set channel (stamps channel b.daily ++ now ∷ []) b.daily;
}

unfoldable pub allow : Config → (channel : String) (now : ℕ) → Budget → Budget × Bool
unfolding filter_windows is_refused note_action is_quiet in_hours
allow c channel now b =
    let filtered = filter_windows channel now b in
    if is_refused c channel now filtered
    then (filtered, false)
    else (note_action channel now filtered, true)

-- What a state file may hold for a channel: `none` is what is no array, and no number.
abbrev pub Saved : Type 0
Saved = List (String × Option (List (Option ℕ)))

abbrev pub numbers : List (Option ℕ) → List ℕ
numbers [] = []
numbers (none ∷ xs) = numbers xs
numbers (some n ∷ xs) = n ∷ numbers xs

abbrev pub load_stamps : Saved → List (String × List ℕ) → List (String × List ℕ)
load_stamps [] m = m
load_stamps ((channel, none) ∷ saved) m = load_stamps saved m
load_stamps ((channel, some ts) ∷ saved) m = load_stamps saved (set channel (numbers ts) m)

-- `importState`; a missing state or part of it is empty.
unfoldable pub import_state : Saved → Saved → Budget → Budget
import_state hourly daily b = record {
  hourly = load_stamps hourly [];
  daily = load_stamps daily [];
}

unfoldable pub clear_channel : String → Budget → Budget
clear_channel channel b = record {
  hourly = delete channel b.hourly;
  daily = delete channel b.daily;
}
