-- ===== src/Journal.antt =====
-- `DecisionJournal` of src/decision-journal.ts: the chain of its writes, rotation, and what is read
-- back. A line is of any type that its size, its blankness and its instant can be read of; whether
-- the disk takes a write is an argument of `append`.
pub mod Chain
pub mod Replay
use cursor_claw.Base.{
  ℕ, zero, suc, ◌+◌, ◌-◌, ◌*◌, min, max, Bool, true, false, not, ◌&&◌, ◌||◌, Option, none, some,
  List, [], ◌∷◌, ◌++◌, ltb, leb, eqb, if◌then◌else◌, length, take, drop, take_last, keep,
}
use mathlib.Core.List.{reverse}

-- What is read of a line: its bytes with the newline, whether it is blank, and the instant of its
-- entry, `none` when it is no JSON or has no date.
pub record Format {ℓ} (L : Type ℓ) : Type ℓ where
  pub size : L → ℕ
  pub is_blank : L → Bool
  pub at : L → Option ℕ

-- The lines of the file, `none` when there is none, and of the rotated one. `chain_broken` says that
-- `writeChain` is a rejected promise.
pub record Journal {ℓ} (L : Type ℓ) : Type ℓ where
  pub file : Option (List L)
  pub rotated : Option (List L)
  pub chain_broken : Bool
  pub max_bytes : ℕ

-- What the disk does for one entry: it takes it, or making the directory fails, or the write.
pub data Disk : Type 0 where
  takes no_directory no_write : Disk

module _ {ℓ} {L : Type ℓ} where
  unfoldable pub bytes : Format L → List L → ℕ
  bytes f [] = 0
  bytes f (l ∷ ls) = f.size l + bytes f ls

  abbrev pub rotate_found : Format L → Option (List L) → Journal L → Journal L
  rotate_found f none j = j
  rotate_found f (some ls) j =
      if ltb (bytes f ls) j.max_bytes then j else record j { file = none; rotated = some ls }

  unfoldable pub rotate_if_needed : Format L → Journal L → Journal L
  rotate_if_needed f j = rotate_found f j.file j

  abbrev pub lines_of : Option (List L) → List L
  lines_of none = []
  lines_of (some ls) = ls

  abbrev pub write : L → Journal L → Journal L
  write line j = record j { file = some (lines_of j.file ++ line ∷ []) }

  -- The callback of the chain.
  unfoldable pub write_entry : Format L → L → Disk → Journal L → Journal L × Bool
  unfolding rotate_if_needed
  write_entry f line takes j = (write line (rotate_if_needed f j), true)
  write_entry f line no_directory j = (record j { chain_broken = true }, false)
  write_entry f line no_write j = (record (rotate_if_needed f j) { chain_broken = true }, false)

  -- Whether the promise of `append` resolves. A rejected chain skips the callback.
  unfoldable pub append : Format L → L → Disk → Journal L → Journal L × Bool
  unfolding write_entry
  append f line disk j = if j.chain_broken then (j, false) else write_entry f line disk j

  abbrev pub full_lines : Format L → Option (List L) → List L
  full_lines f o = keep (λ l. not (f.is_blank l)) (lines_of o)

  -- `slice(-n)` for the clamped limit, which is above 0.
  unfoldable pub read_recent : Format L → (limit : ℕ) → Journal L → List L
  read_recent f limit j = take_last (max 1 (min 1000 limit)) (full_lines f j.file)

  abbrev pub is_since : Format L → (cutoff : ℕ) → L → Bool
  is_since f cutoff l = elim (f.at l) [ none ↦ false | some t ↦ leb cutoff t ]

  -- The loop from the newest line, with the room that is left.
  unfoldable pub collect : Format L → (cutoff room : ℕ) → (newest_first out : List L) → List L
  collect f cutoff room [] out = out
  collect f cutoff room (l ∷ ls) out =
      let taken = collect f cutoff (room - 1) ls (l ∷ out) in
      let rest = collect f cutoff room ls out in
      if eqb room 0 then out else if is_since f cutoff l then taken else rest

pub data ReplayMode : Type 0 where
  count since_last_session since_hours : ReplayMode

pub record ReplayOptions : Type 0 where
  pub limit : ℕ
  pub mode : ReplayMode
  pub hours : Option ℕ
  pub session_start_ms : Option ℕ
  pub max_entries : Option ℕ

abbrev or_else {ℓ} : {A : Type ℓ} → Option A → A → A
or_else none d = d
or_else (some a) d = a

abbrev pub is_count : ReplayMode → Bool
is_count count = true
is_count _ = false

-- Before the epoch the cutoff is 0.
abbrev pub cutoff_of : ReplayMode → ReplayOptions → (now : ℕ) → ℕ
cutoff_of count o now = 0
cutoff_of since_last_session o now = or_else o.session_start_ms 0
cutoff_of since_hours o now = now - min 168 (or_else o.hours 24) * 60 * 60 * 1000

abbrev pub entries_limit : ReplayOptions → ℕ
entries_limit o = min 1000 (or_else o.max_entries 1000)

unfoldable pub read_entries_for_replay {ℓ} :
    {L : Type ℓ} → Format L → ReplayOptions → (now : ℕ) → Journal L → List L
unfolding collect
read_entries_for_replay f o now j =
    let lines = full_lines f j.file in
    if is_count o.mode
    then take_last (max 1 (min (entries_limit o) o.limit)) lines
    else collect f (cutoff_of o.mode o now) (entries_limit o) (reverse lines) []
