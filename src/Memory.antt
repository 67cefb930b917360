-- ===== src/Memory.antt =====
-- `MemoryStore` of src/memory.ts: the file of records, its rolling window, and what is read back. A
-- text is the list of its UTF-16 code units; `JSON` and the ids and dates are arguments, and writing
-- succeeds. The daily file is not read by the store and left out, and so are the calls after a trim.
pub mod Trimming
pub mod Reading
use cursor_claw.Base.{
  ℕ, zero, suc, ◌+◌, ◌-◌, ◌*◌, max, Bool, true, false, not, ◌&&◌, ◌||◌, Option, none, some, List,
  [], ◌∷◌, ◌++◌, String, ltb, leb, eqb, if◌then◌else◌, ◌==◌, string_eq, length, take, drop, keep,
}
use Prim.Native.String
use cursor_claw.Cron.Duration.{trim}
use cursor_claw.Base.Dict.{get, set}

abbrev pub Text : Type 0
Text = List ℕ

pub data Sensitivity : Type 0 where
  public private_user secret operational : Sensitivity

pub record MemoryRecord : Type 0 where
  pub id : String
  pub session_id : String
  pub category : String
  pub text : String
  pub timestamp : ℕ
  pub sensitivity : Sensitivity

-- `JSON.stringify` of a record, and `JSON.parse`: `none` is a text that it refuses, or null.
pub record Format : Type 0 where
  pub stringify : MemoryRecord → Text
  pub parse : Text → Option MemoryRecord

unfoldable pub to_line : Format → MemoryRecord → Text
to_line j r = b'-' ∷ b' ' ∷ j.stringify r

abbrev pub parse_trimmed : Format → Text → Option MemoryRecord
parse_trimmed j [] = none
parse_trimmed j (c ∷ []) = none
parse_trimmed j (c ∷ d ∷ rest) = if eqb c b'-' && eqb d b' ' then j.parse rest else none

unfoldable pub parse_line : Format → Text → Option MemoryRecord
parse_line j line = parse_trimmed j (trim line)

pub record RollingWindow : Type 0 where
  pub max_records : Option ℕ
  pub max_chars : Option ℕ
  pub has_archive : Bool

-- A text by its lines that end with a newline, and what follows the last one.
pub record File : Type 0 where
  pub lines : List Text
  pub tail : Text

pub record Store : Type 0 where
  pub primary : File
  pub archive : List Text
  pub window : Option RollingWindow

-- `content.split("\n")`.
abbrev pub split : File → List Text
split f = f.lines ++ f.tail ∷ []

-- A write of a line and a newline at the end.
unfoldable pub append_line : Text → File → File
append_line line f = record { lines = f.lines ++ (f.tail ++ line) ∷ []; tail = [] }

abbrev pub is_some {ℓ} : {A : Type ℓ} → Option A → Bool
is_some none = false
is_some (some a) = true

abbrev pub is_record : Format → Text → Bool
is_record j line = is_some (parse_line j line)

unfoldable pub header_lines : Format → List Text → List Text
header_lines j [] = []
header_lines j (l ∷ ls) = let rest = header_lines j ls in if is_record j l then [] else l ∷ rest

unfoldable pub after_header : Format → List Text → List Text
after_header j [] = []
after_header j (l ∷ ls) = let rest = after_header j ls in if is_record j l then l ∷ ls else rest

unfoldable pub record_lines : Format → File → List Text
record_lines j f = keep (is_record j) (after_header j (split f))

-- The characters of lines with their newlines.
unfoldable pub chars : List Text → ℕ
chars [] = 0
chars (l ∷ ls) = length l + 1 + chars ls

unfoldable pub count_from_front : (total max_chars : ℕ) → List Text → ℕ
count_from_front total max_chars [] = 0
count_from_front total max_chars (l ∷ ls) =
    let rest = count_from_front (total - (length l + 1)) max_chars ls in
    if ltb max_chars total then suc rest else 0

abbrev pub over_records : Option ℕ → List Text → ℕ
over_records none records = 0
over_records (some n) records = length records - n

abbrev pub over_chars : Option ℕ → (header records : List Text) → ℕ
over_chars none header records = 0
over_chars (some n) header records = count_from_front (chars header + chars records) n records

unfoldable pub drop_count : Format → RollingWindow → File → ℕ
drop_count j w f =
    max (over_records w.max_records (record_lines j f))
      (over_chars w.max_chars (header_lines j (split f)) (record_lines j f))

unfoldable pub trim_to : Format → RollingWindow → (count : ℕ) → Store → Store
trim_to j w zero s = s
trim_to j w (suc n) s =
    let records = record_lines j s.primary in
    record s {
      primary = record {
        lines = header_lines j (split s.primary) ++ drop (suc n) records;
        tail = [];
      };
      archive = if w.has_archive then s.archive ++ take (suc n) records else s.archive;
    }

unfoldable pub maybe_trim : Format → Option RollingWindow → Store → Store
maybe_trim j none s = s
maybe_trim j (some w) s = trim_to j w (drop_count j w s.primary) s

unfoldable pub append : Format → MemoryRecord → Store → Store
unfolding append_line maybe_trim
append j r s = maybe_trim j s.window (record s { primary = append_line (to_line j r) s.primary })

abbrev pub parsed : Option MemoryRecord → List MemoryRecord → List MemoryRecord
parsed none rs = rs
parsed (some r) rs = r ∷ rs

unfoldable pub parse_all : Format → List Text → List MemoryRecord
parse_all j [] = []
parse_all j (l ∷ ls) = parsed (parse_line j l) (parse_all j ls)

unfoldable pub read_all : Format → Store → List MemoryRecord
unfolding parse_all
read_all j s = parse_all j (split s.primary)

abbrev pub is_secret : Sensitivity → Bool
is_secret secret = true
is_secret _ = false

abbrev pub is_visible : (session_id : String) (allow_secret : Bool) → MemoryRecord → Bool
is_visible session_id allow_secret r =
    r.session_id == session_id && not (is_secret r.sensitivity && not allow_secret)

unfoldable pub retrieve_for_session :
    Format → (session_id : String) (allow_secret : Bool) → Store → List MemoryRecord
unfolding read_all
retrieve_for_session j session_id allow_secret s =
    keep (is_visible session_id allow_secret) (read_all j s)

pub data Issue : Type 0 where
  contradiction : (record_id prior_id : String) → Issue
  stale : (record_id : String) → Issue

abbrev pub key_of : MemoryRecord → String
key_of r = String.◌++◌ r.session_id (String.◌++◌ ":" r.category)

-- The text and the id of the first record of a key.
abbrev pub Facts : Type 0
Facts = List (String × (String × String))

abbrev pub stale_after_ms : ℕ
stale_after_ms = 1000 * 60 * 60 * 24 * 120

abbrev pub stale_issues : (now : ℕ) → MemoryRecord → List Issue
stale_issues now r = if ltb (r.timestamp + stale_after_ms) now then stale r.id ∷ [] else []

-- The facts after a record, and what is wrong with it.
abbrev pub check_fact : MemoryRecord → Option (String × String) → Facts → Facts × List Issue
check_fact r none facts = (set (key_of r) (r.text, r.id) facts, [])
check_fact r (some (text, id)) facts =
    if text == r.text
    then (set (key_of r) (r.text, r.id) facts, [])
    else (facts, contradiction r.id id ∷ [])

unfoldable pub scan : (now : ℕ) → Facts → List MemoryRecord → List Issue
scan now facts [] = []
scan now facts (r ∷ rs) =
    let (facts', issues) = check_fact r (get (key_of r) facts) facts in
    issues ++ (stale_issues now r ++ scan now facts' rs)

unfoldable pub integrity_scan : Format → (now : ℕ) → Store → List Issue
unfolding scan read_all
integrity_scan j now s = scan now [] (read_all j s)
