-- ===== src/Reply.antt =====
-- The clean-up of replies of src/runtime.ts: repeated lines, endings and paragraphs, JSON objects in
-- a text, and summaries. A text is the list of its UTF-16 code units. The paragraphs of a text are
-- those that `split(/\n\n+/)` gives.
pub mod Endings
pub mod Summaries
use cursor_claw.Base.{
  ℕ, zero, suc, ◌+◌, ◌-◌, Bool, true, false, not, ◌&&◌, ◌||◌, Option, none, some, List, [], ◌∷◌,
  ◌++◌, ltb, leb, eqb, if◌then◌else◌, ◌==◌, codes_eq, mem, length, take, drop, keep, any, map,
}
use cursor_claw.Cron.Duration.{trim}

abbrev pub Text : Type 0
Text = List ℕ

-- The lines that `collapseDuplicateConsecutiveLines` keeps; `previous` starts as the empty text.
unfoldable pub keep_changed : (previous : Text) → List Text → List Text
keep_changed previous [] = []
keep_changed previous (line ∷ lines) =
    let rest = keep_changed line lines in if line == previous then rest else line ∷ rest

unfoldable pub collapse_duplicate_consecutive_lines : List Text → List Text
unfolding keep_changed
collapse_duplicate_consecutive_lines lines = keep_changed [] lines

-- `s.endsWith(suffix)`.
unfoldable pub ends_with : (s suffix : Text) → Bool
ends_with s suffix = leb (length suffix) (length s) && drop (length s - length suffix) s == suffix

-- The loop over the lengths of the suffix, the longest first.
unfoldable pub remove_suffix : (len : ℕ) → Text → Text
unfolding ends_with
remove_suffix zero text = text
remove_suffix (suc n) text =
    let rest = remove_suffix n text in
    let before = take (length text - suc n) text in
    if ends_with before (drop (length text - suc n) text) then before else rest

unfoldable pub remove_duplicated_trailing_suffix : Text → Text
unfolding remove_suffix
remove_duplicated_trailing_suffix text =
    if ltb (length text) 2 then text else remove_suffix (length text - 1) text

abbrev pub brace_open : ℕ
brace_open = 123

abbrev pub brace_close : ℕ
brace_close = 125

abbrev pub quote : ℕ
quote = 34

abbrev pub backslash : ℕ
backslash = 92

-- Where the scan of `findJsonObjectExtent` is: between strings, in one, or after a backslash in one.
pub data Place : Type 0 where
  outside in_string escaped : Place

-- The number of characters up to the closing brace, with `depth` braces open.
unfoldable pub scan : Place → (depth position : ℕ) → Text → Option ℕ
scan place depth position [] = none
scan outside depth position (c ∷ s) =
    let opened = scan outside (suc depth) (suc position) s in
    let closed = scan outside (depth - 1) (suc position) s in
    let quoted = scan in_string depth (suc position) s in
    let rest = scan outside depth (suc position) s in
    if eqb c brace_open
    then opened
    else if eqb c brace_close
    then (if eqb depth 1 then some (suc position) else closed)
    else if eqb c quote
    then quoted
    else rest
scan in_string depth position (c ∷ s) =
    let ended = scan outside depth (suc position) s in
    let skipping = scan escaped depth (suc position) s in
    let rest = scan in_string depth (suc position) s in
    if eqb c quote then ended else if eqb c backslash then skipping else rest
scan escaped depth position (c ∷ s) = scan in_string depth (suc position) s

abbrev pub starts_object : Text → Bool
starts_object [] = false
starts_object (c ∷ s) = eqb c brace_open

unfoldable pub find_json_object_extent : (text : Text) (start : ℕ) → Option ℕ
unfolding scan
find_json_object_extent text start =
    if starts_object (drop start text) then scan outside 0 start (drop start text) else none

-- What decides whether a trimmed paragraph reads like a summary, by its regular expressions.
unfoldable pub is_summary_like_paragraph : (matches : Text → Bool) → Text → Bool
is_summary_like_paragraph matches paragraph =
    let t = trim paragraph in if ltb (length t) 10 then false else matches t

-- The filter of `removeAllButFirstSummaryParagraph`, with what it has seen.
unfoldable pub keep_first : (is_summary : Text → Bool) → (seen : Bool) → List Text → List Text
keep_first is_summary seen [] = []
keep_first is_summary seen (s ∷ ss) =
    let t = trim s in
    let summary = not (t == []) && is_summary t in
    let rest = keep_first is_summary (seen || summary) ss in
    if summary && seen then rest else s ∷ rest

unfoldable pub remove_all_but_first_summary : (is_summary : Text → Bool) → List Text → List Text
unfolding keep_first
remove_all_but_first_summary is_summary segments =
    if ltb (length segments) 2 then segments else keep_first is_summary false segments
