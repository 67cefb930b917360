-- ===== src/ContextTokens.antt =====
-- src/max-context-tokens.ts: the token estimate, the summary of old turns and the trimming of the
-- messages. A text is the list of its UTF-16 code units.
pub mod Trimming
pub mod Priority
use cursor_claw.Base.{
  ℕ, zero, suc, ◌+◌, ◌-◌, ◌*◌, ◌/◌, Bool, true, false, ◌&&◌, ◌||◌, not, Option, none, some, List,
  [], ◌∷◌, ◌++◌, String, ltb, leb, eqb, if◌then◌else◌, string_eq, nat_eq, ◌==◌, length, take, mem,
  any,
}

abbrev pub Text : Type 0
Text = List ℕ

pub record Message : Type 0 where
  pub role : String
  pub content : Text

-- `Math.ceil(text.length / 4)`.
pub estimate_tokens : Text → ℕ
estimate_tokens text = (length text + 3) / 4

pub total_tokens : List Message → ℕ
total_tokens [] = 0
total_tokens (m ∷ ms) = estimate_tokens m.content + total_tokens ms

-- The label, a colon and a space.
pub label : String → Text
label role =
    if role == "user"
    then b'U' ∷ b's' ∷ b'e' ∷ b'r' ∷ b':' ∷ 32 ∷ []
    else (if role == "assistant"
        then b'A' ∷ b'g' ∷ b'e' ∷ b'n' ∷ b't' ∷ b':' ∷ 32 ∷ []
        else b'S' ∷ b'y' ∷ b's' ∷ b't' ∷ b'e' ∷ b'm' ∷ b':' ∷ 32 ∷ [])

-- `parts.join("\n\n")` of all messages but the last.
pub summary_text : List Message → Text
summary_text [] = []
summary_text (m ∷ []) = []
summary_text (m ∷ n ∷ []) = label m.role ++ m.content
summary_text (m ∷ n ∷ k ∷ ms) = label m.role ++ (m.content ++ (10 ∷ 10 ∷ summary_text (n ∷ k ∷ ms)))

pub last_only : List Message → List Message
last_only [] = []
last_only (m ∷ []) = m ∷ []
last_only (m ∷ n ∷ ms) = last_only (n ∷ ms)

pub cut_summary : (max_summary_tokens : ℕ) → Text → Text
unfolding estimate_tokens
cut_summary max_summary_tokens text =
    if ltb max_summary_tokens (estimate_tokens text) && ltb (max_summary_tokens * 4) (length text)
    then take (max_summary_tokens * 4) text
    else text

abbrev none_text : Text
none_text = b'(' ∷ b'n' ∷ b'o' ∷ b'n' ∷ b'e' ∷ b')' ∷ []

-- The content of the summary message after `SUMMARY_PREFIX`, and the messages that remain.
pub summarize_prefix : List Message → (max_summary_tokens : ℕ) → Text × List Message
summarize_prefix [] max_summary_tokens = (none_text, [])
summarize_prefix (m ∷ []) max_summary_tokens = (none_text, m ∷ [])
summarize_prefix (m ∷ n ∷ ms) max_summary_tokens =
    (cut_summary max_summary_tokens (summary_text (m ∷ n ∷ ms)), last_only (m ∷ n ∷ ms))

-- The loop of the source over `start`, on `messages.slice(start)`.
pub oldest_first : List Message → (max_context_tokens : ℕ) → List Message
unfolding total_tokens
oldest_first [] max_context_tokens = []
oldest_first (m ∷ []) max_context_tokens = m ∷ []
oldest_first (m ∷ n ∷ ms) max_context_tokens =
    let rest = oldest_first (n ∷ ms) max_context_tokens in
    if leb (total_tokens (m ∷ n ∷ ms)) max_context_tokens then m ∷ n ∷ ms else rest

pub record Entry : Type 0 where
  pub idx : ℕ
  pub tok : ℕ
  pub rank : ℕ

-- `indexOf`, or the length of the list where it is missing.
pub drop_rank : List String → String → ℕ
drop_rank [] role = 0
drop_rank (r ∷ rs) role = if r == role then 0 else suc (drop_rank rs role)

-- The entries of all messages but the last, and the last message's index and tokens.
pub entries_from : (idx : ℕ) (priority : List String) → List Message → List Entry
entries_from idx priority [] = []
entries_from idx priority (m ∷ []) = []
entries_from idx priority (m ∷ n ∷ ms) =
    record { idx = idx; tok = estimate_tokens m.content; rank = drop_rank priority m.role }
    ∷ entries_from (suc idx) priority (n ∷ ms)

-- `b.rank - a.rank || b.idx - a.idx` is not above 0: `a` may stay before `b`.
pub is_before : Entry → Entry → Bool
is_before a b = ltb b.rank a.rank || eqb a.rank b.rank && leb b.idx a.idx

pub insert_entry : Entry → List Entry → List Entry
insert_entry e [] = e ∷ []
insert_entry e (x ∷ xs) =
    let rest = insert_entry e xs in if is_before e x then e ∷ x ∷ xs else x ∷ rest

pub sort_entries : List Entry → List Entry
sort_entries [] = []
sort_entries (e ∷ es) = insert_entry e (sort_entries es)

-- The loop that fills `keep` and `totalKeep`.
pub keep_entries : (max_context_tokens : ℕ) → List Entry → List ℕ → (total_keep : ℕ) → List ℕ × ℕ
keep_entries max_context_tokens [] kept total_keep = (kept, total_keep)
keep_entries max_context_tokens (e ∷ es) kept total_keep =
    if leb (total_keep + e.tok) max_context_tokens
    then keep_entries max_context_tokens es (e.idx ∷ kept) (total_keep + e.tok)
    else keep_entries max_context_tokens es kept total_keep

pub keep_indices : List ℕ → (idx : ℕ) → List Message → List Message
keep_indices kept idx [] = []
keep_indices kept idx (m ∷ ms) =
    let rest = keep_indices kept (suc idx) ms in if mem idx kept then m ∷ rest else rest

-- The branch of the source that reads the last message: the list is not empty there.
pub with_priority : List Message → (max_context_tokens : ℕ) (priority : List String) → List Message
with_priority ms max_context_tokens priority =
    let last = length ms - 1 in
    let (kept, total) =
      keep_entries max_context_tokens (sort_entries (entries_from 0 priority ms)) (last ∷ [])
        (total_tokens (last_only ms)) in
    keep_indices kept 0 ms

pub apply_max_context_tokens :
    List Message → (max_context_tokens : ℕ) (truncation_priority : List String) → List Message
unfolding total_tokens
apply_max_context_tokens ms max_context_tokens [] =
    if leb (total_tokens ms) max_context_tokens then ms else oldest_first ms max_context_tokens
apply_max_context_tokens ms max_context_tokens (r ∷ rs) =
    if leb (total_tokens ms) max_context_tokens
    then ms
    else with_priority ms max_context_tokens (r ∷ rs)
