-- ===== src/ContextTokens/Priority.antt =====
-- The cap under the trimming by roles of src/max-context-tokens.ts.
use cursor_claw.Base.{
  ℕ, suc, ◌+◌, ◌-◌, ◌≤◌, ◌<◌, ◌≡◌, refl, List, [], ◌∷◌, String, arith, leb, leb→le, eqb,
  if◌then◌else◌, length, nat_eq, max, All, Bool-cases, inl, inr,
}
use cursor_claw.ContextTokens.{
  Message, Entry, estimate_tokens, total_tokens, last_only, entries_from, is_before, insert_entry,
  sort_entries, keep_entries, keep_indices, with_priority, oldest_first, apply_max_context_tokens,
}

-- The tokens of the messages at an index, where the list starts at `idx`.
tokens_at : (idx i : ℕ) → List Message → ℕ
tokens_at idx i [] = 0
tokens_at idx i (m ∷ ms) =
    (if eqb idx i then estimate_tokens m.content else 0) + tokens_at (suc idx) i ms

tokens_at_before : (idx i : ℕ) (ms : List Message) → i < idx → tokens_at idx i ms ≡ 0
unfolding tokens_at
tokens_at_before idx i [] h = refl
tokens_at_before idx i (m ∷ ms) h =
    ground (arith, tokens_at_before (suc idx) i ms (omega (arith, h)))

total_tokens-keep_indices_more :
    (i : ℕ) (kept : List ℕ) (idx : ℕ) (ms : List Message)
    → total_tokens (keep_indices (i ∷ kept) idx ms)
      ≤ total_tokens (keep_indices kept idx ms) + tokens_at idx i ms
unfolding tokens_at keep_indices total_tokens
total_tokens-keep_indices_more i kept idx [] = omega arith
total_tokens-keep_indices_more i kept idx (m ∷ ms) =
    ground (arith, total_tokens-keep_indices_more i kept (suc idx) ms)

-- An entry that counts at least the tokens of its message.
IsFair : List Message → Entry → Type 0
IsFair ms e = tokens_at 0 e.idx ms ≤ e.tok

total_tokens-keep_entries :
    (limit : ℕ) (es : List Entry) (kept : List ℕ) (total : ℕ) (ms : List Message)
    → All (IsFair ms) es
    → total_tokens (keep_indices kept 0 ms) ≤ total
    → total_tokens (keep_indices (keep_entries limit es kept total).0 0 ms) ≤ max limit total
unfolding keep_entries IsFair
total_tokens-keep_entries limit [] kept total ms fair h = omega (arith, h)
total_tokens-keep_entries limit (e ∷ es) kept total ms fair h =
    elim (Bool-cases (leb (total + e.tok) limit)) [
      | inl k ↦ rw k (
          ground (
            arith,
            k,
            total_tokens-keep_entries limit es (e.idx ∷ kept) (total + e.tok) ms fair.1
                (omega (arith, total_tokens-keep_indices_more e.idx kept 0 ms, fair.0, h)),
          ))
      | inr k ↦ rw k (total_tokens-keep_entries limit es kept total ms fair.1 h)
    ]

insert_entry-All :
    (ms : List Message) (e : Entry) (es : List Entry)
    → IsFair ms e
    → All (IsFair ms) es
    → All (IsFair ms) (insert_entry e es)
unfolding insert_entry
insert_entry-All ms e [] f fs = (f, tt)
insert_entry-All ms e (x ∷ es) f fs = elim (Bool-cases (is_before e x)) [
  | inl k ↦ rw k (f, fs)
  | inr k ↦ rw k (fs.0, insert_entry-All ms e es f fs.1)
]

sort_entries-All :
    (ms : List Message) (es : List Entry) → All (IsFair ms) es → All (IsFair ms) (sort_entries es)
unfolding sort_entries
sort_entries-All ms [] fs = tt
sort_entries-All ms (e ∷ es) fs =
    insert_entry-All ms e (sort_entries es) fs.0 (sort_entries-All ms es fs.1)

-- The tokens at an index of a list that starts with `before`.
entries_from-All :
    (priority : List String) (whole : List Message) (idx : ℕ) (ms : List Message)
    → ((i : ℕ) → idx ≤ i → tokens_at 0 i whole ≡ tokens_at idx i ms)
    → All (IsFair whole) (entries_from idx priority ms)
unfolding entries_from IsFair tokens_at
entries_from-All priority whole idx [] h = tt
entries_from-All priority whole idx (m ∷ []) h = tt
entries_from-All priority whole idx (m ∷ n ∷ ms) h = (
  ground (arith, h idx (omega arith), tokens_at_before (suc idx) idx (n ∷ ms) (omega arith)),
  entries_from-All priority whole (suc idx) (n ∷ ms)
      (λ i k. ground (arith, k, h i (omega (arith, k)))),
)

-- With only the last index kept, the tokens are the last message's.
total_tokens-keep_last :
    (last idx : ℕ) (ms : List Message)
    → idx + length ms ≡ suc last
    → total_tokens (keep_indices (last ∷ []) idx ms) ≤ total_tokens (last_only ms)
unfolding total_tokens keep_indices last_only
total_tokens-keep_last last idx [] h = omega arith
total_tokens-keep_last last idx (m ∷ []) h = ground arith
total_tokens-keep_last last idx (m ∷ n ∷ ms) h =
    ground (arith, h, total_tokens-keep_last last (suc idx) (n ∷ ms) (omega (arith, h)))

total_tokens-with_priority :
    (m : Message) (ms : List Message) (limit : ℕ) (priority : List String)
    → total_tokens (with_priority (m ∷ ms) limit priority)
      ≤ max limit (total_tokens (last_only (m ∷ ms)))
unfolding with_priority
total_tokens-with_priority m ms limit priority =
    total_tokens-keep_entries limit (sort_entries (entries_from 0 priority (m ∷ ms)))
      ((length (m ∷ ms) - 1) ∷ []) (total_tokens (last_only (m ∷ ms))) (m ∷ ms)
      (sort_entries-All (m ∷ ms) (entries_from 0 priority (m ∷ ms))
        (entries_from-All priority (m ∷ ms) 0 (m ∷ ms) (λ i k. refl)))
      (total_tokens-keep_last (length (m ∷ ms) - 1) 0 (m ∷ ms) (omega arith))

total_tokens-oldest_first :
    (ms : List Message) (limit : ℕ)
    → total_tokens (oldest_first ms limit) ≤ max limit (total_tokens (last_only ms))
unfolding oldest_first last_only total_tokens
total_tokens-oldest_first [] limit = omega arith
total_tokens-oldest_first (m ∷ []) limit = omega arith
total_tokens-oldest_first (m ∷ n ∷ ms) limit =
    elim (Bool-cases (leb (total_tokens (m ∷ n ∷ ms)) limit)) [
      | inl e ↦ rw e (ground (arith, leb→le _ _ e))
      | inr e ↦ rw e (total_tokens-oldest_first (n ∷ ms) limit)
    ]

-- Whatever the priority of roles, the messages kept are within the cap, or take no more tokens
-- than the last message does alone.
pub total_tokens-apply_max_context_tokens :
    (ms : List Message) (limit : ℕ) (priority : List String)
    → total_tokens (apply_max_context_tokens ms limit priority)
      ≤ max limit (total_tokens (last_only ms))
unfolding apply_max_context_tokens
total_tokens-apply_max_context_tokens ms limit [] =
    elim (Bool-cases (leb (total_tokens ms) limit)) [
      | inl e ↦ rw e (ground (arith, leb→le _ _ e))
      | inr e ↦ rw e (total_tokens-oldest_first ms limit)
    ]
total_tokens-apply_max_context_tokens [] limit (r ∷ rs) = ground arith
total_tokens-apply_max_context_tokens (m ∷ ms) limit (r ∷ rs) =
    elim (Bool-cases (leb (total_tokens (m ∷ ms)) limit)) [
      | inl e ↦ rw e (ground (arith, leb→le _ _ e))
      | inr e ↦ rw e (total_tokens-with_priority m ms limit (r ∷ rs))
    ]
