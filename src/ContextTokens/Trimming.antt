-- ===== src/ContextTokens/Trimming.antt =====
-- What src/max-context-tokens.ts keeps within its caps.
use cursor_claw.Base.{
  ℕ, zero, suc, ◌*◌, ◌≤◌, ◌<◌, ◌≡◌, ◌⊎◌, inl, inr, refl, false, List, [], ◌∷◌, arith, leb, length,
  take, drop, Bool-cases, leb→le,
}
use cursor_claw.ContextTokens.{
  Message, Text, estimate_tokens, total_tokens, last_only, oldest_first, cut_summary,
  apply_max_context_tokens,
}

length-take : (n : ℕ) (xs : Text) → length (take n xs) ≤ n
length-take zero xs = omega arith
length-take (suc n) [] = omega arith
length-take (suc n) (x ∷ xs) = omega (arith, length-take n xs)

-- The text of a summary never takes more tokens than it may.
pub estimate_tokens-cut_summary :
    (max_summary_tokens : ℕ) (text : Text)
    → estimate_tokens (cut_summary max_summary_tokens text) ≤ max_summary_tokens
unfolding cut_summary estimate_tokens
estimate_tokens-cut_summary max_summary_tokens text =
    ground (arith, length-take (max_summary_tokens * 4) text)

-- Of the messages from `n` on: one message more would be over the cap.
pub IsOverBefore : (limit : ℕ) → List Message → (n : ℕ) → Type 0
IsOverBefore limit all zero = Unit
IsOverBefore limit all (suc k) = limit < total_tokens (drop k all)

-- The longest suffix within the cap; the last message alone when none is.
pub IsLongestSuffix : (limit : ℕ) (all kept : List Message) → Type 0
IsLongestSuffix limit all kept =
    (n : ℕ) × (kept ≡ drop n all)
    × ((total_tokens kept ≤ limit) ⊎ (kept ≡ last_only all))
    × IsOverBefore limit all n

IsOverBefore-suc :
    (limit : ℕ) (m : Message) (ms : List Message) (d : ℕ)
    → leb (total_tokens (m ∷ ms)) limit ≡ false
    → IsOverBefore limit ms d
    → limit < total_tokens (drop d (m ∷ ms))
unfolding IsOverBefore
IsOverBefore-suc limit m ms zero e over = ground (arith, e)
IsOverBefore-suc limit m ms (suc d) e over = over

oldest_first_lem :
    (ms : List Message) (limit : ℕ) → IsLongestSuffix limit ms (oldest_first ms limit)
unfolding oldest_first IsLongestSuffix IsOverBefore last_only
oldest_first_lem [] limit = (0, refl, inr refl, tt)
oldest_first_lem (m ∷ []) limit = (0, refl, inr refl, tt)
oldest_first_lem (m ∷ n ∷ ms) limit = elim (Bool-cases (leb (total_tokens (m ∷ n ∷ ms)) limit)) [
  | inl e ↦ rw e (0, refl, inl (leb→le _ _ e), tt)
  | inr e ↦
      let (d, suffix, fits, over) = oldest_first_lem (n ∷ ms) limit in
      rw e (suc d, suffix, fits, IsOverBefore-suc limit m (n ∷ ms) d e over)
]

-- Without a priority of roles the messages kept are the longest run of the newest messages within
-- the cap: all of them if they are within it, and never less than the last message, which stays
-- even when it is over the cap alone.
pub apply_max_context_tokens-IsLongestSuffix :
    (ms : List Message) (limit : ℕ)
    → IsLongestSuffix limit ms (apply_max_context_tokens ms limit [])
unfolding apply_max_context_tokens IsLongestSuffix IsOverBefore
apply_max_context_tokens-IsLongestSuffix ms limit =
    elim (Bool-cases (leb (total_tokens ms) limit)) [
      | inl e ↦ rw e (0, refl, inl (leb→le _ _ e), tt)
      | inr e ↦ rw e (oldest_first_lem ms limit)
    ]
