-- ===== src/ThreadStore/Names.antt =====
-- `sanitizeSessionId` of src/thread-store.ts: the names of the files.
use cursor_claw.Base.{
  ℕ, zero, suc, ◌≤◌, ◌≡◌, refl, Bool, true, false, ◌&&◌, List, [], ◌∷◌, map, take, length, arith,
  Bool-cases, inl, inr,
}
use cursor_claw.Cron.Duration.{trim}
use cursor_claw.ThreadStore.{
  is_safe_unit, safe_unit, or_empty, sanitize_session_id, session_id_max_len,
}

abbrev pub all_safe : List ℕ → Bool
all_safe [] = true
all_safe (c ∷ s) = is_safe_unit c && all_safe s

abbrev pub is_name : List ℕ → Bool
is_name [] = false
is_name (c ∷ s) = all_safe (c ∷ s)

safe_unit-safe : (c : ℕ) → is_safe_unit (safe_unit c) ≡ true
safe_unit-safe c = elim (Bool-cases (is_safe_unit c)) [ inl e ↦ rw e e | inr e ↦ rw e refl ]

all_safe-map : (s : List ℕ) → all_safe (map safe_unit s) ≡ true
all_safe-map [] = refl
all_safe-map (c ∷ s) = rw (safe_unit-safe c) (all_safe-map s)

length-map-take : (n : ℕ) (s : List ℕ) → length (map safe_unit (take n s)) ≤ n
length-map-take zero s = omega arith
length-map-take (suc n) [] = omega arith
length-map-take (suc n) (c ∷ s) = omega (arith, length-map-take n s)

or_empty-name :
    (s : List ℕ)
    → all_safe s ≡ true
    → length s ≤ 128
    → (is_name (or_empty s) ≡ true) × (length (or_empty s) ≤ 128)
or_empty-name [] h k = (refl, omega arith)
or_empty-name (c ∷ s) h k = (h, k)

-- The name that any session identifier gets is not empty, has at most 128 characters, and only
-- letters, digits, dashes and underscores: no separator of a path and no dot.
pub sanitize_session_id_lem :
    (session_id : List ℕ)
    → (is_name (sanitize_session_id session_id) ≡ true)
      × (length (sanitize_session_id session_id) ≤ session_id_max_len)
unfolding sanitize_session_id
sanitize_session_id_lem session_id =
    or_empty-name (map safe_unit (take 128 (trim session_id)))
      (all_safe-map (take 128 (trim session_id))) (length-map-take 128 (trim session_id))
