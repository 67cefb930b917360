-- ===== src/Anomalies/Triggers.antt =====
-- When `AnomalyDetector.detect` (src/security.ts) finds a loop of triggers.
use cursor_claw.Base.{
  ℕ, suc, ◌+◌, ◌<◌, ◌≡◌, ◌↔◌, refl, sym, ◌∙◌, Bool, true, false, ◌||◌, List, [], ◌∷◌, ◌++◌, String,
  string_eq, ◌==◌, ==_refl, eq_of_==, ltb, ltb→lt, lt→ltb, if◌then◌else◌, length, keep, any, mem,
  IsDistinct, arith, Bool-cases, inl, inr,
}
use cursor_claw.Base.Dict.{get, set, values, or_else, get-set}
use cursor_claw.Anomalies.{
  AnomalyDetector, Finding, tool_call_surge, suspicious_domain_fetches, possible_self_trigger_loop,
  is_recent, count_triggers, finding_when, detect,
}

abbrev pub is_loop : Finding → Bool
is_loop possible_self_trigger_loop = true
is_loop _ = false

abbrev keys : List (String × ℕ) → List String
keys [] = []
keys ((k, n) ∷ m) = k ∷ keys m

mem-keys-set :
    (k j : String) (n : ℕ) (m : List (String × ℕ))
    → mem j (keys (set k n m)) ≡ (mem j (keys m) || k == j)
unfolding set
mem-keys-set k j n [] = ground arith
mem-keys-set k j n ((i, v) ∷ m) = elim (Bool-cases (i == k)) [
  | inl e ↦ rw e (ground (arith, eq_of_== i k e))
  | inr e ↦ rw e (ground (arith, mem-keys-set k j n m))
]

keys-set-IsDistinct :
    (k : String) (n : ℕ) (m : List (String × ℕ))
    → IsDistinct (keys m)
    → IsDistinct (keys (set k n m))
unfolding set
keys-set-IsDistinct k n [] d = (refl, tt)
keys-set-IsDistinct k n ((i, v) ∷ m) d = elim (Bool-cases (i == k)) [
  | inl e ↦ rw e (rw (eq_of_== i k e) at d)
  | inr e ↦ rw e (
    rw (mem-keys-set k i n m)
        (ground (arith, d.0, string_eq.is_same_iff i k, string_eq.is_same_iff k i)),
    keys-set-IsDistinct k n m d.1,
  )
]

count_triggers-IsDistinct :
    (ts : List (ℕ × String)) (m : List (String × ℕ))
    → IsDistinct (keys m)
    → IsDistinct (keys (count_triggers ts m))
unfolding count_triggers
count_triggers-IsDistinct [] m d = d
count_triggers-IsDistinct ((at, s) ∷ ts) m d =
    count_triggers-IsDistinct ts (set s (suc (or_else (get s m) 0)) m)
      (keys-set-IsDistinct s (suc (or_else (get s m) 0)) m d)

-- The triggers of a session.
abbrev pub times : String → List (ℕ × String) → ℕ
times s [] = 0
times s ((at, r) ∷ ts) = (if r == s then 1 else 0) + times s ts

tally-count_triggers :
    (s : String) (ts : List (ℕ × String)) (m : List (String × ℕ))
    → or_else (get s (count_triggers ts m)) 0 ≡ or_else (get s m) 0 + times s ts
unfolding count_triggers
tally-count_triggers s [] m = omega arith
tally-count_triggers s ((at, r) ∷ ts) m = elim (Bool-cases (r == s)) [
  | inl e ↦
      let h = tally-count_triggers s ts (set r (suc (or_else (get r m) 0)) m) in
      let h' = rw (get-set r s (suc (or_else (get r m) 0)) m, e, eq_of_== r s e) at h in
      rw (e, eq_of_== r s e) (omega (arith, h'))
  | inr e ↦
      let h = tally-count_triggers s ts (set r (suc (or_else (get r m) 0)) m) in
      let h' = rw (get-set r s (suc (or_else (get r m) 0)) m, e) at h in rw e (omega (arith, h'))
]

tally-absent :
    (s : String) (m : List (String × ℕ)) → mem s (keys m) ≡ false → or_else (get s m) 0 ≡ 0
unfolding get
tally-absent s [] h = refl
tally-absent s ((k, v) ∷ m) h = elim (Bool-cases (k == s)) [
  | inl e ↦ let h' = rw e at h in cc
  | inr e ↦ rw e (tally-absent s m (rw e at h))
]

any-values-to :
    (n : ℕ) (m : List (String × ℕ))
    → IsDistinct (keys m)
    → any (λ count. ltb n count) (values m) ≡ true
    → (s : String) × (n < or_else (get s m) 0)
unfolding get values
any-values-to n [] d h = cc
any-values-to n ((k, v) ∷ m) d h = elim (Bool-cases (ltb n v)) [
  | inl e ↦ (k, rw (==_refl k) (ltb→lt n v e))
  | inr e ↦
      let (s, big) = any-values-to n m d.1 (rw e at h) in
      elim (Bool-cases (k == s)) [
        | inl same ↦
            let absent = tally-absent s m (rw (eq_of_== k s same) at d.0) in
            absurd (omega (arith, big, absent))
        | inr other ↦ (s, rw other big)
      ]
]

any-values-from :
    (n : ℕ) (s : String) (m : List (String × ℕ))
    → n < or_else (get s m) 0
    → any (λ count. ltb n count) (values m) ≡ true
unfolding get values
any-values-from n s [] h = absurd (omega arith)
any-values-from n s ((k, v) ∷ m) h = elim (Bool-cases (k == s)) [
  | inl e ↦ rw (lt→ltb n v (rw e at h))
  | inr e ↦ let later = any-values-from n s m (rw e at h) in ground (arith, later)
]

counted :
    (s : String) (ts : List (ℕ × String)) → or_else (get s (count_triggers ts [])) 0 ≡ times s ts
unfolding get
counted s ts = omega (arith, tally-count_triggers s ts [])

any-is_loop :
    (a b c : Bool)
    → any is_loop (
        finding_when a tool_call_surge
        ++ (finding_when b suspicious_domain_fetches ++ finding_when c possible_self_trigger_loop))
      ≡ c
any-is_loop true true true = refl
any-is_loop true true false = refl
any-is_loop true false true = refl
any-is_loop true false false = refl
any-is_loop false true true = refl
any-is_loop false true false = refl
any-is_loop false false true = refl
any-is_loop false false false = refl

-- `detect` tells of a loop of triggers exactly when some session was triggered more than 15 times in
-- the last minute, whatever the tool calls and the fetches were.
pub detect-loop_iff :
    (is_suspicious : String → Bool) (now : ℕ) (d : AnomalyDetector)
    → (any is_loop (detect is_suspicious now d) ≡ true)
      ↔ ((s : String) × (15 < times s (keep (is_recent now) d.session_triggers)))
unfolding detect
detect-loop_iff is_suspicious now d =
    let recent = keep (is_recent now) d.session_triggers in
    let counts = count_triggers recent [] in
    let surges = ltb 25 (length (keep (is_recent now) d.tool_calls)) in
    let suspicious =
      ltb 3 (length (keep (λ e. is_suspicious e.1) (keep (is_recent now) d.fetch_domains))) in
    let same = any-is_loop surges suspicious (any (λ count. ltb 15 count) (values counts)) in
    (
      λ h.
          let (s, big) =
            any-values-to 15 counts (count_triggers-IsDistinct recent [] tt) (sym same ∙ h) in
          (s, omega (arith, big, counted s recent)),
      λ (s, big). same ∙ any-values-from 15 s counts (omega (arith, big, counted s recent)),
    )
