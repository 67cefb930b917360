-- ===== src/Reply/Summaries.antt =====
-- The repeated lines and the summaries in replies of src/runtime.ts.
use cursor_claw.Base.{
  ◌≤◌, ◌≡◌, refl, ap, min, Bool, true, false, not, ◌&&◌, List, [], ◌∷◌, arith, ltb, ◌==◌, codes_eq,
  length, keep, Bool-cases, inl, inr, eq_of_==,
}
use cursor_claw.Cron.Duration.{trim}
use cursor_claw.Reply.{
  Text, keep_changed, collapse_duplicate_consecutive_lines, keep_first,
  remove_all_but_first_summary,
}

-- A paragraph that is not blank and reads like a summary.
abbrev pub is_summary_segment : (is_summary : Text → Bool) → Text → Bool
is_summary_segment is_summary s = not (trim s == []) && is_summary (trim s)

module _ (is_summary : Text → Bool) where
  length-keep_first_seen :
      (ss : List Text)
      → length (keep (is_summary_segment is_summary) (keep_first is_summary true ss)) ≡ 0
  unfolding keep_first
  length-keep_first_seen [] = refl
  length-keep_first_seen (s ∷ ss) = ground (arith, length-keep_first_seen ss)

  length-keep_first :
      (ss : List Text)
      → length (keep (is_summary_segment is_summary) (keep_first is_summary false ss))
        ≡ min 1 (length (keep (is_summary_segment is_summary) ss))
  unfolding keep_first
  length-keep_first [] = omega arith
  length-keep_first (s ∷ ss) = ground (arith, length-keep_first_seen ss, length-keep_first ss)

  keep-keep_first :
      (seen : Bool) (ss : List Text)
      → keep (λ s. not (is_summary_segment is_summary s)) (keep_first is_summary seen ss)
        ≡ keep (λ s. not (is_summary_segment is_summary s)) ss
  unfolding keep_first
  keep-keep_first seen [] = refl
  keep-keep_first seen (s ∷ ss) = ground (arith, keep-keep_first true ss, keep-keep_first seen ss)

  few :
      (ss : List Text)
      → ltb (length ss) 2 ≡ true
      → length (keep (is_summary_segment is_summary) ss) ≤ 1
  few [] h = omega arith
  few (s ∷ []) h = ground arith
  few (s ∷ t ∷ ss) h = ground (arith, h)

  -- Of the paragraphs that read like a summary exactly one is left, if there was one, and all other
  -- paragraphs are left in their order.
  pub remove_all_but_first_summary_lem :
      (ss : List Text)
      → (length (keep (is_summary_segment is_summary) (remove_all_but_first_summary is_summary ss))
          ≡ min 1 (length (keep (is_summary_segment is_summary) ss)))
        × (keep
              (λ s. not (is_summary_segment is_summary s))
              (remove_all_but_first_summary is_summary ss)
            ≡ keep (λ s. not (is_summary_segment is_summary s)) ss)
  unfolding remove_all_but_first_summary
  remove_all_but_first_summary_lem ss = elim (Bool-cases (ltb (length ss) 2)) [
    | inl short ↦ rw short (omega (arith, few ss short), refl)
    | inr long ↦ rw long (length-keep_first ss, keep-keep_first false ss)
  ]

keep_changed_twice :
    (previous : Text) (lines : List Text)
    → keep_changed previous (keep_changed previous lines) ≡ keep_changed previous lines
unfolding keep_changed
keep_changed_twice previous [] = refl
keep_changed_twice previous (line ∷ lines) = elim (Bool-cases (line == previous)) [
  | inl same ↦
      let e = eq_of_== line previous same in rw (same, e) (keep_changed_twice previous lines)
  | inr other ↦ rw other (rw other (ap (λ xs. line ∷ xs) (keep_changed_twice line lines)))
]

-- Collapsing repeated lines a second time changes nothing; but it takes away every blank line at the
-- beginning, also one that repeats no line.
pub collapse_duplicate_consecutive_lines_lem :
    (lines : List Text)
    → (collapse_duplicate_consecutive_lines (collapse_duplicate_consecutive_lines lines)
        ≡ collapse_duplicate_consecutive_lines lines)
      × (collapse_duplicate_consecutive_lines ([] ∷ lines)
          ≡ collapse_duplicate_consecutive_lines lines)
unfolding collapse_duplicate_consecutive_lines
collapse_duplicate_consecutive_lines_lem lines =
    (keep_changed_twice [] lines, unfold keep_changed in refl)
