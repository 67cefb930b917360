-- ===== src/Journal/Replay.antt =====
-- Which entries of src/decision-journal.ts are replayed.
use cursor_claw.Base.{
  ℕ, zero, suc, ◌-◌, ◌≡◌, ◌≢◌, refl, sym, ap, ◌∙◌, Bool, false, List, [], ◌∷◌, ◌++◌, arith, eqb,
  Bool-cases, inl, inr, length, take, drop, take_last, keep, length-append, append_assoc,
  append-nil, keep-append, length-drop,
}
use mathlib.Core.List.{reverse, reverse-cons, reverse-append, reverse-reverse}
use cursor_claw.Journal.{
  Format, Journal, ReplayOptions, ReplayMode, count, collect, is_since, read_entries_for_replay,
  full_lines, cutoff_of, entries_limit, is_count,
}

timed : (m : ReplayMode) → m ≢ count → is_count m ≡ false
timed m h = ground (arith, h)

module _ {ℓ} {L : Type ℓ} where
  take-drop : (n : ℕ) (ls : List L) → take n ls ++ drop n ls ≡ ls
  take-drop zero ls = refl
  take-drop (suc n) [] = refl
  take-drop (suc n) (l ∷ ls) = ap (λ xs. l ∷ xs) (take-drop n ls)

  drop-append : (xs ys : List L) → drop (length xs) (xs ++ ys) ≡ ys
  drop-append [] ys = refl
  drop-append (x ∷ xs) ys = drop-append xs ys

  length-reverse : (ls : List L) → length (reverse ls) ≡ length ls
  length-reverse [] = refl
  length-reverse (l ∷ ls) =
      ap length (reverse-cons l ls)
      ∙ length-append (reverse ls) (l ∷ [])
      ∙ omega (arith, length-reverse ls)

  -- The last entries are the first of the reversed list.
  take_last-reverse : (n : ℕ) (ls : List L) → take_last n ls ≡ reverse (take n (reverse ls))
  take_last-reverse n ls =
      let front = reverse (drop n (reverse ls)) in
      let back = reverse (take n (reverse ls)) in
      let whole : front ++ back ≡ ls =
        sym (reverse-append (take n (reverse ls)) (drop n (reverse ls)))
        ∙ ap reverse (take-drop n (reverse ls))
        ∙ reverse-reverse ls in
      let size : length ls - n ≡ length front = omega (
        arith,
        length-reverse (drop n (reverse ls)),
        length-drop n (reverse ls),
        length-reverse ls,
      ) in
      ap (λ (m : ℕ). drop m ls) size ∙ ap (drop (length front)) (sym whole) ∙ drop-append front back

  keep-reverse : (p : L → Bool) (ls : List L) → keep p (reverse ls) ≡ reverse (keep p ls)
  keep-reverse p [] = refl
  keep-reverse p (l ∷ ls) =
      ap (keep p) (reverse-cons l ls)
      ∙ keep-append p (reverse ls) (l ∷ [])
      ∙ ap (λ xs. xs ++ keep p (l ∷ [])) (keep-reverse p ls)
      ∙ elim (Bool-cases (p l)) [
        | inl kept ↦ rw kept (sym (reverse-cons l (keep p ls)))
        | inr gone ↦ rw gone (append-nil (reverse (keep p ls)))
      ]

  take-zero : (ls : List L) → take 0 ls ≡ []
  take-zero ls = refl

  collect_lem :
      (f : Format L) (cutoff room : ℕ) (ls out : List L)
      → collect f cutoff room ls out ≡ reverse (take room (keep (is_since f cutoff) ls)) ++ out
  unfolding collect
  collect_lem f cutoff zero [] out = refl
  collect_lem f cutoff (suc n) [] out = refl
  collect_lem f cutoff zero (l ∷ ls) out = refl
  collect_lem f cutoff (suc n) (l ∷ ls) out =
      let room : eqb (suc n) 0 ≡ false = ground arith in
      let less : suc n - 1 ≡ n = omega arith in
      let found = take n (keep (is_since f cutoff) ls) in
      elim (Bool-cases (is_since f cutoff l)) [
        | inl kept ↦
            rw (room, kept, less)
              (collect_lem f cutoff n ls (l ∷ out)
                ∙ sym (append_assoc (reverse found) (l ∷ []) out)
                ∙ ap (λ xs. xs ++ out) (sym (reverse-cons l found)))
        | inr gone ↦ rw (room, gone) (collect_lem f cutoff (suc n) ls out)
      ]

  -- In the modes of time the entries replayed are the last ones, as many as the limit allows and in
  -- their order, of those that are not older than the cutoff; blank lines, and lines without an
  -- instant, count for nothing.
  pub read_entries_for_replay_lem :
      (f : Format L) (o : ReplayOptions) (now : ℕ) (j : Journal L)
      → o.mode ≢ count
      → read_entries_for_replay f o now j
        ≡ take_last
            (entries_limit o)
            (keep (is_since f (cutoff_of o.mode o now)) (full_lines f j.file))
  unfolding read_entries_for_replay
  read_entries_for_replay_lem f o now j h =
      let lines = full_lines f j.file in
      let p = is_since f (cutoff_of o.mode o now) in
      simp (timed o.mode h) (
        collect_lem f (cutoff_of o.mode o now) (entries_limit o) (reverse lines) []
        ∙ append-nil (reverse (take (entries_limit o) (keep p (reverse lines))))
        ∙ ap (λ xs. reverse (take (entries_limit o) xs)) (keep-reverse p lines)
        ∙ sym (take_last-reverse (entries_limit o) (keep p lines)))
