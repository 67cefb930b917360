-- ===== src/Memory/Trimming.antt =====
-- The rolling window of src/memory.ts.
use cursor_claw.Base.{
  ℕ, zero, suc, ◌+◌, ◌-◌, ◌≤◌, ◌≡◌, ◌⊎◌, inl, inr, refl, sym, ap, ◌∙◌, Bool, true, false, ◌&&◌,
  some, List, [], ◌∷◌, ◌++◌, arith, ltb, length, take, drop, keep, append_assoc, append-nil,
  length-drop, Bool-cases,
}
use cursor_claw.Cron.Duration.{trim, trim_start}
use cursor_claw.Memory.{
  Text, Format, RollingWindow, File, Store, split, is_record, parse_line, header_lines,
  after_header, record_lines, chars, count_from_front, drop_count, trim_to, maybe_trim,
}

module _ (j : Format) where
  blank-is_record : is_record j [] ≡ false
  unfolding parse_line trim trim_start
  blank-is_record = refl

  after_header-header :
      (ls rest : List Text) → after_header j (header_lines j ls ++ rest) ≡ after_header j rest
  unfolding after_header header_lines
  after_header-header [] rest = refl
  after_header-header (l ∷ ls) rest = ground (arith, after_header-header ls rest)

  -- The lines all hold records.
  abbrev all_records : List Text → Bool
  all_records [] = true
  all_records (l ∷ ls) = is_record j l && all_records ls

  all_records-keep : (ls : List Text) → all_records (keep (is_record j) ls) ≡ true
  all_records-keep [] = refl
  all_records-keep (l ∷ ls) = ground (arith, all_records-keep ls)

  all_records-drop :
      (n : ℕ) (ls : List Text) → all_records ls ≡ true → all_records (drop n ls) ≡ true
  all_records-drop zero ls h = h
  all_records-drop (suc n) [] h = refl
  all_records-drop (suc n) (l ∷ ls) h = all_records-drop n ls (ground (arith, h))

  keep-all_records :
      (ls : List Text) → all_records ls ≡ true → keep (is_record j) (ls ++ [] ∷ []) ≡ ls
  keep-all_records [] h = rw blank-is_record
  keep-all_records (l ∷ ls) h = ground (arith, h, keep-all_records ls)

  records-all_records :
      (ls : List Text)
      → all_records ls ≡ true
      → keep (is_record j) (after_header j (ls ++ [] ∷ [])) ≡ ls
  unfolding after_header
  records-all_records [] h = rw blank-is_record
  records-all_records (l ∷ ls) h = ground (arith, h, keep-all_records ls)

  -- A file that is written from a header and records has these records.
  record_lines-written :
      (ls records : List Text)
      → all_records records ≡ true
      → record_lines j (record { lines = header_lines j ls ++ records; tail = [] }) ≡ records
  unfolding record_lines
  record_lines-written ls records h = rw (append_assoc (header_lines j ls) records ([] ∷ [])) (
      ap (keep (is_record j)) (after_header-header ls (records ++ [] ∷ []))
      ∙ records-all_records records h)

  record_lines-trim_to :
      (w : RollingWindow) (n : ℕ) (s : Store)
      → record_lines j (trim_to j w n s).primary ≡ drop n (record_lines j s.primary)
  unfolding trim_to
  record_lines-trim_to w zero s = refl
  record_lines-trim_to w (suc n) s =
      record_lines-written (split s.primary) (drop (suc n) (record_lines j s.primary)) (
        all_records-drop (suc n) (record_lines j s.primary)
          (unfold record_lines in all_records-keep (after_header j (split s.primary))))

  take-drop : (n : ℕ) (ls : List Text) → take n ls ++ drop n ls ≡ ls
  take-drop zero ls = refl
  take-drop (suc n) [] = refl
  take-drop (suc n) (l ∷ ls) = ap (λ xs. l ∷ xs) (take-drop n ls)

  archive-trim_to :
      (w : RollingWindow) (n : ℕ) (s : Store)
      → w.has_archive ≡ true
      → (trim_to j w n s).archive ≡ s.archive ++ take n (record_lines j s.primary)
  unfolding trim_to
  archive-trim_to w zero s h = sym (append-nil s.archive)
  archive-trim_to w (suc n) s h = simp h

  chars-after_count :
      (header max_chars : ℕ) (ls : List Text)
      → (header + chars (drop (count_from_front (header + chars ls) max_chars ls) ls) ≤ max_chars)
        ⊎ (drop (count_from_front (header + chars ls) max_chars ls) ls ≡ [])
  unfolding chars count_from_front
  chars-after_count header max_chars [] = inr refl
  chars-after_count header max_chars (l ∷ ls) =
      let total = header + (length l + 1 + chars ls) in
      let less : total - (length l + 1) ≡ header + chars ls = omega arith in
      elim (Bool-cases (ltb max_chars total)) [
        | inl over ↦ rw (over, less) (chars-after_count header max_chars ls)
        | inr fits ↦ rw fits (inl (ground (arith, fits)))
      ]

  chars-drop-le : (n : ℕ) (ls : List Text) → chars (drop n ls) ≤ chars ls
  unfolding chars
  chars-drop-le zero ls = omega arith
  chars-drop-le (suc n) [] = omega arith
  chars-drop-le (suc n) (l ∷ ls) = omega (arith, chars-drop-le n ls)

  drop-nil : (n : ℕ) → drop {A = Text} n [] ≡ []
  drop-nil zero = refl
  drop-nil (suc n) = refl

  drop-drop : (k n : ℕ) (ls : List Text) → drop k (drop n ls) ≡ drop (n + k) ls
  drop-drop k zero ls = ap (λ (m : ℕ). drop m ls) (omega arith)
  drop-drop k (suc n) [] = drop-nil k ∙ sym (drop-nil (suc n + k))
  drop-drop k (suc n) (l ∷ ls) =
      drop-drop k n ls
      ∙ ap (λ (m : ℕ). drop m (l ∷ ls)) (let e : suc (n + k) ≡ suc n + k = omega arith in e)

  chars-after_more :
      (header max_chars n m : ℕ) (ls : List Text)
      → (header + chars (drop n ls) ≤ max_chars) ⊎ (drop n ls ≡ [])
      → n ≤ m
      → (header + chars (drop m ls) ≤ max_chars) ⊎ (drop m ls ≡ [])
  chars-after_more header max_chars n m ls h le =
      let e : n + (m - n) ≡ m = omega arith in
      let d = drop-drop (m - n) n ls ∙ ap (λ (k : ℕ). drop k ls) e in
      elim h [
        | inl fits ↦ inl (omega (arith, fits, chars-drop-le (m - n) (drop n ls), ap chars d))
        | inr gone ↦ inr (sym d ∙ ap (drop (m - n)) gone ∙ drop-nil (m - n))
      ]

  drop_count-records :
      (w : RollingWindow) (f : File) (n : ℕ)
      → w.max_records ≡ some n
      → length (record_lines j f) - n ≤ drop_count j w f
  unfolding drop_count
  drop_count-records w f n p = simp p (omega arith)

  drop_count-chars :
      (w : RollingWindow) (f : File) (m : ℕ)
      → w.max_chars ≡ some m
      → count_from_front
          (chars (header_lines j (split f)) + chars (record_lines j f))
          m
          (record_lines j f)
        ≤ drop_count j w f
  unfolding drop_count
  drop_count-chars w f m q = simp q (omega arith)

  -- With a window that has both limits and an archive, a trim leaves at most as many records as the
  -- limit of records allows, and it leaves no record or the header from before and the records have
  -- at most as many characters as the other limit allows. The records that are gone are those from
  -- the front, and they stand at the end of the archive in their order: archive and file together
  -- hold the same records as before.
  pub maybe_trim_lem :
      (w : RollingWindow) (s : Store) (n m : ℕ)
      → w.max_records ≡ some n
      → w.max_chars ≡ some m
      → w.has_archive ≡ true
      → (length (record_lines j (maybe_trim j (some w) s).primary) ≤ n)
        × ((chars (header_lines j (split s.primary))
                + chars (record_lines j (maybe_trim j (some w) s).primary)
              ≤ m)
            ⊎ (record_lines j (maybe_trim j (some w) s).primary ≡ []))
        × ((maybe_trim j (some w) s).archive ++ record_lines j (maybe_trim j (some w) s).primary
            ≡ s.archive ++ record_lines j s.primary)
  unfolding maybe_trim
  maybe_trim_lem w s n m p q a =
      let records = record_lines j s.primary in
      let header = chars (header_lines j (split s.primary)) in
      let k = drop_count j w s.primary in
      let by_count : length records - n ≤ k = drop_count-records w s.primary n p in
      let by_chars = drop_count-chars w s.primary m q in
      rw (record_lines-trim_to w k s, archive-trim_to w k s a)
        (
          omega (arith, by_count, length-drop k records),
          chars-after_more header m (count_from_front (header + chars records) m records) k records
              (chars-after_count header m records) by_chars,
          rw (append_assoc s.archive (take k records) (drop k records))
              (ap (λ xs. s.archive ++ xs) (take-drop k records)),
        )
