-- ===== src/Journal/Chain.antt =====
-- What becomes of the entries of src/decision-journal.ts once a write has failed, and how large the
-- file grows.
use cursor_claw.Base.{
  ◌+◌, ◌≤◌, ◌≡◌, ◌≢◌, refl, ap, Bool, true, false, Option, none, some, List, [], ◌∷◌, ◌++◌, arith,
  ltb, Bool-cases, inl, inr,
}
use cursor_claw.Journal.{
  Format, Journal, Disk, takes, no_directory, no_write, bytes, rotate_found, rotate_if_needed,
  write_entry, append, lines_of,
}

module _ {ℓ} {L : Type ℓ} (f : Format L) where
  -- The journal after a history of entries, and the answers.
  pub append_all : List (L × Disk) → Journal L → Journal L × List Bool
  unfolding append
  append_all [] j = (j, [])
  append_all ((line, disk) ∷ es) j =
      let (j', b) = append f line disk j in let (j'', bs) = append_all es j' in (j'', b ∷ bs)

  abbrev pub all_false : List (L × Disk) → List Bool
  all_false [] = []
  all_false (e ∷ es) = false ∷ all_false es

  broken-append_all :
      (es : List (L × Disk)) (j : Journal L)
      → j.chain_broken ≡ true
      → append_all es j ≡ (j, all_false es)
  unfolding append_all append
  broken-append_all [] j h = refl
  broken-append_all ((line, disk) ∷ es) j h =
      simp h (ap (λ (r : Journal L × List Bool). (r.0, false ∷ r.1)) (broken-append_all es j h))

  broken-append :
      (line : L) (disk : Disk) (j : Journal L)
      → disk ≢ takes
      → (append f line disk j).0.chain_broken ≡ true
  unfolding append write_entry
  broken-append line takes j h = absurd (h refl)
  broken-append line no_directory j h = ground arith
  broken-append line no_write j h = ground arith

  -- Once the disk refuses one entry, no later entry is ever written, although the disk takes it:
  -- the promise of each later append is rejected and the journal stays as it is.
  pub append_all-after_failure :
      (line : L) (disk : Disk) (es : List (L × Disk)) (j : Journal L)
      → disk ≢ takes
      → append_all es (append f line disk j).0 ≡ ((append f line disk j).0, all_false es)
  append_all-after_failure line disk es j h =
      broken-append_all es (append f line disk j).0 (broken-append line disk j h)

  bytes-append : (xs : List L) (l : L) → bytes f (xs ++ l ∷ []) ≡ bytes f xs + f.size l
  unfolding bytes
  bytes-append [] l = omega arith
  bytes-append (x ∷ xs) l = omega (arith, bytes-append xs l)

  rotate_found-le :
      (o : Option (List L)) (j : Journal L)
      → j.file ≡ o
      → bytes f (lines_of (rotate_found f o j).file) ≤ j.max_bytes
  unfolding bytes
  rotate_found-le none j e = simp e (omega arith)
  rotate_found-le (some ls) j e = elim (Bool-cases (ltb (bytes f ls) j.max_bytes)) [
    | inl small ↦ simp (small, e) (ground (arith, small))
    | inr large ↦ simp large (omega arith)
  ]

  rotated-le : (j : Journal L) → bytes f (lines_of (rotate_if_needed f j).file) ≤ j.max_bytes
  unfolding rotate_if_needed
  rotated-le j = rotate_found-le j.file j refl

  -- An append that resolves leaves its entry last in the file, which is shorter than the maximum
  -- before the entry, or holds nothing but the entry.
  pub append_lem :
      (line : L) (disk : Disk) (j : Journal L)
      → (append f line disk j).1 ≡ true
      → (before : List L) × ((append f line disk j).0.file ≡ some (before ++ line ∷ []))
        × (bytes f (before ++ line ∷ []) ≤ j.max_bytes + f.size line)
  unfolding append write_entry
  append_lem line takes j h =
      let before = lines_of (rotate_if_needed f j).file in
      (
        before,
        elim (Bool-cases j.chain_broken) [
          | inl broken ↦ absurd (let e = simp broken at h in cc)
          | inr fine ↦ simp fine
        ],
        omega (arith, bytes-append before line, rotated-le j),
      )
  append_lem line no_directory j h = absurd (ground (arith, h))
  append_lem line no_write j h = absurd (ground (arith, h))
