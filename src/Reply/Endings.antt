-- ===== src/Reply/Endings.antt =====
-- The repeated endings and the JSON objects in replies of src/runtime.ts.
use cursor_claw.Base.{
  ℕ, zero, suc, ◌+◌, ◌-◌, ◌≤◌, ◌<◌, ◌≡◌, ◌⊎◌, inl, inr, refl, sym, subst, ap, ◌∙◌, Bool, true,
  false, some, [], ◌∷◌, ◌++◌, arith, ltb, leb, eqb, length, take, drop, Bool-cases,
}
use cursor_claw.Reply.{
  Text, ends_with, remove_suffix, remove_duplicated_trailing_suffix, brace_open, brace_close, quote,
  backslash, outside, in_string, scan, find_json_object_extent,
}

-- The last `k` characters stand before themselves once more.
abbrev pub is_repeated : Text → ℕ → Bool
is_repeated text k = ends_with (take (length text - k) text) (drop (length text - k) text)

take-length : (t : Text) → take (length t) t ≡ t
take-length [] = refl
take-length (c ∷ t) = ap (λ xs. c ∷ xs) (take-length t)

-- What is left when the loop starts at `n`, about the ending of length `j`.
abbrev Removed : ℕ → Text → ℕ → Type 0
Removed n text j =
    (k : ℕ) × (remove_suffix n text ≡ take (length text - k) text)
    × ((k ≡ 0) ⊎ (is_repeated text k ≡ true))
    × ((j ≤ n) → (is_repeated text j ≡ false) ⊎ (j ≤ k))

remove_suffix_lem : (n : ℕ) (text : Text) (j : ℕ) → 0 < j → Removed n text j
unfolding remove_suffix
remove_suffix_lem zero text j p =
    let all : length text - 0 ≡ length text = omega arith in
    (0, rw all (sym (take-length text)), inl refl, λ h. absurd (omega (arith, h, p)))
remove_suffix_lem (suc n) text j p = elim (Bool-cases (is_repeated text (suc n))) [
  | inl again ↦ (suc n, rw again, inr again, λ h. inr h)
  | inr fresh ↦
      let (k, e, r, m) = remove_suffix_lem n text j p in
      (
        k,
        rw fresh e,
        r,
        λ h. elim (Bool-cases (leb j n)) [
          | inl below ↦ m (ground (arith, below))
          | inr above ↦
              inl (subst (λ (i : ℕ). is_repeated text i ≡ false) (ground (arith, h, above)) fresh)
        ],
      )
]

-- What is left of a reply is its beginning without its longest ending that stands there twice in a
-- row: it is cut by some length, 0 or that of a repeated ending, and no longer one is repeated.
pub remove_duplicated_trailing_suffix_lem :
    (text : Text) (j : ℕ)
    → 0 < j
    → j < length text
    → (k : ℕ) × (remove_duplicated_trailing_suffix text ≡ take (length text - k) text)
      × ((k ≡ 0) ⊎ (is_repeated text k ≡ true))
      × ((is_repeated text j ≡ false) ⊎ (j ≤ k))
unfolding remove_duplicated_trailing_suffix
remove_duplicated_trailing_suffix_lem text j p q =
    let long : ltb (length text) 2 ≡ false = ground (arith, p, q) in
    let (k, e, r, m) = remove_suffix_lem (length text - 1) text j p in
    rw long (k, e, r, m (omega (arith, p, q)))

-- What may stand between quotes: characters other than a quote and a backslash, and any character
-- after a backslash.
pub data Chars : Type 0 where
  no_chars : Chars
  char : (c : ℕ) → eqb c quote ≡ false → eqb c backslash ≡ false → Chars → Chars
  escape : (c : ℕ) → Chars → Chars

-- What may stand between braces: other characters, strings, and braces again.
pub data Items : Type 0 where
  no_items : Items
  plain :
      (c : ℕ)
      → eqb c brace_open ≡ false
      → eqb c brace_close ≡ false
      → eqb c quote ≡ false
      → Items
      → Items
  string : Chars → Items → Items
  braces : Items → Items → Items

pub print_chars : Chars → Text → Text
print_chars no_chars rest = rest
print_chars (char c h k cs) rest = c ∷ print_chars cs rest
print_chars (escape c cs) rest = backslash ∷ c ∷ print_chars cs rest

-- The text of the items before a rest.
pub print_items : Items → Text → Text
unfolding print_chars
print_items no_items rest = rest
print_items (plain c h k q is) rest = c ∷ print_items is rest
print_items (string cs is) rest = quote ∷ print_chars cs (quote ∷ print_items is rest)
print_items (braces js is) rest = brace_open ∷ print_items js (brace_close ∷ print_items is rest)

pub size_chars : Chars → ℕ
size_chars no_chars = 0
size_chars (char c h k cs) = 1 + size_chars cs
size_chars (escape c cs) = 2 + size_chars cs

pub size_items : Items → ℕ
unfolding size_chars
size_items no_items = 0
size_items (plain c h k q is) = 1 + size_items is
size_items (string cs is) = 2 + size_chars cs + size_items is
size_items (braces js is) = 2 + size_items js + size_items is

scan-print_chars :
    (cs : Chars) (d i : ℕ) (rest : Text)
    → scan in_string d i (print_chars cs (quote ∷ rest))
      ≡ scan outside d (i + size_chars cs + 1) rest
unfolding scan print_chars size_chars
scan-print_chars no_chars d i rest = ap (λ (n : ℕ). scan outside d n rest) (omega arith)
scan-print_chars (char c h k cs) d i rest =
    rw (h, k)
      (scan-print_chars cs d (suc i) rest ∙ ap (λ (n : ℕ). scan outside d n rest) (omega arith))
scan-print_chars (escape c cs) d i rest =
    scan-print_chars cs d (suc (suc i)) rest ∙ ap (λ (n : ℕ). scan outside d n rest) (omega arith)

scan-close :
    (d i : ℕ) (s : Text)
    → scan outside (suc (suc d)) i (brace_close ∷ s) ≡ scan outside (suc d) (suc i) s
unfolding scan
scan-close d i s =
    let deep : eqb (suc (suc d)) 1 ≡ false = ground arith in
    let less : suc (suc d) - 1 ≡ suc d = omega arith in
    rw deep (ap (λ (n : ℕ). scan outside n (suc i) s) less)

scan-print_items :
    (is : Items) (d i : ℕ) (rest : Text)
    → scan outside (suc d) i (print_items is rest) ≡ scan outside (suc d) (i + size_items is) rest
unfolding scan print_items size_items
scan-print_items no_items d i rest = ap (λ (n : ℕ). scan outside (suc d) n rest) (omega arith)
scan-print_items (plain c h k q is) d i rest =
    rw (h, k, q)
      (scan-print_items is d (suc i) rest
        ∙ ap (λ (n : ℕ). scan outside (suc d) n rest) (omega arith))
scan-print_items (string cs is) d i rest =
    scan-print_chars cs (suc d) (suc i) (print_items is rest)
    ∙ scan-print_items is d (suc i + size_chars cs + 1) rest
    ∙ ap (λ (n : ℕ). scan outside (suc d) n rest) (omega arith)
scan-print_items (braces js is) d i rest =
    scan-print_items js (suc d) (suc i) (brace_close ∷ print_items is rest)
    ∙ scan-close d (suc i + size_items js) (print_items is rest)
    ∙ scan-print_items is d (suc (suc i + size_items js)) rest
    ∙ ap (λ (n : ℕ). scan outside (suc d) n rest) (omega arith)

drop-append : (before s : Text) → drop (length before) (before ++ s) ≡ s
drop-append [] s = refl
drop-append (c ∷ before) s = drop-append before s

-- Whatever stands before and after a text in balanced braces, the extent that starts at its first
-- brace ends right after its last one; braces and escaped quotes inside of its strings do not count.
pub find_json_object_extent-print_items :
    (before : Text) (is : Items) (rest : Text)
    → find_json_object_extent
        (before ++ (brace_open ∷ print_items is (brace_close ∷ rest)))
        (length before)
      ≡ some (length before + size_items is + 2)
unfolding find_json_object_extent scan
find_json_object_extent-print_items before is rest =
    rw (drop-append before (brace_open ∷ print_items is (brace_close ∷ rest)))
      (scan-print_items is 0 (suc (length before)) (brace_close ∷ rest) ∙ ap some (omega arith))
