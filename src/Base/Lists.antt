-- ===== src/Base/Lists.antt =====
-- Lists measured by native numbers, and lists under Boolean tests.
use Prim.Native.Nat.{ℕ, zero, suc, ◌+◌, ◌-◌, ◌≤◌}
use mathlib.Core.Path.{◌≡◌, refl, subst, ap}
use mathlib.Core.Logic.{inl, inr}
use mathlib.Core.Bool.{Bool, true, false, not, ◌||◌, ◌&&◌}
use mathlib.Core.List.{List, [], ◌∷◌, ◌++◌}
use mathlib.Core.Option.{Option, none, some}
use native.Mathlib.Omega.{arith}
use cursor_claw.Base.Tests.{if◌then◌else◌, Eq, ◌==◌, ==_refl, eq_of_==, Bool-cases}

-- A predicate that holds of every entry.
abbrev pub All {ℓ κ} : {A : Type ℓ} → (A → Type κ) → List A → Type κ
All P [] = Unit
All P (x ∷ xs) = P x × All P xs

module _ {ℓ} {A : Type ℓ} where
  abbrev pub length : List A → ℕ
  length [] = 0
  length (x ∷ xs) = suc (length xs)

  abbrev pub take : ℕ → List A → List A
  take zero xs = []
  take (suc n) [] = []
  take (suc n) (x ∷ xs) = x ∷ take n xs

  abbrev pub drop : ℕ → List A → List A
  drop zero xs = xs
  drop (suc n) [] = []
  drop (suc n) (x ∷ xs) = drop n xs

  pub length-append : (xs ys : List A) → length (xs ++ ys) ≡ length xs + length ys
  length-append [] ys = omega arith
  length-append (x ∷ xs) ys = omega (arith, length-append xs ys)

  pub length-drop : (n : ℕ) (xs : List A) → length (drop n xs) ≡ length xs - n
  length-drop zero xs = omega arith
  length-drop (suc n) [] = omega arith
  length-drop (suc n) (x ∷ xs) = omega (arith, length-drop n xs)

  -- `xs.slice(-n)` for a positive `n`: the last `n` entries.
  abbrev pub take_last : ℕ → List A → List A
  take_last n xs = drop (length xs - n) xs

  -- `xs.filter(p)`.
  abbrev pub keep : (A → Bool) → List A → List A
  keep p [] = []
  keep p (x ∷ xs) = if p x then x ∷ keep p xs else keep p xs

  -- `xs.some(p)`.
  abbrev pub any : (A → Bool) → List A → Bool
  any p [] = false
  any p (x ∷ xs) = p x || any p xs

  -- `xs.find(p)`.
  abbrev pub find : (A → Bool) → List A → Option A
  find p [] = none
  find p (x ∷ xs) = if p x then some x else find p xs

  pub length-keep : (p : A → Bool) (xs : List A) → length (keep p xs) ≤ length xs
  length-keep p [] = omega arith
  length-keep p (x ∷ xs) = ground (arith, length-keep p xs)

  pub keep-keep : (p : A → Bool) (xs : List A) → keep p (keep p xs) ≡ keep p xs
  keep-keep p [] = refl
  keep-keep p (x ∷ xs) = ground (arith, keep-keep p xs)

  pub keep-append : (p : A → Bool) (xs ys : List A) → keep p (xs ++ ys) ≡ keep p xs ++ keep p ys
  keep-append p [] ys = refl
  keep-append p (x ∷ xs) ys = ground (arith, keep-append p xs ys)

  pub All-append {κ} : (P : A → Type κ) (xs ys : List A) → All P xs → All P ys → All P (xs ++ ys)
  All-append P [] ys h k = k
  All-append P (x ∷ xs) ys h k = (h.0, All-append P xs ys h.1 k)

  pub All-later {κ} : (P Q : A → Type κ) (xs : List A) → ((x : A) → P x → Q x) → All P xs → All Q xs
  All-later P Q [] f h = tt
  All-later P Q (x ∷ xs) f h = (f x h.0, All-later P Q xs f h.1)

  pub All-keep {κ} : (P : A → Type κ) (p : A → Bool) (xs : List A) → All P xs → All P (keep p xs)
  All-keep P p [] h = tt
  All-keep P p (x ∷ xs) h = ground (arith, All-keep P p xs h.1)

module _ {ℓ} {A : Type ℓ} ⦃e : Eq A⦄ where
  -- `xs.includes(a)`.
  abbrev pub mem : A → List A → Bool
  mem a [] = false
  mem a (x ∷ xs) = x == a || mem a xs

  -- `[...new Set(xs)]`: first occurrences, in order.
  abbrev pub dedup : List A → List A
  dedup [] = []
  dedup (x ∷ xs) = x ∷ keep (λ y. not (x == y)) (dedup xs)

  abbrev pub IsDistinct : List A → Type 0
  IsDistinct [] = Unit
  IsDistinct (x ∷ xs) = (mem x xs ≡ false) × IsDistinct xs

  pub mem-keep_ne :
      (x a : A) (xs : List A) → mem a (keep (λ y. not (x == y)) xs) ≡ (not (x == a) && mem a xs)
  mem-keep_ne x a [] = ground arith
  mem-keep_ne x a (y ∷ xs) =
      ground (arith, mem-keep_ne x a xs, e.is_same_iff x y, e.is_same_iff y a, e.is_same_iff x a)

  pub keep-IsDistinct :
      (x : A) (xs : List A) → IsDistinct xs → IsDistinct (keep (λ y. not (x == y)) xs)
  keep-IsDistinct x [] d = tt
  keep-IsDistinct x (y ∷ xs) d = ground (arith, keep-IsDistinct x xs d.1, mem-keep_ne x y xs)

  pub dedup-IsDistinct : (xs : List A) → IsDistinct (dedup xs)
  dedup-IsDistinct [] = tt
  dedup-IsDistinct (x ∷ xs) = (
    rw (mem-keep_ne x x (dedup xs), ==_refl x),
    keep-IsDistinct x (dedup xs) (dedup-IsDistinct xs),
  )

  pub mem-dedup : (a : A) (xs : List A) → mem a (dedup xs) ≡ mem a xs
  mem-dedup a [] = refl
  mem-dedup a (x ∷ xs) =
      ground (arith, mem-keep_ne x a (dedup xs), mem-dedup a xs, e.is_same_iff x a)

  pub mem-append : (a : A) (xs ys : List A) → mem a (xs ++ ys) ≡ (mem a xs || mem a ys)
  mem-append a [] ys = refl
  mem-append a (x ∷ xs) ys = ground (arith, mem-append a xs ys)

  -- An entry of a list without repeats is not before its place.
  pub mem-before :
      (xs : List A) (a : A) (ys : List A) → IsDistinct (xs ++ a ∷ ys) → mem a xs ≡ false
  mem-before [] a ys d = refl
  mem-before (x ∷ xs) a ys d =
      ground (arith, mem-before xs a ys d.1, mem-append x xs (a ∷ ys), e.is_same_iff x a, ==_refl a)

  pub of_All {κ} : (P : A → Type κ) (xs : List A) → All P xs → (a : A) → mem a xs ≡ true → P a
  of_All P [] h a m = cc
  of_All P (x ∷ xs) h a m = elim (Bool-cases (x == a)) [
    | inl same ↦ subst P (eq_of_== x a same) h.0
    | inr other ↦ of_All P xs h.1 a (rw other at m)
  ]

  pub to_All {κ} : (P : A → Type κ) (xs : List A) → ((a : A) → mem a xs ≡ true → P a) → All P xs
  to_All P [] h = tt
  to_All P (x ∷ xs) h =
      (h x (rw (==_refl x)), to_All P xs (λ a m. h a (ground (arith, m, e.is_same_iff x a))))

  length-keep_absent :
      (x : A) (xs : List A) → mem x xs ≡ false → length (keep (λ y. not (x == y)) xs) ≡ length xs
  length-keep_absent x [] m = refl
  length-keep_absent x (y ∷ xs) m =
      ground (arith, length-keep_absent x xs, e.is_same_iff x y, e.is_same_iff y x)

  pub length-keep_ne :
      (x : A) (xs : List A)
      → IsDistinct xs
      → mem x xs ≡ true
      → suc (length (keep (λ y. not (x == y)) xs)) ≡ length xs
  length-keep_ne x [] d m = cc
  length-keep_ne x (y ∷ xs) d m = elim (Bool-cases (x == y)) [
    | inl same ↦ let p = eq_of_== x y same in rw same (ap suc (length-keep_absent x xs (rw p d.0)))
    | inr other ↦
        rw other (
          ap suc
            (length-keep_ne x xs d.1 (ground (arith, m, e.is_same_iff x y, e.is_same_iff y x))))
  ]
