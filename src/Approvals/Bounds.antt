-- ===== src/Approvals/Bounds.antt =====
-- The limits on the arguments that a request keeps.
use mathlib.Core.Path.{ap₂}
use cursor_claw.Base.{
  ℕ, zero, suc, ◌≤◌, ◌≡◌, refl, ap, List, [], ◌∷◌, ◌++◌, arith, length, take, length-append, true,
  inl, inr, ltb, Bool-cases, ltb→lt, lt→ltb,
}
use cursor_claw.Approvals.Args.{
  Value, null, undefined, bool, num, text, array, object, Items, no_items, item, Fields, no_fields,
  entry, max_text, ellipsis, sanitize_text, sanitize_args, sanitize_items, sanitize_fields,
  IsBounded, AreBounded, HaveBounded,
}

length-take_of_le : (n : ℕ) (s : List ℕ) → n ≤ length s → length (take n s) ≡ n
length-take_of_le zero s h = refl
length-take_of_le (suc n) [] h = elim h [ ]
length-take_of_le (suc n) (x ∷ s) h = ap suc (length-take_of_le n s (omega arith))

take-append : (n : ℕ) (s t : List ℕ) → length s ≡ n → take n (s ++ t) ≡ s
take-append zero [] t h = refl
take-append zero (x ∷ s) t h = absurd (omega arith)
take-append (suc n) [] t h = absurd (omega arith)
take-append (suc n) (x ∷ s) t h = ap (λ r. x ∷ r) (take-append n s t (omega arith))

sanitize_text-le : (s : List ℕ) → length (sanitize_text s) ≤ 401
unfolding sanitize_text
sanitize_text-le s = elim (Bool-cases (ltb max_text (length s))) [
  | inl long ↦ rw long (
      omega (
        arith,
        ltb→lt max_text (length s) long,
        length-append {0} (take max_text s) (ellipsis ∷ []),
        length-take_of_le max_text s,
      ))
  | inr short ↦ rw short (ground arith)
]

sanitize_text_idem : (s : List ℕ) → sanitize_text (sanitize_text s) ≡ sanitize_text s
unfolding sanitize_text
sanitize_text_idem s = elim (Bool-cases (ltb max_text (length s))) [
  | inl long ↦
      let kept = length-take_of_le max_text s (omega (arith, ltb→lt max_text (length s) long)) in
      let grown : ltb max_text (length (take max_text s ++ ellipsis ∷ [])) ≡ true =
        lt→ltb _ _ (omega (arith, kept, length-append {0} (take max_text s) (ellipsis ∷ []))) in
      rw (long, grown, take-append max_text (take max_text s) (ellipsis ∷ []) kept)
  | inr short ↦ rw (short, short)
]

mutual
  unfolding sanitize_args IsBounded

  bounded : (v : Value) → IsBounded (sanitize_args v)
  bounded null = tt
  bounded undefined = tt
  bounded (bool b) = tt
  bounded (num n) = tt
  bounded (text s) = sanitize_text-le s
  bounded (array xs) = items_bounded xs 10
  bounded (object fs) = fields_bounded fs 20

  items_bounded : (xs : Items) (room : ℕ) → AreBounded (sanitize_items xs room) room
  items_bounded no_items room = tt
  items_bounded (item x xs) zero = tt
  items_bounded (item x xs) (suc room) = (bounded x, items_bounded xs room)

  fields_bounded : (fs : Fields) (room : ℕ) → HaveBounded (sanitize_fields fs room) room
  fields_bounded no_fields room = tt
  fields_bounded (entry k v fs) zero = tt
  fields_bounded (entry k v fs) (suc room) = (bounded v, fields_bounded fs room)

-- Whatever the arguments of a tool call, each text that a request keeps of them has at most 401
-- code units, each array at most 10 entries and each object at most 20, at every depth.
pub sanitize_args-IsBounded : (v : Value) → IsBounded (sanitize_args v)
sanitize_args-IsBounded v = bounded v

mutual
  unfolding sanitize_args

  idem : (v : Value) → sanitize_args (sanitize_args v) ≡ sanitize_args v
  idem null = refl
  idem undefined = refl
  idem (bool b) = refl
  idem (num n) = refl
  idem (text s) = ap text (sanitize_text_idem s)
  idem (array xs) = ap array (items_idem xs 10)
  idem (object fs) = ap object (fields_idem fs 20)

  items_idem :
      (xs : Items) (room : ℕ)
      → sanitize_items (sanitize_items xs room) room ≡ sanitize_items xs room
  items_idem no_items room = refl
  items_idem (item x xs) zero = refl
  items_idem (item x xs) (suc room) = ap₂ item (idem x) (items_idem xs room)

  fields_idem :
      (fs : Fields) (room : ℕ)
      → sanitize_fields (sanitize_fields fs room) room ≡ sanitize_fields fs room
  fields_idem no_fields room = refl
  fields_idem (entry k v fs) zero = refl
  fields_idem (entry k v fs) (suc room) = ap₂ (entry k) (idem v) (fields_idem fs room)

-- Sanitizing a second time changes nothing.
pub sanitize_args_idem : (v : Value) → sanitize_args (sanitize_args v) ≡ sanitize_args v
sanitize_args_idem v = idem v
