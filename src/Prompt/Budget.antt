-- ===== src/Prompt/Budget.antt =====
-- How much of the prompt of src/runtime.ts the system messages take, and which messages of the user
-- are in it.
use cursor_claw.Base.{
  ℕ, zero, suc, ◌+◌, ◌-◌, ◌*◌, ◌/◌, ◌≤◌, ◌≡◌, min, max, Bool, true, false, ◌&&◌, refl, ap, Option,
  none, some, List, [], ◌∷◌, arith, leb, length, take, length-drop, map, inl, inr, Bool-cases,
}
use cursor_claw.Prompt.Notes.{Text, Turn, is_empty}
use cursor_claw.Prompt.{
  Message, Options, within_budget, total_budget, apply_system_prompt_budget, retained,
  user_messages, ask_for_tools, chosen_messages, scrub_message, flags_of, last_user,
}

length-take : (n : ℕ) (t : Text) → length (take n t) ≡ min n (length t)
length-take zero t = omega arith
length-take (suc n) [] = omega arith
length-take (suc n) (c ∷ t) = omega (arith, length-take n t)

-- The characters of the messages.
abbrev pub total : List Message → ℕ
total [] = 0
total (m ∷ ms) = length m.content + total ms

-- The characters that messages of limited length would take.
abbrev pub demanded : (per_message_max : ℕ) → List Message → ℕ
demanded p [] = 0
demanded p (m ∷ ms) = min p (length m.content) + demanded p ms

-- Each message is of the length at most.
abbrev pub all_within : ℕ → List Message → Bool
all_within p [] = true
all_within p (m ∷ ms) = leb (length m.content) p && all_within p ms

length-of_empty : (t : Text) → is_empty t ≡ true → length t ≡ 0
length-of_empty [] h = refl
length-of_empty (c ∷ t) h = cc

total-within_budget :
    (p r : ℕ) (ms : List Message) → total (within_budget p r ms) ≡ min r (demanded p ms)
unfolding within_budget
total-within_budget p r [] = omega arith
total-within_budget p r (m ∷ ms) =
    let bounded = take (min p r) m.content in
    ground (
      arith,
      length-take (min p r) m.content,
      length-of_empty bounded,
      total-within_budget p (r - length bounded) ms,
    )

all_within-within_budget :
    (p r : ℕ) (ms : List Message) → all_within p (within_budget p r ms) ≡ true
unfolding within_budget
all_within-within_budget p r [] = refl
all_within-within_budget p r (m ∷ ms) =
    let bounded = take (min p r) m.content in
    ground
      (arith, length-take (min p r) m.content, all_within-within_budget p (r - length bounded) ms)

-- The system messages take exactly the characters that they would take each cut to the maximum of a
-- message, or one and a half times that maximum when this is less; none is longer than the maximum.
pub total-apply_system_prompt_budget :
    (p : ℕ) (ms : List Message)
    → (total (apply_system_prompt_budget p ms) ≡ min (max p (3 * p / 2)) (demanded p ms))
      × (all_within p (apply_system_prompt_budget p ms) ≡ true)
unfolding apply_system_prompt_budget total_budget
total-apply_system_prompt_budget p ms = (
  total-within_budget p (max p (3 * p / 2)) ms,
  all_within-within_budget p (max p (3 * p / 2)) ms,
)

length-map {ℓ} : {A : Type ℓ} (f : A → A) (xs : List A) → length (map f xs) ≡ length xs
length-map f [] = refl
length-map f (x ∷ xs) = ap suc (length-map f xs)

length-ask_for_tools : (o : Options) (ms : List Message) → length (ask_for_tools o ms) ≡ length ms
unfolding ask_for_tools
length-ask_for_tools o [] = refl
length-ask_for_tools o (m ∷ []) = refl
length-ask_for_tools o (m ∷ n ∷ ms) = ap suc (length-ask_for_tools o (n ∷ ms))

length-retained-le : (ms : List Message) → length (retained ms) ≤ 8
unfolding retained
length-retained-le ms = omega (arith, length-drop (length ms - 8) ms)

length-chosen-le :
    (o : Options) (b : Bool) (m : Option Message) (ms : List Message)
    → length ms ≤ 8
    → length (chosen_messages o b m (map (scrub_message o) ms)) ≤ 8
length-chosen-le o true (some m) ms h = omega arith
length-chosen-le o true none ms h = omega (arith, length-map (scrub_message o) ms)
length-chosen-le o false m ms h = omega (arith, length-map (scrub_message o) ms)

pub length-user_messages-le :
    (o : Options) (t : Turn) (ms : List Message) → length (user_messages o t ms) ≤ 8
unfolding user_messages
length-user_messages-le o t ms =
    let chosen =
      chosen_messages o (flags_of o t ms).0 (last_user (retained ms))
        (map (scrub_message o) (retained ms)) in
    let few : length chosen ≤ 8 =
      length-chosen-le o (flags_of o t ms).0 (last_user (retained ms)) (retained ms)
        (length-retained-le ms) in
    elim (Bool-cases (flags_of o t ms).1) [
      | inl asks ↦ rw asks (omega (arith, length-ask_for_tools o chosen, few))
      | inr plain ↦ rw plain few
    ]
