-- ===== src/Prompt/Birth.antt =====
-- How often a session of src/runtime.ts is told about its birth.
use cursor_claw.Base.{
  ℕ, ◌+◌, ◌≤◌, ◌≡◌, refl, Bool, true, false, not, ◌&&◌, List, [], ◌∷◌, arith, any, inl, inr,
  Bool-cases, mem, eq_of_==, codes_eq, ◌==◌,
}
use cursor_claw.Prompt.Notes.{Text, Note, birth, no_birth, Turn}
use cursor_claw.Prompt.{
  Message, Options, Sessions, add_session, build_prompt_messages, notes_for, flags_of,
}
use cursor_claw.Prompt.Kinds.{is_special, any-only_if, free-system_notes, free-minimal_system}
use cursor_claw.Prompt.Notes.{
  main_session_notes, birth_notes, note_of, only_if, user_file, session_memory, recent_topics,
  experiences, interrupted,
}
use cursor_claw.Prompt.Kinds.{any-append_none, any-note_of}

-- The notes about the birth.
abbrev pub is_birth : Note → Bool
is_birth (birth t) = true
is_birth no_birth = true
is_birth _ = false

birth_special : (n : Note) → is_special n ≡ false → is_birth n ≡ false
birth_special n h = ground (arith, h)

main_session_notes-free : (t : Turn) → any is_birth (main_session_notes t) ≡ false
unfolding main_session_notes
main_session_notes-free t = any-only_if is_birth t.is_main_session _ (
    any-append_none is_birth (note_of user_file _) _ (any-note_of is_birth user_file _ (λ x. refl))
      (any-append_none is_birth (note_of session_memory _) _
        (any-note_of is_birth session_memory _ (λ x. refl))
        (any-append_none is_birth (note_of recent_topics _) _
          (any-note_of is_birth recent_topics _ (λ x. refl))
          (any-append_none is_birth (note_of experiences _) _
            (any-note_of is_birth experiences _ (λ x. refl))
            (any-note_of is_birth interrupted _ (λ x. refl))))))

birth-known :
    (o : Options) (t : Turn) (ms : List Message) (s : Sessions)
    → mem t.session_key s ≡ true
    → any is_birth (notes_for o t ms s) ≡ false
unfolding notes_for birth_notes only_if
birth-known o t ms s h =
    rw h (free-system_notes is_birth birth_special _ false _ t (main_session_notes-free t) refl)

birth-minimal :
    (o : Options) (t : Turn) (ms : List Message) (s : Sessions)
    → (flags_of o t ms).1 ≡ true
    → any is_birth (notes_for o t ms s) ≡ false
unfolding notes_for
birth-minimal o t ms s h =
    rw h (free-minimal_system is_birth birth_special (not (mem t.session_key s)) _ t)

abbrev bit : Bool → ℕ
bit true = 1
bit false = 0

-- How many prompts of a session, over a history of turns, have a note about the birth.
pub times_told : Options → List (Turn × List Message) → Sessions → (session_key : Text) → ℕ
times_told o [] s k = 0
times_told o ((t, ms) ∷ ts) s k =
    bit (t.session_key == k && any is_birth (notes_for o t ms s))
    + times_told o ts (build_prompt_messages o t ms s).0 k

mem-add_session : (k j : Text) (s : Sessions) → mem k s ≡ true → mem k (add_session j s) ≡ true
mem-add_session k j s h = ground (arith, h)

mem-add_session_self : (k : Text) (s : Sessions) → mem k (add_session k s) ≡ true
mem-add_session_self k s = ground (arith, codes_eq.is_same_iff k k)

known-after :
    (o : Options) (t : Turn) (ms : List Message) (s : Sessions) (k : Text)
    → mem k s ≡ true
    → mem k (build_prompt_messages o t ms s).0 ≡ true
unfolding build_prompt_messages
known-after o t ms s k h = ground (arith, h, mem-add_session k t.session_key s)

times_told-known :
    (o : Options) (ts : List (Turn × List Message)) (s : Sessions) (k : Text)
    → mem k s ≡ true
    → times_told o ts s k ≡ 0
unfolding times_told
times_told-known o [] s k h = refl
times_told-known o ((t, ms) ∷ ts) s k h =
    let rest =
      times_told-known o ts (build_prompt_messages o t ms s).0 k (known-after o t ms s k h) in
    elim (Bool-cases (t.session_key == k)) [
      | inl same ↦
          let e = eq_of_== t.session_key k same in
          let none_told = birth-known o t ms s (rw e h) in
          rw (same, none_told) (omega (arith, rest))
      | inr other ↦ rw other (omega (arith, rest))
    ]

known-told :
    (o : Options) (t : Turn) (ms : List Message) (s : Sessions) (k : Text)
    → (t.session_key == k && any is_birth (notes_for o t ms s)) ≡ true
    → mem k (build_prompt_messages o t ms s).0 ≡ true
unfolding build_prompt_messages
known-told o t ms s k told = ground (
  arith,
  told,
  birth-minimal o t ms s,
  mem-add_session_self t.session_key s,
  codes_eq.is_same_iff t.session_key k,
)

-- Over any history of turns, also with other sessions in between, at most one prompt of a session
-- has a note about the birth.
pub times_told-le :
    (o : Options) (ts : List (Turn × List Message)) (s : Sessions) (k : Text)
    → times_told o ts s k ≤ 1
unfolding times_told
times_told-le o [] s k = omega arith
times_told-le o ((t, ms) ∷ ts) s k =
    let rest = times_told-le o ts (build_prompt_messages o t ms s).0 k in
    elim (Bool-cases (t.session_key == k && any is_birth (notes_for o t ms s))) [
      | inr quiet ↦ rw quiet (omega (arith, rest))
      | inl told ↦
          let known = known-told o t ms s k told in
          rw told (omega (arith, times_told-known o ts (build_prompt_messages o t ms s).0 k known))
    ]
