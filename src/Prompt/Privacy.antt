-- ===== src/Prompt/Privacy.antt =====
-- What a prompt of src/runtime.ts does not show: the notes of the web chat elsewhere, and texts that
-- the scrubber has not seen.
use cursor_claw.Base.{
  ℕ, ◌-◌, ◌≡◌, min, Bool, true, false, not, refl, ◌∙◌, subst, ap, Option, none, some, List, [], ◌∷◌,
  ◌++◌, arith, eqb, length, take, any, map, All, All-append, All-later, inl, inr, Bool-cases, mem,
  codes_eq,
}
use cursor_claw.Prompt.Notes.{
  Text, Note, user_file, session_memory, recent_topics, experiences, interrupted, no_birth, Turn,
  is_empty, only_if, trimmed, main_session_notes, birth_notes, birth_found,
}
use cursor_claw.Prompt.Kinds.{is_special, any-note_if, any-only_if, free-system_notes}
use cursor_claw.Prompt.{
  Message, Options, Sessions, within_budget, apply_system_prompt_budget, total_budget, retained,
  user_messages, ask_for_tools, chosen_messages, scrub_message, flags_of, last_user, note_messages,
  plugin_messages, notes_for, build_prompt_messages,
}

-- The notes with texts about the person in the web chat.
abbrev pub is_private : Note → Bool
is_private (user_file t) = true
is_private (session_memory t) = true
is_private (recent_topics t) = true
is_private (experiences t) = true
is_private (interrupted t) = true
is_private _ = false

private_special : (n : Note) → is_special n ≡ false → is_private n ≡ false
private_special n h = ground (arith, h)

public-birth_found : (b : Bool) (o : Option Text) → any is_private (birth_found b o) ≡ false
public-birth_found b (some t) = refl
public-birth_found b none = any-note_if is_private b no_birth refl

public-birth_notes : (b : Bool) (t : Turn) → any is_private (birth_notes b t) ≡ false
unfolding birth_notes
public-birth_notes b t =
    any-only_if is_private b _ (public-birth_found t.has_substrate (trimmed t.substrate.birth_text))

public-main_session_notes :
    (t : Turn) → t.is_main_session ≡ false → any is_private (main_session_notes t) ≡ false
unfolding main_session_notes only_if
public-main_session_notes t h = simp h

-- Outside the web chat no prompt has a note with the file about the user, the memory of the
-- session, recent topics, past experiences or interrupted runs, whatever the services offer.
pub private-notes_for :
    (o : Options) (t : Turn) (ms : List Message) (sessions : Sessions)
    → t.is_main_session ≡ false
    → any is_private (notes_for o t ms sessions) ≡ false
unfolding notes_for
private-notes_for o t ms sessions h =
    free-system_notes is_private private_special _ _ _ t (public-main_session_notes t h)
      (public-birth_notes (not (mem t.session_key sessions)) t)

-- A message whose content is the beginning of what the scrubber made of a text.
abbrev pub Scrubbed : Options → Message → Type 0
Scrubbed o m = (t : Text) × (n : ℕ) × (m.content ≡ take n (o.scrub t))

take-all : (t : Text) → t ≡ take (length t) t
take-all [] = refl
take-all (c ∷ t) = ap (λ xs. c ∷ xs) (take-all t)

-- A message whose content is all that the scrubber made of a text.
abbrev IsWhole : Options → Message → Type 0
IsWhole o m = (t : Text) × (m.content ≡ o.scrub t)

whole-Scrubbed : (o : Options) (m : Message) → IsWhole o m → Scrubbed o m
whole-Scrubbed o m (t, e) = (t, length (o.scrub t), e ∙ take-all (o.scrub t))

map-scrub_message-IsWhole :
    (o : Options) (ms : List Message) → All (IsWhole o) (map (scrub_message o) ms)
unfolding scrub_message
map-scrub_message-IsWhole o [] = tt
map-scrub_message-IsWhole o (m ∷ ms) = ((m.content, refl), map-scrub_message-IsWhole o ms)

chosen-IsWhole :
    (o : Options) (b : Bool) (m : Option Message) (ms : List Message)
    → All (IsWhole o) (chosen_messages o b m (map (scrub_message o) ms))
chosen-IsWhole o true (some m) ms = ((m.content, unfold scrub_message in refl), tt)
chosen-IsWhole o true none ms = map-scrub_message-IsWhole o ms
chosen-IsWhole o false m ms = map-scrub_message-IsWhole o ms

ask_for_tools-IsWhole :
    (o : Options) (ms : List Message) → All (IsWhole o) ms → All (IsWhole o) (ask_for_tools o ms)
unfolding ask_for_tools
ask_for_tools-IsWhole o [] h = tt
ask_for_tools-IsWhole o (m ∷ []) h = ((o.wordings.user_request ++ m.content, refl), tt)
ask_for_tools-IsWhole o (m ∷ n ∷ ms) h = (h.0, ask_for_tools-IsWhole o (n ∷ ms) h.1)

user_messages-IsWhole :
    (o : Options) (t : Turn) (ms : List Message) → All (IsWhole o) (user_messages o t ms)
unfolding user_messages
user_messages-IsWhole o t ms =
    let c = chosen-IsWhole o (flags_of o t ms).0 (last_user (retained ms)) (retained ms) in
    elim (Bool-cases (flags_of o t ms).1) [
      | inl asks ↦ rw asks (ask_for_tools-IsWhole o _ c)
      | inr plain ↦ rw plain c
    ]

note_messages-IsWhole : (o : Options) (ns : List Note) → All (IsWhole o) (note_messages o ns)
unfolding note_messages
note_messages-IsWhole o [] = tt
note_messages-IsWhole o (n ∷ ns) = ((o.wordings.of_note n, refl), note_messages-IsWhole o ns)

plugin_messages-IsWhole :
    (o : Options) (t : Turn) (ms : List Message) → All (IsWhole o) (plugin_messages o t ms)
unfolding plugin_messages
plugin_messages-IsWhole o t ms = elim (Bool-cases (flags_of o t ms).1) [
  | inl minimal ↦ rw minimal tt
  | inr full ↦ rw full (map-scrub_message-IsWhole o _)
]

within_budget-Scrubbed :
    (o : Options) (p r : ℕ) (ms : List Message)
    → All (IsWhole o) ms
    → All (Scrubbed o) (within_budget p r ms)
unfolding within_budget
within_budget-Scrubbed o p r [] h = tt
within_budget-Scrubbed o p r (m ∷ ms) ((t, e), h) =
    let bounded = take (min p r) m.content in
    let rest = within_budget-Scrubbed o p (r - length bounded) ms h in
    elim (Bool-cases (eqb r 0)) [
      | inl spent ↦ rw spent tt
      | inr left ↦ rw left (elim (Bool-cases (is_empty bounded)) [
        | inl blank ↦ rw blank rest
        | inr shown ↦ rw shown ((t, min p r, ap (take (min p r)) e), rest)
      ])
    ]

build_prompt_messages-Scrubbed :
    (o : Options) (t : Turn) (ms : List Message) (sessions : Sessions)
    → All (Scrubbed o) (build_prompt_messages o t ms sessions).1
unfolding build_prompt_messages apply_system_prompt_budget
build_prompt_messages-Scrubbed o t ms sessions =
    All-append (Scrubbed o) _ (user_messages o t ms)
      (within_budget-Scrubbed o o.max_message_chars (total_budget o.max_message_chars) _ (
        All-append (IsWhole o) (note_messages o (notes_for o t ms sessions)) _
          (note_messages-IsWhole o (notes_for o t ms sessions)) (plugin_messages-IsWhole o t ms)))
      (All-later (IsWhole o) (Scrubbed o) (user_messages o t ms) (whole-Scrubbed o)
        (user_messages-IsWhole o t ms))

All-middle :
    (o : Options) (before after : List Message) (m : Message)
    → All (Scrubbed o) (before ++ m ∷ after)
    → Scrubbed o m
All-middle o [] after m h = h.0
All-middle o (x ∷ before) after m h = All-middle o before after m h.1

-- Wherever a message stands among those that `buildPromptMessages` answers, its content is the
-- beginning of what the scrubber made of some text, whatever the messages, the services and the mode
-- are.
pub scrubbed-build_prompt_messages :
    (o : Options) (t : Turn) (ms : List Message) (sessions : Sessions) (before after : List Message)
    (m : Message)
    → (build_prompt_messages o t ms sessions).1 ≡ before ++ m ∷ after
    → (text : Text) × (n : ℕ) × (m.content ≡ take n (o.scrub text))
scrubbed-build_prompt_messages o t ms sessions before after m e =
    All-middle o before after m
      (subst (λ xs. All (Scrubbed o) xs) e (build_prompt_messages-Scrubbed o t ms sessions))
