-- ===== src/Prompt/Kinds.antt =====
-- Which kinds of notes the parts of a prompt of src/runtime.ts hold.
use cursor_claw.Base.{
  ◌≡◌, Bool, true, false, ◌||◌, refl, Option, none, some, List, [], ◌∷◌, ◌++◌, arith, any,
}
use cursor_claw.Prompt.Notes.{
  Text, Note, profile_scope, minimal_continuity, when_to_update, ollama_continuity, ollama_access,
  tools_required, ollama_tools, compatible_tools, substrate_or_memory, no_birth, evolution,
  planning, multi_path, agents, identity, soul, user_file, session_memory, recent_topics,
  experiences, interrupted, birth, capabilities, tools_file, roadmap, study_goals,
  freshness_summary, deep_scan, contradictions, decisions, Turn, Freshness, note_of, note_if,
  only_if, trimmed, scope_notes, minimal_notes, tool_notes, main_session_notes, birth_notes,
  planning_notes, warning_notes, full_notes, journal_notes, system_notes,
}

pub any-append {ℓ} :
    {A : Type ℓ} (p : A → Bool) (xs ys : List A) → any p (xs ++ ys) ≡ (any p xs || any p ys)
any-append p [] ys = refl
any-append p (x ∷ xs) ys = ground (arith, any-append p xs ys)

-- Two parts without an entry of a kind.
pub any-append_none {ℓ} :
    {A : Type ℓ} (p : A → Bool) (xs ys : List A)
    → any p xs ≡ false
    → any p ys ≡ false
    → any p (xs ++ ys) ≡ false
any-append_none p xs ys h k = ground (arith, any-append p xs ys, h, k)

pub any-note_of :
    (p : Note → Bool) (f : Text → Note) (o : Option Text)
    → ((t : Text) → p (f t) ≡ false)
    → any p (note_of f o) ≡ false
unfolding note_of
any-note_of p f none h = refl
any-note_of p f (some t) h = ground (arith, h t)

pub any-note_if :
    (p : Note → Bool) (b : Bool) (n : Note) → p n ≡ false → any p (note_if b n) ≡ false
unfolding note_if
any-note_if p true n h = ground (arith, h)
any-note_if p false n h = refl

pub any-only_if {ℓ} :
    {A : Type ℓ} (p : A → Bool) (b : Bool) (xs : List A)
    → any p xs ≡ false
    → any p (only_if b xs) ≡ false
unfolding only_if
any-only_if p true xs h = h
any-only_if p false xs h = refl

-- The notes that only the web chat gets, and those about the birth.
abbrev pub is_special : Note → Bool
is_special (user_file t) = true
is_special (session_memory t) = true
is_special (recent_topics t) = true
is_special (experiences t) = true
is_special (interrupted t) = true
is_special (birth t) = true
is_special no_birth = true
is_special _ = false

module _ (p : Note → Bool) (h : (n : Note) → is_special n ≡ false → p n ≡ false) where
  free-scope_notes : (t : Turn) → any p (scope_notes t) ≡ false
  unfolding scope_notes
  free-scope_notes t = any-note_if p _ profile_scope (h profile_scope refl)

  free-note_of :
      (f : Text → Note) (o : Option Text) (ns : List Note)
      → ((x : Text) → is_special (f x) ≡ false)
      → any p ns ≡ false
      → any p (note_of f o ++ ns) ≡ false
  free-note_of f o ns k e =
      any-append_none p (note_of f o) ns (any-note_of p f o (λ x. h (f x) (k x))) e

  free-note_if :
      (b : Bool) (n : Note) (ns : List Note)
      → is_special n ≡ false
      → any p ns ≡ false
      → any p (note_if b n ++ ns) ≡ false
  free-note_if b n ns k e = any-append_none p (note_if b n) ns (any-note_if p b n (h n k)) e

  free-minimal_notes : (t : Turn) → any p (minimal_notes t) ≡ false
  unfolding minimal_notes
  free-minimal_notes t = ground (
    arith,
    h minimal_continuity refl,
    free-note_of agents (trimmed t.substrate.agents_text) _ (λ x. refl)
        (free-note_of identity (trimmed t.substrate.identity_text) _ (λ x. refl)
          (free-note_of soul (trimmed t.substrate.soul_text) (when_to_update ∷ []) (λ x. refl)
            (ground (arith, h when_to_update refl)))),
  )

  free-tool_notes : (t : Turn) → any p (tool_notes false t) ≡ false
  unfolding tool_notes note_if only_if
  free-tool_notes t = ground (
    arith,
    h ollama_continuity refl,
    h ollama_access refl,
    h tools_required refl,
    h ollama_tools refl,
    h compatible_tools refl,
    h substrate_or_memory refl,
  )

  free-planning_notes : (t : Turn) → any p (planning_notes t) ≡ false
  unfolding planning_notes
  free-planning_notes t =
      any-append_none p (only_if t.include_capabilities _) _
        (any-only_if p t.include_capabilities _
          (any-note_of p capabilities _ (λ x. h (capabilities x) refl)))
        (free-note_of tools_file _ _ (λ x. refl)
          (free-note_of roadmap _ _ (λ x. refl)
            (free-note_of study_goals _ _ (λ x. refl)
              (free-note_if _ evolution _ refl (any-note_if p _ planning (h planning refl))))))

  free-warning_notes : (f : Freshness) (t : Turn) → any p (warning_notes f t) ≡ false
  unfolding warning_notes
  free-warning_notes f t =
      free-note_of freshness_summary f.summary_line _ (λ x. refl)
        (free-note_if _ (contradictions f.found) _ refl (
          free-note_if t.force_multi_path multi_path _ refl
            (any-note_of p deep_scan _ (λ x. h (deep_scan x) refl))))

  pub free-minimal_system :
      (b : Bool) (f : Freshness) (t : Turn) → any p (system_notes true b f t) ≡ false
  unfolding system_notes
  free-minimal_system b f t =
      any-append_none p (scope_notes t) _ (free-scope_notes t) (free-minimal_notes t)

  -- What the notes hold of a kind is among those of the web chat and of the birth.
  pub free-system_notes :
      (m b : Bool) (f : Freshness) (t : Turn)
      → any p (main_session_notes t) ≡ false
      → any p (birth_notes b t) ≡ false
      → any p (system_notes m b f t) ≡ false
  unfolding system_notes full_notes journal_notes
  free-system_notes true b f t main new = free-minimal_system b f t
  free-system_notes false b f t main new =
      any-append_none p (scope_notes t) _ (free-scope_notes t) (
        any-append_none p (full_notes b f t) _
          (free-note_of agents (trimmed t.substrate.agents_text) _ (λ x. refl)
            (any-append_none p (tool_notes false t) _ (free-tool_notes t) (
              free-note_of identity (trimmed t.substrate.identity_text) _ (λ x. refl)
                (free-note_of soul (trimmed t.substrate.soul_text) _ (λ x. refl)
                  (any-append_none p (main_session_notes t) _ main (
                    any-append_none p (birth_notes b t) _ new (
                      any-append_none p (planning_notes t) _ (free-planning_notes t)
                        (free-warning_notes f t))))))))
          (any-note_if p _ (decisions t.recent_decisions) (h (decisions t.recent_decisions) refl)))
