-- ===== src/Reliability/Guarding.antt =====
-- The failures that `FailureLoopGuard` of src/reliability/failure-loop.ts counts.
use cursor_claw.Base.{
  ℕ, suc, ◌≡◌, refl, ◌∙◌, ap, String, arith, string_eq, codes_eq, ◌==◌, Option, none, some,
  if◌then◌else◌, List, [], ◌∷◌, Bool-cases, inl, inr, leb, eq_of_==,
}
use cursor_claw.Base.Dict.{get, get-set, get-set_self, get-delete}
use cursor_claw.Reliability.{
  FailureState, Guard, bump, record_failure, record_success, get_failure_count, requires_step_back,
  normalize_error_signature, count_of, reaches,
}

pub data Event : Type 0 where
  failed : (session : String) (error : List ℕ) → Event
  succeeded : (session : String) → Event

module _ (to_lower : List ℕ → List ℕ) where
  -- The guard after a history, the newest event first.
  pub after : List Event → Guard
  after [] = []
  after (failed session error ∷ h) = record_failure to_lower session error (after h)
  after (succeeded session ∷ h) = record_success session (after h)

  -- The newest failures of the session with one signature, up to a success or another signature.
  pub streak : (signature : List ℕ) (session : String) → List Event → ℕ
  streak signature session [] = 0
  streak signature session (failed t error ∷ h) =
      let rest = streak signature session h in
      if t == session
      then (if normalize_error_signature to_lower error == signature then suc rest else 0)
      else rest
  streak signature session (succeeded t ∷ h) =
      let rest = streak signature session h in if t == session then 0 else rest

  signature-bump : (sig : List ℕ) (o : Option FailureState) → (bump sig o).signature ≡ sig
  unfolding bump
  signature-bump sig none = refl
  signature-bump sig (some st) = elim (Bool-cases (st.signature == sig)) [
    | inl e ↦ simp e (eq_of_== st.signature sig e)
    | inr e ↦ simp e
  ]

  count-bump-some :
      (sig : List ℕ) (st : FailureState)
      → (bump sig (some st)).count ≡ (if st.signature == sig then suc st.count else 1)
  unfolding bump
  count-bump-some sig st = elim (Bool-cases (st.signature == sig)) [
    | inl e ↦ simp e (omega arith)
    | inr e ↦ simp e
  ]

  -- A failure of signature `other`, then one of signature `sig`.
  count-bump-bump :
      (sig other : List ℕ) (o : Option FailureState) (n : ℕ)
      → (bump sig o).count ≡ suc n
      → (bump sig (some (bump other o))).count ≡ suc (if other == sig then suc n else 0)
  count-bump-bump sig other o n h =
      count-bump-some sig (bump other o)
      ∙ rw (signature-bump other o) (elim (Bool-cases (other == sig)) [
        | inl e ↦ rw e (rw (eq_of_== other sig e, h))
        | inr e ↦ rw e
      ])

  count-bump-after :
      (sig : List ℕ) (session : String) (h : List Event)
      → (bump sig (get session (after h))).count ≡ suc (streak sig session h)
  unfolding after streak get record_failure record_success bump
  count-bump-after sig session [] = refl
  count-bump-after sig session (failed t error ∷ h) =
      rw
        (get-set t session (bump (normalize_error_signature to_lower error) (get t (after h)))
          (after h))
        (elim (Bool-cases (t == session)) [
          | inl e ↦ rw e (
              let same = eq_of_== t session e in
              rw same (
                count-bump-bump sig (normalize_error_signature to_lower error)
                  (get session (after h)) (streak sig session h) (count-bump-after sig session h)))
          | inr e ↦ rw e (count-bump-after sig session h)
        ])
  count-bump-after sig session (succeeded t ∷ h) =
      rw (get-delete t session (after h)) (elim (Bool-cases (t == session)) [
        | inl e ↦ rw e
        | inr e ↦ rw e (count-bump-after sig session h)
      ])

  -- A failure of a session brings its count to one more than the length of the streak that it
  -- continues: the session's newest failures of the same signature, with no success of the session
  -- and no failure of another signature among them. What other sessions do changes nothing.
  pub get_failure_count-record_failure :
      (session : String) (error : List ℕ) (h : List Event)
      → get_failure_count session (record_failure to_lower session error (after h))
        ≡ suc (streak (normalize_error_signature to_lower error) session h)
  unfolding get_failure_count record_failure
  get_failure_count-record_failure session error h =
      ap count_of (get-set_self session _ (after h))
      ∙ count-bump-after (normalize_error_signature to_lower error) session h

  -- The guard asks to step back after a failure exactly when the streak it continues, with it, has
  -- reached the threshold.
  pub requires_step_back-record_failure :
      (threshold : ℕ) (session : String) (error : List ℕ) (h : List Event)
      → requires_step_back threshold session (record_failure to_lower session error (after h))
        ≡ leb threshold (suc (streak (normalize_error_signature to_lower error) session h))
  unfolding requires_step_back record_failure
  requires_step_back-record_failure threshold session error h =
      ap (reaches threshold) (get-set_self session _ (after h))
      ∙ ap (leb threshold) (count-bump-after (normalize_error_signature to_lower error) session h)
