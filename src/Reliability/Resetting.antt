-- ===== src/Reliability/Resetting.antt =====
-- When `ReasoningResetController` of src/reliability/reasoning-reset.ts asks for a reset.
use cursor_claw.Base.{
  ℕ, ◌+◌, ◌*◌, ◌<◌, ◌≡◌, ap, String, arith, string_eq, List, [], ◌∷◌, Bool-cases, inl, inr, leb,
  length,
}
use cursor_claw.Base.Dict.{or_else, get-set_self}
use cursor_claw.Reliability.{
  Iteration, Resets, no_iteration, get_state, next_iteration, note_iteration,
}

-- One iteration of the session at each instant of the list.
pub iterate : (threshold : ℕ) (session : String) → List ℕ → Resets → Resets
iterate threshold session [] m = m
iterate threshold session (now ∷ later) m =
    iterate threshold session later (note_iteration threshold session now m).0

-- The iterations that a state stands for.
abbrev pub iterations : (threshold : ℕ) → Iteration → ℕ
iterations threshold st = st.reset_count * threshold + st.count

iterations-next_iteration :
    (threshold now : ℕ) (st : Iteration)
    → st.count < threshold
    → (iterations threshold (next_iteration threshold now st).0 ≡ iterations threshold st + 1)
      × ((next_iteration threshold now st).0.count < threshold)
unfolding next_iteration
iterations-next_iteration threshold now st h = elim (Bool-cases (leb threshold (st.count + 1))) [
  | inl e ↦ simp e (ground arith)
  | inr e ↦ simp e (ground arith)
]

get_state-note_iteration :
    (threshold : ℕ) (session : String) (now : ℕ) (m : Resets)
    → get_state session (note_iteration threshold session now m).0
      ≡ (next_iteration threshold now (get_state session m)).0
unfolding get_state note_iteration
get_state-note_iteration threshold session now m =
    ap (λ o. or_else o no_iteration) (get-set_self session _ m)

-- From a state whose count is below the threshold, no iteration of a session is lost: the resets
-- times the threshold plus the count grow by one with each iteration, and the count stays below the
-- threshold.
pub iterations-iterate :
    (threshold : ℕ) (session : String) (times : List ℕ) (m : Resets)
    → (get_state session m).count < threshold
    → (iterations threshold (get_state session (iterate threshold session times m))
        ≡ iterations threshold (get_state session m) + length times)
      × ((get_state session (iterate threshold session times m)).count < threshold)
unfolding iterate
iterations-iterate threshold session [] m h = (omega arith, h)
iterations-iterate threshold session (now ∷ later) m h =
    let next = iterations-next_iteration threshold now (get_state session m) h in
    let same = get_state-note_iteration threshold session now m in
    let rest =
      iterations-iterate threshold session later (note_iteration threshold session now m).0
        (rw same next.1) in
    (ground (arith, rest.0, next.0, ap (iterations threshold) same), rest.1)
