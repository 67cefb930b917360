-- ===== src/ExecTool/OneUse.antt =====
-- `createExecTool` (src/tools.ts) with `CapabilityApprovalGate`, over the grants of
-- src/security/capabilities.ts: what a command outside the allowlist costs.
use cursor_claw.Base.{
  ℕ, suc, ◌<◌, ◌≡◌, ◌↔◌, refl, ◌∙◌, Bool, true, false, ◌&&◌, Option, none, some, List, [], ◌∷◌,
  String, ◌==◌, ==_refl, string_eq, mem, leb, arith, Bool-cases, inl, inr, All, to_All, of_All,
}
use cursor_claw.Capabilities.{Capability, capability_eq, Intent, read_only, Store, consume_required}
use cursor_claw.Capabilities.Uses.{available}
use cursor_claw.Approvals.{Input}
use cursor_claw.Gate.{
  Gate, Denial, intent_eq, is_exempt, needed, input_scope, approve, after_consume,
}
use cursor_claw.Gate.Grants.{approve-eq-true_iff, available-approve}
use cursor_claw.ExecTool.{
  ApprovalGate, Platform, classify_command_intent, is_destructive_command, Call, Options, Outcome,
  runs, input, bin_plan, intent_plan, non_empty, choose_cwd, args_under_profile, run_command, ask,
  check_intent, check_bin, check_destructive, execute, intent_unapproved, bin_denied, Guarded,
}

abbrev denial_request_id : Option Denial → Option String
denial_request_id none = none
denial_request_id (some d) = d.request_id

-- `CapabilityApprovalGate` at one instant, with the number of the questions put to it, which gives
-- the identifier of a request.
abbrev pub capability_gate : (ids : ℕ → String) (now : ℕ) → ApprovalGate (Gate × ℕ)
capability_gate ids now = record {
  approve =
      λ question (g, n). let (g', answer) = approve question (ids n) now g in ((g', suc n), answer);
  request_id = λ (g, n). denial_request_id g.last_denial;
  supports_destructive_approval = true;
}

abbrev pub is_run : Outcome → Bool
is_run (runs bin bin_args cwd) = true
is_run _ = false

and_true : (b : Bool) → (b && true) ≡ b
and_true b = ground arith

options-after_consume :
    (question : Input) (id : String) (now : ℕ) (g : Gate) (s : Store) (b : Bool)
    → (after_consume question id now g (s, b)).0.options ≡ g.options
unfolding after_consume
options-after_consume question id now g s true = refl
options-after_consume question id now g s false = refl

options-approve :
    (question : Input) (id : String) (now : ℕ) (g : Gate)
    → (approve question id now g).0.options ≡ g.options
unfolding approve
options-approve question id now g = elim (Bool-cases (is_exempt g.options question)) [
  | inl e ↦ rw e
  | inr e ↦
      let (s, b) = consume_required (needed question) (input_scope question) now g.workflow.store in
      rw e (options-after_consume question id now g s b)
]

-- An approval takes one use of each capability that the question needs.
available-approved :
    (question : Input) (id : String) (now : ℕ) (g : Gate) (c : Capability)
    → is_exempt g.options question ≡ false
    → (approve question id now g).1 ≡ true
    → mem c (needed question) ≡ true
    → suc (available c (input_scope question) now (approve question id now g).0.workflow.store)
      ≡ available c (input_scope question) now g.workflow.store
available-approved question id now g c bound answer m =
    let h = available-approve question id now g c (input_scope question) in
    let h' = rw (bound, answer, m, ==_refl (input_scope question)) at h in omega (arith, h')

-- Two questions in a row that need the same are both approved exactly when each capability has two
-- uses left.
approve_twice :
    (first second : Input) (id id' : String) (now : ℕ) (g : Gate)
    → needed second ≡ needed first
    → input_scope second ≡ input_scope first
    → is_exempt g.options first ≡ false
    → is_exempt g.options second ≡ false
    → let (g', answer) = approve first id now g in
      ((answer && (approve second id' now g').1) ≡ true)
      ↔ All (λ c. 1 < available c (input_scope first) now g.workflow.store) (needed first)
approve_twice first second id id' now g same scope exempt exempt' =
    let g' = (approve first id now g).0 in
    let (to, from) = approve-eq-true_iff first id now g exempt in
    let (to', from') =
      approve-eq-true_iff second id' now g' (rw (options-approve first id now g) exempt') in
    let sc = input_scope first in
    let spent =
      λ (answer : (approve first id now g).1 ≡ true) (c : Capability)
          (m : mem c (needed first) ≡ true).
        available-approved first id now g c exempt answer m in
    (
      λ both.
          let answer : (approve first id now g).1 ≡ true = ground (arith, both) in
          let rest = rw (same, scope) at to' (ground (arith, both)) in
          to_All _ (needed first) (λ c m.
            let left : 0 < available c sc now g'.workflow.store =
              of_All _ (needed first) rest c m in
            omega (arith, left, spent answer c m)),
      λ two.
          let each =
            λ (c : Capability) (m : mem c (needed first) ≡ true). of_All _ (needed first) two c m in
          let answer = from (to_All _ (needed first) (λ c m. omega (arith, each c m))) in
          let again = from' (
            rw (same, scope)
              (to_All _ (needed first) (λ c m. omega (arith, each c m, spent answer c m)))) in
          rw (answer, again),
    )

module _ (allowed_bins : List String) (concurrency_cap : ℕ) (ids : ℕ → String) (now : ℕ)
    (p : Platform) (c : Call) where
  abbrev pub with_grants : Options (Gate × ℕ)
  with_grants = record {
    allowed_bins = allowed_bins;
    gate = capability_gate ids now;
    concurrency_cap = concurrency_cap;
  }

  abbrev pub intent_of : Intent
  intent_of = classify_command_intent p c.command

  is_run-ask :
      (question : Input) (refusal : Option String → Outcome)
      (next : Gate × ℕ → List (Input × Bool) → Guarded (Gate × ℕ)) (s : Gate × ℕ)
      (asked : List (Input × Bool)) (goes : Bool)
      → ((r : Option String) → is_run (refusal r) ≡ false)
      → (is_run
            (next
              ((approve question (ids s.1) now s.0).0, suc s.1)
              ((question, true) ∷ asked)).outcome
          ≡ goes)
      → is_run (ask (capability_gate ids now) question refusal next s asked).outcome
        ≡ ((approve question (ids s.1) now s.0).1 && goes)
  unfolding ask
  is_run-ask question refusal next s asked goes fails h =
      elim (Bool-cases (approve question (ids s.1) now s.0).1) [
        | inl e ↦ rw e h
        | inr e ↦
            rw e (fails (denial_request_id (approve question (ids s.1) now s.0).0.last_denial))
      ]

  is_run-check_bin :
      (bin : String) (bin_args : List String) (g : Gate) (n : ℕ)
      → mem bin allowed_bins ≡ false
      → (intent_of == read_only) ≡ false
      → args_under_profile p
          (non_empty c.profile_root)
          (choose_cwd p (non_empty c.profile_root) (non_empty c.cwd))
          bin_args
        ≡ true
      → let (g', answer) = approve (input c intent_of (bin_plan bin)) (ids n) now g in
        is_run (check_bin with_grants p c (bin ∷ bin_args) (g, n) []).outcome
        ≡ (answer && (approve (input c intent_of (intent_plan intent_of)) (ids (suc n)) now g').1)
  unfolding check_bin check_intent run_command
  is_run-check_bin bin bin_args g n absent effect inside =
      let g' = (approve (input c intent_of (bin_plan bin)) (ids n) now g).0 in
      let q = input c intent_of (bin_plan bin) in
      let q' = input c intent_of (intent_plan intent_of) in
      rw (absent, effect)
        (is_run-ask q bin_denied
          (ask (capability_gate ids now) q' intent_unapproved (run_command p c bin bin_args)) (g, n)
          [] (approve q' (ids (suc n)) now g').1 (λ r. refl)
          (is_run-ask q' intent_unapproved (run_command p c bin bin_args) (g', suc n)
              ((q, true) ∷ []) true (λ r. refl) (rw inside)
            ∙ and_true (approve q' (ids (suc n)) now g').1))

  -- A command with an effect whose program is not in the allowlist asks the gate twice. So where no
  -- policy exempts it, it reaches the sandbox exactly when each capability that it requires has two uses
  -- left in its scope: the one use that an approved request grants by default never suffices. The
  -- command is not destructive, its arguments lie under the profile root, and fewer executions than the
  -- cap are under way.
  pub is_run-execute_iff :
      (bin : String) (bin_args : List String) (concurrent_execs : ℕ) (g : Gate)
      → concurrent_execs < concurrency_cap
      → is_destructive_command p c.command ≡ false
      → p.words c.command ≡ bin ∷ bin_args
      → mem bin allowed_bins ≡ false
      → (intent_of == read_only) ≡ false
      → args_under_profile p
          (non_empty c.profile_root)
          (choose_cwd p (non_empty c.profile_root) (non_empty c.cwd))
          bin_args
        ≡ true
      → is_exempt g.options (input c intent_of (bin_plan bin)) ≡ false
      → (is_run (execute with_grants p concurrent_execs c (g, 0)).outcome ≡ true)
        ↔ All
            (λ cap.
              1
              < available cap (input_scope (input c intent_of (bin_plan bin))) now g.workflow.store)
            (needed (input c intent_of (bin_plan bin)))
  unfolding execute check_destructive is_exempt
  is_run-execute_iff bin bin_args n g free tame words absent effect inside bound =
      let q = input c intent_of (bin_plan bin) in
      let q' = input c intent_of (intent_plan intent_of) in
      let room : leb concurrency_cap n ≡ false = ground arith in
      rw (room, tame, words, is_run-check_bin bin bin_args g 0 absent effect inside)
        (approve_twice q q' (ids 0) (ids 1) now g refl refl bound bound)
