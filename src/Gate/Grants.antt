-- ===== src/Gate/Grants.antt =====
-- `CapabilityApprovalGate` against the grants: what a call needs, what it costs, and how an operator
-- lets it through.
use cursor_claw.Base.{
  All, to_All, ℕ, ◌+◌, ◌<◌, ◌≤◌, ◌≡◌, ◌↔◌, refl, sym, ◌∙◌, Bool, true, false, ◌&&◌, not, none, some,
  List, [], ◌∷◌, String, arith, ltb, ◌==◌, string_eq, mem, Bool-cases, inl, inr, ==_refl, lt→ltb,
}
use cursor_claw.Base.Dict.{get, or_else}
use cursor_claw.Capabilities.{Capability, capability_eq, Store, consume_required}
use cursor_claw.Capabilities.Uses.{bit, available}
use cursor_claw.Capabilities.Spending.{consume_required-eq-true_iff, available-consume_required}
use cursor_claw.Approvals.{
  Input, Workflow, Resolution, approve as decision_approve, new_request, resolve, required_for,
  stale_after_ms, expire_stale_requests,
}
use cursor_claw.Approvals.Issuing.{total, available-resolve, awarded}
use cursor_claw.Approvals.Repeats.{found, store-request, request-files, mem-sort_capabilities}
use cursor_claw.Gate.{Gate, needed, input_scope, is_exempt, after_consume, approve}

after_consume_lem :
    (input : Input) (id : String) (now : ℕ) (g : Gate) (s : Store) (b : Bool)
    → let (g', answer) = after_consume input id now g (s, b) in
      (answer ≡ b) × (g'.workflow.store ≡ s)
unfolding after_consume
after_consume_lem input id now g s true = (refl, refl)
after_consume_lem input id now g s false = (refl, store-request input id now _)

-- A call that is not exempt passes the gate exactly when each capability that it needs has an
-- unexpired grant with a use left, in the scope of the call.
pub approve-eq-true_iff :
    (input : Input) (id : String) (now : ℕ) (g : Gate)
    → is_exempt g.options input ≡ false
    → ((approve input id now g).1 ≡ true)
      ↔ All (λ c. 0 < available c (input_scope input) now g.workflow.store) (needed input)
unfolding approve
approve-eq-true_iff input id now g h =
    let (s, b) = consume_required (needed input) (input_scope input) now g.workflow.store in
    let (to, from) =
      consume_required-eq-true_iff (needed input) (input_scope input) now g.workflow.store in
    let same = (after_consume_lem input id now g s b).0 in
    rw h (λ e. to (sym same ∙ e), λ e. same ∙ from e)

-- Passing the gate costs one use of each capability that the call needs, in its scope, unless the
-- call is exempt; a refusal and an exempt call cost nothing.
pub available-approve :
    (input : Input) (id : String) (now : ℕ) (g : Gate) (c : Capability) (sc : String)
    → let (g', answer) = approve input id now g in
      available c sc now g'.workflow.store
        + bit (
            not (is_exempt g.options input)
            && (answer && (mem c (needed input) && input_scope input == sc)))
      ≡ available c sc now g.workflow.store
unfolding approve
available-approve input id now g c sc = elim (Bool-cases (is_exempt g.options input)) [
  | inl exempt ↦ rw exempt (omega arith)
  | inr bound ↦
      let (s, b) = consume_required (needed input) (input_scope input) now g.workflow.store in
      let (same, stored) = after_consume_lem input id now g s b in
      rw (bound, same, stored)
        (available-consume_required (needed input) (input_scope input) now g.workflow.store c sc)
]

total-pos :
    (c : Capability) (n : ℕ) (cs : List Capability) → mem c cs ≡ true → 0 < n → 0 < total c n cs
total-pos c n [] m h = cc
total-pos c n (x ∷ xs) m h = elim (Bool-cases (x == c)) [
  | inl here ↦ rw here (omega arith)
  | inr later ↦ rw later (omega (arith, total-pos c n xs (rw later at m) h))
]

after_consume_refused :
    (input : Input) (id : String) (now : ℕ) (g : Gate) (s : Store) (b : Bool)
    → b ≡ false
    → found input (expire_stale_requests now g.workflow) ≡ none
    → let g' = (after_consume input id now g (s, b)).0 in
      (get id g'.workflow.requests ≡ some (new_request input id now))
      × (g'.workflow.default_ttl_ms ≡ g.workflow.default_ttl_ms)
      × (g'.options ≡ g.options)
unfolding after_consume
after_consume_refused input id now g s true e fresh = cc
after_consume_refused input id now g s false e fresh =
    let (filed, same) = request-files input id now g.workflow s fresh in (filed, same, refl)

approve_refused :
    (input : Input) (id : String) (now : ℕ) (g : Gate)
    → is_exempt g.options input ≡ false
    → (approve input id now g).1 ≡ false
    → found input (expire_stale_requests now g.workflow) ≡ none
    → let g' = (approve input id now g).0 in
      (get id g'.workflow.requests ≡ some (new_request input id now))
      × (g'.workflow.default_ttl_ms ≡ g.workflow.default_ttl_ms)
      × (g'.options ≡ g.options)
unfolding approve
approve_refused input id now g bound refused fresh =
    let (s, b) = consume_required (needed input) (input_scope input) now g.workflow.store in
    rw bound (
      after_consume_refused input id now g s b
        (sym (after_consume_lem input id now g s b).0 ∙ (rw bound at refused)) fresh)

awarded-pos :
    (input : Input) (id : String) (now mid t : ℕ) (res : Resolution) (w : Workflow) (c : Capability)
    → res.decision ≡ decision_approve
    → mid ≤ now + stale_after_ms
    → t < mid + or_else res.grant_ttl_ms w.default_ttl_ms
    → mem c (needed input) ≡ true
    → 0 < awarded res mid t w c (input_scope input) (some (new_request input id now))
unfolding new_request
awarded-pos input id now mid t res w c approves soon alive m =
    let here = mem-sort_capabilities c (needed input) ∙ m in
    let fresh : ltb (now + stale_after_ms) mid ≡ false = ground arith in
    rw (approves, fresh, ==_refl (input_scope input), lt→ltb t _ alive)
      (total-pos c _ (required_for input) here (omega arith))

-- After a refusal has filed a new request, an operator who approves it within 24 hours lets the
-- same call through while the grants last.
pub approve_after_resolve :
    (input : Input) (id id' : String) (ids : ℕ → String) (now mid t : ℕ) (g : Gate)
    (res : Resolution)
    → is_exempt g.options input ≡ false
    → (approve input id now g).1 ≡ false
    → found input (expire_stale_requests now g.workflow) ≡ none
    → res.request_id ≡ id
    → res.decision ≡ decision_approve
    → mid ≤ now + stale_after_ms
    → mid ≤ t
    → t < mid + or_else res.grant_ttl_ms g.workflow.default_ttl_ms
    → let g' = (approve input id now g).0 in
      let w = (resolve res ids mid g'.workflow).0 in
      (approve input id' t (record g' { workflow = w })).1 ≡ true
approve_after_resolve input id id' ids now mid t g res bound refused fresh same approves soon order
      alive =
    let g' = (approve input id now g).0 in
    let (filed, ttl, options) = approve_refused input id now g bound refused fresh in
    let w = (resolve res ids mid g'.workflow).0 in
    let found_there : get res.request_id g'.workflow.requests ≡ some (new_request input id now) =
      rw same filed in
    let bound' : is_exempt g'.options input ≡ false = rw options bound in
    (approve-eq-true_iff input id' t (record g' { workflow = w }) bound').1 (
      to_All _ (needed input) λ c m.
        let gained = available-resolve res ids mid t g'.workflow order c (input_scope input) in
        let awards =
          awarded-pos input id now mid t res g'.workflow c approves soon (rw ttl alive) m in
        rw gained (rw found_there (omega (arith, awards))))
