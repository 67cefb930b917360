-- ===== src/Approvals/Issuing.antt =====
-- What a resolution adds to the capability store.
use mathlib.Core.Path.{ap₂}
use cursor_claw.Base.{
  ℕ, suc, ◌+◌, ◌≤◌, ◌≡◌, refl, ◌∙◌, ap, Bool, true, false, ◌&&◌, not, Option, none, some, List, [],
  ◌∷◌, String, arith, ltb, max, if◌then◌else◌, ◌==◌, string_eq, Bool-cases, inl, inr,
}
use cursor_claw.Base.Dict.{get, map_option}
use cursor_claw.Capabilities.{Capability, Store, capability_eq, grant}
use cursor_claw.Capabilities.Uses.{available}
use cursor_claw.Capabilities.Granting.{available-grant}
use cursor_claw.Approvals.{
  is_pending, Request, Workflow, Resolution, Decision, approve, deny, is_stale, expire, scope_key,
  expire_stale_requests, issue, ttl_of, uses_of, settle, decide, resolve, resolve_found,
}
use cursor_claw.Approvals.Lifecycle.{
  persist_keeps, expire_stale_requests_keeps, get-expire_stale_requests,
  expire_stale_requests-defaults,
}

-- `n` for each time that the list asks for the capability.
abbrev pub total : Capability → ℕ → List Capability → ℕ
total d n [] = 0
total d n (c ∷ cs) = (if c == d then n else 0) + total d n cs

total-zero : (d : Capability) (cs : List Capability) → total d 0 cs ≡ 0
total-zero d [] = refl
total-zero d (c ∷ cs) = ground (arith, total-zero d cs)

if_and : (a b : Bool) (n : ℕ) → (if a && b then n else 0) ≡ (if a then (if b then n else 0) else 0)
if_and true b n = refl
if_and false b n = refl

available-issue :
    (cs : List Capability) (scope : String) (ttl n : ℕ) (ids : ℕ → String) (now t : ℕ) (s : Store)
    → now ≤ t
    → (d : Capability) (sc : String)
    → available d sc t (issue cs scope ttl n ids now s).0
      ≡ available d sc t s + total d (if scope == sc && ltb t (now + ttl) then max 1 n else 0) cs
unfolding issue
available-issue [] scope ttl n ids now t s h d sc = omega arith
available-issue (c ∷ cs) scope ttl n ids now t s h d sc =
    let (s', g) = grant (ids 0) c scope ttl (some n) now s in
    omega (
      arith,
      available-issue cs scope ttl n (λ i. ids (suc i)) now t s' h d sc,
      available-grant (ids 0) c scope ttl (some n) now t s h d sc
          ∙ ap (λ m. available d sc t s + m)
              (if_and (c == d) (scope == sc && ltb t (now + ttl)) (max 1 n)),
    )

abbrev pub is_approve : Decision → Bool
is_approve approve = true
is_approve deny = false

-- The uses that a resolution should give: none, unless it approves a request that is pending and
-- at most 24 hours old; then those of one grant for each capability that the request asks for.
abbrev pub awarded : Resolution → (now t : ℕ) → Workflow → Capability → String → Option Request → ℕ
awarded res now t w d sc none = 0
awarded res now t w d sc (some r) =
    if is_approve res.decision && (is_pending r.status && not (is_stale now r))
    then total d
        (if scope_key r.tool r.intent r.provenance == sc && ltb t (now + ttl_of res w)
          then max 1 (uses_of res w)
          else 0)
        r.required_capabilities
    else 0

store-settle :
    (res : Resolution) (r : Request) (s : Store) (w : Workflow) → (settle res r s w).0.store ≡ s
unfolding settle
store-settle res r s w = (persist_keeps _).1

available-decide :
    (dec : Decision) (res : Resolution) (r : Request) (ids : ℕ → String) (now t : ℕ) (w : Workflow)
    → now ≤ t
    → (d : Capability) (sc : String)
    → available d sc t (decide dec res r ids now w).0.store
      ≡ available d sc t w.store
        + (if is_approve dec
            then total d
                (if scope_key r.tool r.intent r.provenance == sc && ltb t (now + ttl_of res w)
                  then max 1 (uses_of res w)
                  else 0)
                r.required_capabilities
            else 0)
unfolding decide
available-decide deny res r ids now t w h d sc = rw (store-settle res _ w.store w) (omega arith)
available-decide approve res r ids now t w h d sc = rw (store-settle res _ _ w) (
    available-issue r.required_capabilities (scope_key r.tool r.intent r.provenance) (ttl_of res w)
      (uses_of res w) ids now t w.store h d sc)

-- What `awarded` is of a request that has been through the expiry.
abbrev awarded_kept : Resolution → (now t : ℕ) → Workflow → Capability → String → Option Request → ℕ
awarded_kept res now t w d sc none = 0
awarded_kept res now t w d sc (some r) =
    if is_pending r.status
    then (if is_approve res.decision
        then total d
            (if scope_key r.tool r.intent r.provenance == sc && ltb t (now + ttl_of res w)
              then max 1 (uses_of res w)
              else 0)
            r.required_capabilities
        else 0)
    else 0

available-resolve_found :
    (o : Option Request) (res : Resolution) (ids : ℕ → String) (now t : ℕ) (w : Workflow)
    → now ≤ t
    → (d : Capability) (sc : String)
    → available d sc t (resolve_found o res ids now w).0.store
      ≡ available d sc t w.store + awarded_kept res now t w d sc o
unfolding resolve_found
available-resolve_found none res ids now t w h d sc = omega arith
available-resolve_found (some r) res ids now t w h d sc = elim (Bool-cases (is_pending r.status)) [
  | inl waiting ↦ rw waiting (available-decide res.decision res r ids now t w h d sc)
  | inr closed ↦ rw closed (omega arith)
]

awarded-expire :
    (o : Option Request) (res : Resolution) (now t : ℕ) (w : Workflow) (d : Capability)
    (sc : String)
    → awarded_kept res now t (expire_stale_requests now w) d sc (map_option (expire now) o)
      ≡ awarded res now t w d sc o
awarded-expire none res now t w d sc = refl
awarded-expire (some r) res now t w d sc =
    rw ((expire_stale_requests-defaults now w).0, (expire_stale_requests-defaults now w).1)
      (ground arith)

-- Resolving adds to the store exactly the uses that it should award: an approval of a request that
-- is pending and not stale gives one grant of at least one use for each capability asked for, in
-- the request's scope and for the grant's life; a denial, a stale, a settled or an unknown request
-- gives nothing.
pub available-resolve :
    (res : Resolution) (ids : ℕ → String) (now t : ℕ) (w : Workflow)
    → now ≤ t
    → (d : Capability) (sc : String)
    → available d sc t (resolve res ids now w).0.store
      ≡ available d sc t w.store + awarded res now t w d sc (get res.request_id w.requests)
unfolding resolve
available-resolve res ids now t w h d sc =
    let w' = expire_stale_requests now w in
    available-resolve_found (get res.request_id w'.requests) res ids now t w' h d sc
    ∙ ap₂ ◌+◌ (ap (available d sc t) (expire_stale_requests_keeps now w).1) (
        ap (awarded_kept res now t w' d sc) (get-expire_stale_requests now res.request_id w)
        ∙ awarded-expire (get res.request_id w.requests) res now t w d sc)
