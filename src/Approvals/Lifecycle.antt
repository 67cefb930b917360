-- ===== src/Approvals/Lifecycle.antt =====
-- The states of a request over any history of calls.
use cursor_claw.Base.{
  ℕ, ◌≡◌, ◌≢◌, refl, ◌∙◌, false, Option, none, some, List, [], ◌∷◌, String, arith, string_eq, All,
  Bool-cases, inl, inr,
}
use cursor_claw.Base.Dict.{get, set, get-set_ne, map_values, map_option, get-map_values}
use cursor_claw.Capabilities.{Store}
use cursor_claw.Approvals.{
  Status, is_pending, Request, Input, Workflow, Resolution, Decision, approve, deny, expire,
  persist, expire_stale_requests, add_request, new_request, request, list_requests, request_found,
  resolve_found, settle, decide, resolve,
}

pub persist_keeps :
    (w : Workflow)
    → ((persist w).requests ≡ w.requests)
      × ((persist w).store ≡ w.store)
      × ((persist w).by_fingerprint ≡ w.by_fingerprint)
unfolding persist
persist_keeps w = ground arith

pub expire_stale_requests_keeps :
    (now : ℕ) (w : Workflow)
    → ((expire_stale_requests now w).requests ≡ map_values (expire now) w.requests)
      × ((expire_stale_requests now w).store ≡ w.store)
      × ((expire_stale_requests now w).by_fingerprint ≡ w.by_fingerprint)
unfolding expire_stale_requests
expire_stale_requests_keeps now w = ground arith

pub expire_stale_requests-defaults :
    (now : ℕ) (w : Workflow)
    → ((expire_stale_requests now w).default_ttl_ms ≡ w.default_ttl_ms)
      × ((expire_stale_requests now w).default_uses ≡ w.default_uses)
unfolding expire_stale_requests persist
expire_stale_requests-defaults now w = ground arith

pub get-expire_stale_requests :
    (now : ℕ) (k : String) (w : Workflow)
    → get k (expire_stale_requests now w).requests ≡ map_option (expire now) (get k w.requests)
get-expire_stale_requests now k w =
    rw ((expire_stale_requests_keeps now w).0) (get-map_values (expire now) k w.requests)

pub data Call : Type 0 where
  requests : Input → (id : String) → Call
  lists : Option Status → Call
  resolves : Resolution → (ids : ℕ → String) → Call

pub step : Workflow → ℕ × Call → Workflow
step w (now, requests input id) = (request input id now w).0
step w (now, lists status) = (list_requests status now w).0
step w (now, resolves res ids) = (resolve res ids now w).0

pub run : Workflow → List (ℕ × Call) → Workflow
run w [] = w
run w (c ∷ cs) = run (step w c) cs

-- No call creates a request under the id `k` again.
abbrev pub Spares : String → ℕ × Call → Type 0
Spares k (now, requests input id) = id ≢ k
Spares k (now, lists status) = Unit
Spares k (now, resolves res ids) = Unit

pub requests-add_request :
    (input : Input) (id : String) (now : ℕ) (w : Workflow)
    → (add_request input id now w).requests ≡ set id (new_request input id now) w.requests
unfolding add_request
requests-add_request input id now w = (persist_keeps _).0

pub requests-settle :
    (res : Resolution) (r : Request) (s : Store) (w : Workflow)
    → (settle res r s w).0.requests ≡ set res.request_id r w.requests
unfolding settle
requests-settle res r s w = (persist_keeps _).0

-- A decision writes one request.
requests-decide :
    (d : Decision) (res : Resolution) (q : Request) (ids : ℕ → String) (now : ℕ) (w : Workflow)
    → (q' : Request) × ((decide d res q ids now w).0.requests ≡ set res.request_id q' w.requests)
unfolding decide
requests-decide deny res q ids now w = (_, requests-settle res _ _ w)
requests-decide approve res q ids now w = (_, requests-settle res _ _ w)

module _ (k : String) (r : Request) (settled : is_pending r.status ≡ false) where
  expire_keeps :
      (now : ℕ) (w : Workflow)
      → get k w.requests ≡ some r
      → get k (expire_stale_requests now w).requests ≡ some r
  expire_keeps now w h = rw (get-expire_stale_requests now k w, h) (ground arith)

  request_found_keeps :
      (o : Option Request) (input : Input) (id : String) (now : ℕ) (w : Workflow)
      → id ≢ k
      → get k w.requests ≡ some r
      → get k (request_found o input id now w).0.requests ≡ some r
  unfolding request_found
  request_found_keeps (some q) input id now w n h = h
  request_found_keeps none input id now w n h =
      rw (requests-add_request input id now w) (get-set_ne id k _ w.requests n ∙ h)

  decide_keeps :
      (d : Decision) (res : Resolution) (q : Request) (ids : ℕ → String) (now : ℕ) (w : Workflow)
      → res.request_id ≢ k
      → get k w.requests ≡ some r
      → get k (decide d res q ids now w).0.requests ≡ some r
  decide_keeps d res q ids now w n h =
      let (q', e) = requests-decide d res q ids now w in
      rw e (get-set_ne res.request_id k q' w.requests n ∙ h)

  resolve_found_keeps :
      (o : Option Request) (res : Resolution) (ids : ℕ → String) (now : ℕ) (w : Workflow)
      → get res.request_id w.requests ≡ o
      → get k w.requests ≡ some r
      → get k (resolve_found o res ids now w).0.requests ≡ some r
  unfolding resolve_found
  resolve_found_keeps none res ids now w e h = h
  resolve_found_keeps (some q) res ids now w e h = elim (Bool-cases (is_pending q.status)) [
    | inl waiting ↦ rw waiting (decide_keeps res.decision res q ids now w (λ same. cc) h)
    | inr closed ↦ rw closed h
  ]

  step_keeps :
      (w : Workflow) (c : ℕ × Call)
      → Spares k c
      → get k w.requests ≡ some r
      → get k (step w c).requests ≡ some r
  unfolding step list_requests request resolve
  step_keeps w (now, requests input id) n h =
      request_found_keeps _ input id now (expire_stale_requests now w) n (expire_keeps now w h)
  step_keeps w (now, lists status) n h = expire_keeps now w h
  step_keeps w (now, resolves res ids) n h =
      resolve_found_keeps _ res ids now (expire_stale_requests now w) refl (expire_keeps now w h)

  -- Once a request is approved, denied or expired, no history of calls changes it, as long as no
  -- new request is given its id.
  pub run_keeps_settled :
      (w : Workflow) (cs : List (ℕ × Call))
      → All (Spares k) cs
      → get k w.requests ≡ some r
      → get k (run w cs).requests ≡ some r
  unfolding run
  run_keeps_settled w [] fresh h = h
  run_keeps_settled w (c ∷ cs) fresh h =
      run_keeps_settled (step w c) cs fresh.1 (step_keeps w c fresh.0 h)
