-- ===== src/Approvals/Repeats.antt =====
-- A request that is made again while it is pending.
use cursor_claw.Base.{
  ℕ, ◌+◌, ◌≤◌, ◌≡◌, ◌≢◌, refl, ◌∙◌, ap, true, Option, none, some, String, arith, ◌==◌, string_eq,
  Bool-cases, Option-cases, inl, inr, mem, ◌||◌, or_left_comm, leb, List, [], ◌∷◌,
}
use cursor_claw.Base.Dict.{get, set, get-set_self}
use cursor_claw.Capabilities.{Capability, Store, capability_eq}
use cursor_claw.Approvals.{
  is_pending, Request, Input, Workflow, stale_after_ms, persist, expire_stale_requests,
  fingerprint_of, pending_at, add_request, new_request, request, request_found, insert_capability,
  sort_capabilities, sort_place,
}
use cursor_claw.Approvals.Lifecycle.{
  persist_keeps, expire_stale_requests_keeps, get-expire_stale_requests, requests-add_request,
  expire_stale_requests-defaults,
}

-- What a lookup by fingerprint finds.
abbrev pub found : Input → Workflow → Option Request
found input w = pending_at (get (fingerprint_of input) w.by_fingerprint) w.requests

by_fingerprint-add_request :
    (input : Input) (id : String) (now : ℕ) (w : Workflow)
    → (add_request input id now w).by_fingerprint ≡ set (fingerprint_of input) id w.by_fingerprint
unfolding add_request
by_fingerprint-add_request input id now w = (persist_keeps _).2

found-add_request :
    (input : Input) (id : String) (now : ℕ) (w : Workflow)
    → id ≢ ""
    → found input (add_request input id now w) ≡ some (new_request input id now)
unfolding new_request
found-add_request input id now w n =
    rw
      (
        by_fingerprint-add_request input id now w,
        get-set_self (fingerprint_of input) id w.by_fingerprint,
        requests-add_request input id now w,
        get-set_self id (new_request input id now) w.requests,
      )
      (ground (arith, string_eq.is_same_iff id ""))

pending_at-is_pending :
    (o : Option String) (w : Workflow) (r : Request)
    → pending_at o w.requests ≡ some r
    → is_pending r.status ≡ true
pending_at-is_pending none w r h = cc
pending_at-is_pending (some id) w r h = ground arith

found-request_found :
    (o : Option Request) (input : Input) (id : String) (now : ℕ) (w : Workflow)
    → id ≢ ""
    → found input w ≡ o
    → found input (request_found o input id now w).0 ≡ some (request_found o input id now w).1
unfolding request_found
found-request_found none input id now w n e = found-add_request input id now w n
found-request_found (some r) input id now w n e = e

-- A pending request that is not stale yet is still found after an expiry.
pending_at-expire :
    (o : Option String) (later : ℕ) (w : Workflow) (r : Request)
    → later ≤ r.created_at + stale_after_ms
    → pending_at o w.requests ≡ some r
    → pending_at o (expire_stale_requests later w).requests ≡ some r
pending_at-expire none later w r h e = e
pending_at-expire (some id) later w r h e = elim (Option-cases (get id w.requests)) [
  | inl missing ↦ ground (arith, missing)
  | inr (q, here) ↦ rw (get-expire_stale_requests later id w, here) (ground (arith, here))
]

-- A request that is made again while the first is pending, at most 24 hours after it was created,
-- gets the first request back and creates none, whatever id is offered. The id offered to the first
-- is not the empty text.
pub request_again :
    (input : Input) (id id' : String) (now later : ℕ) (w : Workflow)
    → id ≢ ""
    → later ≤ (request input id now w).1.created_at + stale_after_ms
    → let (w', r) = request input id now w in
      request input id' later w' ≡ (expire_stale_requests later w', r)
unfolding request
request_again input id id' now later w n h =
    let w₀ = expire_stale_requests now w in
    let (w', r) = request_found (found input w₀) input id now w₀ in
    let first = found-request_found (found input w₀) input id now w₀ n refl in
    let kept : found input (expire_stale_requests later w') ≡ some r =
      rw ((expire_stale_requests_keeps later w').2)
        (pending_at-expire (get (fingerprint_of input) w'.by_fingerprint) later w' r h first) in
    rw (kept, request_found)

store-request_found :
    (o : Option Request) (input : Input) (id : String) (now : ℕ) (w : Workflow)
    → (request_found o input id now w).0.store ≡ w.store
unfolding request_found add_request
store-request_found none input id now w = (persist_keeps _).1
store-request_found (some r) input id now w = refl

-- Filing a request leaves the store alone.
pub store-request :
    (input : Input) (id : String) (now : ℕ) (w : Workflow)
    → (request input id now w).0.store ≡ w.store
unfolding request
store-request input id now w =
    store-request_found _ input id now (expire_stale_requests now w)
    ∙ (expire_stale_requests_keeps now w).1

found-store :
    (input : Input) (now : ℕ) (w : Workflow) (s : Store)
    → found input (expire_stale_requests now (record w { store = s }))
      ≡ found input (expire_stale_requests now w)
found-store input now w s =
    let w' = record w { store = s } in
    rw (
      (expire_stale_requests_keeps now w').0,
      (expire_stale_requests_keeps now w').2,
      (expire_stale_requests_keeps now w).0,
      (expire_stale_requests_keeps now w).2,
    )

request-defaults :
    (o : Option Request) (input : Input) (id : String) (now : ℕ) (w : Workflow)
    → (request_found o input id now w).0.default_ttl_ms ≡ w.default_ttl_ms
unfolding request_found add_request persist
request-defaults none input id now w = ground arith
request-defaults (some r) input id now w = refl

-- A request that finds nothing pending files a new one, also in a workflow with another store.
pub request-files :
    (input : Input) (id : String) (now : ℕ) (w : Workflow) (s : Store)
    → found input (expire_stale_requests now w) ≡ none
    → let w' = (request input id now (record w { store = s })).0 in
      (get id w'.requests ≡ some (new_request input id now))
      × (w'.default_ttl_ms ≡ w.default_ttl_ms)
unfolding request
request-files input id now w s fresh =
    let w₀ = expire_stale_requests now (record w { store = s }) in
    let none_found : found input w₀ ≡ none = found-store input now w s ∙ fresh in
    (
      rw (none_found, request_found, requests-add_request input id now w₀)
          (get-set_self id (new_request input id now) w₀.requests),
      request-defaults _ input id now w₀
          ∙ (expire_stale_requests-defaults now (record w { store = s })).0,
    )

mem-insert_capability :
    (c d : Capability) (cs : List Capability)
    → mem c (insert_capability d cs) ≡ (d == c || mem c cs)
unfolding insert_capability
mem-insert_capability c d [] = refl
mem-insert_capability c d (x ∷ xs) = elim (Bool-cases (leb (sort_place d) (sort_place x))) [
  | inl first ↦ rw first
  | inr later ↦ rw later (
      ap (λ b. x == c || b) (mem-insert_capability c d xs)
      ∙ or_left_comm (x == c) (d == c) (mem c xs))
]

pub mem-sort_capabilities :
    (c : Capability) (cs : List Capability) → mem c (sort_capabilities cs) ≡ mem c cs
unfolding sort_capabilities
mem-sort_capabilities c [] = refl
mem-sort_capabilities c (x ∷ xs) =
    mem-insert_capability c x (sort_capabilities xs)
    ∙ ap (λ b. x == c || b) (mem-sort_capabilities c xs)
