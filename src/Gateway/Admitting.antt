-- ===== src/Gateway/Admitting.antt =====
-- Which requests are admitted by src/gateway.ts, and what the log says of it.
use cursor_claw.Base.{
  ℕ, ◌≤◌, ◌<◌, ◌≢◌, ◌≡◌, ◌↔◌, ◌⊎◌, inl, inr, refl, Bool, true, false, ◌||◌, some, List, [], ◌∷◌,
  String, arith, leb, if◌then◌else◌, ◌==◌, string_eq, mem, Bool-cases, eq_of_==, ==_refl,
  mem-append,
}
use cursor_claw.Incidents.{
  Commander, Patterns, matches, bit, score_inbound_risk, revoke_tokens, is_token_revoked,
  add_hashes, insert_new, disable_proactive_sends, isolate_tool_hosts,
}
use cursor_claw.Ingress.{
  Role, local, remote, admin, AuthResult, accepted, rejected, add, token_mode,
}
use cursor_claw.Ingress.Admission.{authorize-token_mode}
use cursor_claw.RateLimit.{Events, allow}
use cursor_claw.Base.Dict.{get, map_option}
use cursor_claw.Gateway.{
  is_local, Reason, Decision, Request, Deps, State, Verdict, refused, thrown, admitted,
  is_inherited, in_scope, auth_of, deny, risk_of, check_risk, check_rate, check_scope, check_auth,
  admit, subject_of, check_rate_found,
}

bit-le : (b : Bool) → bit b ≤ 1
bit-le true = omega arith
bit-le false = omega arith

matches-le : (p : Patterns) (text : String) → matches p text ≤ 6
unfolding matches
matches-le p text = omega (
  arith,
  bit-le (p.ignore_instructions text),
  bit-le (p.curl text),
  bit-le (p.wget text),
  bit-le (p.exec text),
  bit-le (p.rm_rf text),
  bit-le (p.token text),
)

risk_of_lem :
    (d : Deps) (r : Request) (role : Role)
    → (90 ≤ risk_of d r role) ↔ ((role ≡ remote) × (5 ≤ matches d.patterns r.text))
unfolding risk_of score_inbound_risk
risk_of_lem d r local = ground (arith, matches-le d.patterns r.text)
risk_of_lem d r remote = ground (arith, matches-le d.patterns r.text)
risk_of_lem d r admin = ground (arith, matches-le d.patterns r.text)

not_blocked_iff :
    (d : Deps) (r : Request) (role : Role)
    → (leb 90 (risk_of d r role) ≡ false) ↔ ((role ≢ remote) ⊎ (matches d.patterns r.text < 5))
not_blocked_iff d r role = ground (arith, risk_of_lem d r role)

-- The conditions under which a request is admitted in a role.
abbrev pub Admits : Deps → Request → (now : ℕ) → State → Role → Type 0
Admits d r now s role =
    ((r.method == "" || r.version == "") ≡ false)
    × (r.version ≡ d.protocol_version)
    × (auth_of d s.commander r ≡ accepted role)
    × (is_inherited r.method ≡ false)
    × (in_scope r.method role ≡ true)
    × ((allow d.rate_options r.method (subject_of r.ip) now s.events).1 ≡ true)
    × ((role ≢ remote) ⊎ (matches d.patterns r.text < 5))

check_rate-admitted :
    (d : Deps) (r : Request) (role role' : Role) (s : State) (e : Events × Bool)
    → ((check_rate_found d r role s e).1 ≡ admitted role')
      ↔ ((role ≡ role') × (e.1 ≡ true) × ((role ≢ remote) ⊎ (matches d.patterns r.text < 5)))
unfolding check_risk deny
check_rate-admitted d r role role' s (events, true) = ground (arith, not_blocked_iff d r role)
check_rate-admitted d r role role' s (events, false) = ground arith

check_auth-admitted :
    (d : Deps) (r : Request) (now : ℕ) (role : Role) (s : State) (a : AuthResult)
    → ((check_auth d r now a s).1 ≡ admitted role) ↔ (
        (a ≡ accepted role)
        × (is_inherited r.method ≡ false)
        × (in_scope r.method role ≡ true)
        × ((allow d.rate_options r.method (subject_of r.ip) now s.events).1 ≡ true)
        × ((role ≢ remote) ⊎ (matches d.patterns r.text < 5)))
unfolding check_auth check_scope check_rate deny
check_auth-admitted d r now role s (rejected reason) = ground arith
check_auth-admitted d r now role s (accepted role') = ground (
  arith,
  check_rate-admitted d r role' role s
      (allow d.rate_options r.method (subject_of r.ip) now s.events),
)

-- A request is admitted in a role exactly when it has a method and the version of the protocol, the
-- authorization gives the role, the method is one of the table and for that role, the rate limit
-- lets it through, and fewer than five of the six risky patterns match or the role is not remote.
pub admit-admitted_iff :
    (d : Deps) (r : Request) (now : ℕ) (s : State) (role : Role)
    → ((admit d r now s).1 ≡ admitted role) ↔ Admits d r now s role
unfolding admit deny
admit-admitted_iff d r now s role = ground (
  arith,
  check_auth-admitted d r now role s (auth_of d s.commander r),
  string_eq.is_same_iff r.version d.protocol_version,
)

-- What the log has after a verdict.
abbrev pub logged : Deps → Request → List Decision → Verdict → List Decision
logged d r logs thrown = logs
logged d r logs (admitted role) = logs
logged d r logs (refused status reason) =
    if r.method == "" || r.version == ""
    then logs
    else add d.max_entries (record { method = r.method; is_allowed = false; reason = reason }) logs

Logs : Deps → Request → State → State × Verdict → Type 0
Logs d r s (s', v) = (s'.logs ≡ logged d r s.logs v) × (s'.commander ≡ s.commander)

check_rate-Logs :
    (d : Deps) (r : Request) (role : Role) (s : State) (e : Events × Bool)
    → (r.method == "" || r.version == "") ≡ false
    → Logs d r s (check_rate_found d r role s e)
unfolding Logs check_risk deny
check_rate-Logs d r role s (events, true) h = elim (Bool-cases (leb 90 (risk_of d r role))) [
  | inl risky ↦ rw (risky, h) (refl, refl)
  | inr fine ↦ rw fine (refl, refl)
]
check_rate-Logs d r role s (events, false) h = rw h (refl, refl)

deny-Logs :
    (d : Deps) (r : Request) (status : ℕ) (reason : Reason) (s : State)
    → (r.method == "" || r.version == "") ≡ false
    → Logs d r s (deny d r status reason s)
unfolding Logs deny
deny-Logs d r status reason s h = rw h (refl, refl)

check_auth-Logs :
    (d : Deps) (r : Request) (now : ℕ) (s : State) (a : AuthResult)
    → (r.method == "" || r.version == "") ≡ false
    → Logs d r s (check_auth d r now a s)
unfolding check_auth check_scope check_rate
check_auth-Logs d r now s (rejected reason) h = deny-Logs d r 401 _ s h
check_auth-Logs d r now s (accepted role) h = elim (Bool-cases (is_inherited r.method)) [
  | inl odd ↦ rw odd (unfold Logs in (refl, refl))
  | inr own ↦ rw own (elim (Bool-cases (in_scope r.method role)) [
    | inl inside ↦ rw inside (
        check_rate-Logs d r role s (allow d.rate_options r.method (subject_of r.ip) now s.events) h)
    | inr outside ↦ rw outside (deny-Logs d r 403 _ s h)
  ])
]

admit-Logs : (d : Deps) (r : Request) (now : ℕ) (s : State) → Logs d r s (admit d r now s)
unfolding admit
admit-Logs d r now s = elim (Bool-cases (r.method == "" || r.version == "")) [
  | inl missing ↦ rw missing (unfold Logs in (rw missing, refl))
  | inr given ↦ rw given (elim (Bool-cases (r.version == d.protocol_version)) [
    | inl same ↦ rw same (check_auth-Logs d r now s (auth_of d s.commander r) given)
    | inr other ↦ rw other (deny-Logs d r 400 _ s given)
  ])
]

-- Each request adds to the log exactly one denial with the reason that it is answered with, and
-- nothing when it is admitted, throws, or has no method or version; what is revoked stays so.
pub admit-logged :
    (d : Deps) (r : Request) (now : ℕ) (s : State)
    → ((admit d r now s).0.logs ≡ logged d r s.logs (admit d r now s).1)
      × ((admit d r now s).0.commander ≡ s.commander)
unfolding Logs
admit-logged d r now s = admit-Logs d r now s

-- A method named like something that every object inherits makes the handler throw, in any role
-- and at any rate, and leaves no entry in the log.
pub admit-inherited :
    (d : Deps) (r : Request) (now : ℕ) (s : State) (role : Role)
    → is_inherited r.method ≡ true
    → (r.method == "" || r.version == "") ≡ false
    → r.version ≡ d.protocol_version
    → auth_of d s.commander r ≡ accepted role
    → admit d r now s ≡ (s, thrown)
unfolding admit check_auth check_scope
admit-inherited d r now s role odd given version authorized =
    rw (given, (string_eq.is_same_iff r.version d.protocol_version).1 version, authorized, odd) refl

-- What an operator does after an incident.
pub data Measure : Type 0 where
  revoke : List String → Measure
  disable : Measure
  isolate : Measure

pub take_measure : (hash : String → String) → Measure → Commander → Commander
unfolding revoke_tokens disable_proactive_sends isolate_tool_hosts
take_measure hash (revoke tokens) c = revoke_tokens hash tokens c
take_measure hash disable c = disable_proactive_sends c
take_measure hash isolate c = isolate_tool_hosts c

pub take_all : (hash : String → String) → List Measure → Commander → Commander
unfolding take_measure
take_all hash [] c = c
take_all hash (m ∷ ms) c = take_all hash ms (take_measure hash m c)

mem-insert_new :
    (h g : String) (hs : List String) → mem h hs ≡ true → mem h (insert_new g hs) ≡ true
mem-insert_new h g hs m = ground (arith, m, mem-append h hs (g ∷ []))

mem-add_hashes :
    (hash : String → String) (ts : List String) (h : String) (hs : List String)
    → mem h hs ≡ true
    → mem h (add_hashes hash ts hs) ≡ true
unfolding add_hashes
mem-add_hashes hash [] h hs m = m
mem-add_hashes hash (t ∷ ts) h hs m =
    mem-add_hashes hash ts h (insert_new (hash t) hs) (mem-insert_new h (hash t) hs m)

mem-insert_new_self : (h : String) (hs : List String) → mem h (insert_new h hs) ≡ true
mem-insert_new_self h hs = ground (arith, mem-append h hs (h ∷ []), ==_refl h)

mem-add_hashes_given :
    (hash : String → String) (ts : List String) (t : String) (hs : List String)
    → mem t ts ≡ true
    → mem (hash t) (add_hashes hash ts hs) ≡ true
unfolding add_hashes
mem-add_hashes_given hash [] t hs m = cc
mem-add_hashes_given hash (x ∷ ts) t hs m = elim (Bool-cases (x == t)) [
  | inl same ↦
      let e = eq_of_== x t same in
      rw e
        (mem-add_hashes hash ts (hash t) (insert_new (hash t) hs) (mem-insert_new_self (hash t) hs))
  | inr other ↦ mem-add_hashes_given hash ts t (insert_new (hash x) hs) (rw other at m)
]

revoked-take_all :
    (hash : String → String) (ms : List Measure) (t : String) (c : Commander)
    → is_token_revoked hash c t ≡ true
    → is_token_revoked hash (take_all hash ms c) t ≡ true
unfolding take_all take_measure revoke_tokens is_token_revoked disable_proactive_sends
    isolate_tool_hosts
revoked-take_all hash [] t c h = h
revoked-take_all hash (revoke ts ∷ ms) t c h =
    revoked-take_all hash ms t (revoke_tokens hash ts c)
      (mem-add_hashes hash ts (hash t) c.revoked_token_hashes h)
revoked-take_all hash (disable ∷ ms) t c h =
    revoked-take_all hash ms t (disable_proactive_sends c) h
revoked-take_all hash (isolate ∷ ms) t c h = revoked-take_all hash ms t (isolate_tool_hosts c) h

revoked_at_once :
    (hash : String → String) (ts : List String) (t : String) (c : Commander)
    → mem t ts ≡ true
    → is_token_revoked hash (revoke_tokens hash ts c) t ≡ true
unfolding revoke_tokens is_token_revoked
revoked_at_once hash ts t c m = mem-add_hashes_given hash ts t c.revoked_token_hashes m

-- In the token mode a token that an incident has revoked admits no request any more, in no role,
-- whatever measures follow; the token is not the empty text.
pub admit-revoked :
    (d : Deps) (r : Request) (now : ℕ) (s : State) (c : Commander) (ts : List String)
    (ms : List Measure) (t : String) (role : Role)
    → d.auth_options.mode ≡ token_mode
    → mem t ts ≡ true
    → (t == "") ≡ false
    → map_option d.strip_bearer (get "authorization" r.headers) ≡ some t
    → s.commander ≡ take_all d.hash ms (revoke_tokens d.hash ts c)
    → (admit d r now s).1 ≢ admitted role
unfolding auth_of
admit-revoked d r now s c ts ms t role mode listed full sent e h =
    let a = ((admit-admitted_iff d r now s role).0 h).2 in
    let k =
      (authorize-token_mode d.strip_bearer d.to_lower (is_token_revoked d.hash s.commander)
        d.auth_options
        (record { is_local = is_local d r.ip; remote_ip = r.ip; headers = r.headers }) role mode
        a).1 in
    let q =
      revoked-take_all d.hash ms t (revoke_tokens d.hash ts c)
        (revoked_at_once d.hash ts t c listed) in
    let k' = rw sent at k in ground (arith, k', q, e, full)
