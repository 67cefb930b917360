-- ===== src/Ingress/Admission.antt =====
-- Who is let in by src/security.ts, and how long its log of decisions grows.
use cursor_claw.Base.{
  ℕ, ◌≤◌, ◌<◌, ◌≡◌, ◌⊎◌, ◌↔◌, inl, inr, Bool, true, false, none, List, [], ◌∷◌, String, arith, leb,
  string_eq, mem, length, drop, length-append, length-drop, Bool-cases,
}
use cursor_claw.Ingress.{
  add, dm, allow_dm, IngressConfig, evaluate_ingress_policy, token_mode, AuthOptions, AuthContext,
  Role, accepted, authorize, same_secret, is_revoked, token_of,
}

-- The entries after a history of calls of `add`, the newest first.
pub logged {ℓ} : {A : Type ℓ} (max_entries : ℕ) → List A → List A
logged max_entries [] = []
logged max_entries (x ∷ older) = add max_entries x (logged max_entries older)

-- However many decisions are logged, the log holds at most `maxEntries` of them, which is above 0.
pub length-logged-le {ℓ} :
    {A : Type ℓ} (max_entries : ℕ) (xs : List A)
    → 0 < max_entries
    → length (logged max_entries xs) ≤ max_entries
unfolding logged add
length-logged-le max_entries [] h = omega (arith, h)
length-logged-le max_entries (x ∷ older) h =
    let kept = logged max_entries older in
    elim (Bool-cases (leb max_entries (length kept))) [
      | inl full ↦
          rw (full, length-append (drop 1 kept) (x ∷ []), length-drop 1 kept)
            (omega (arith, h, length-logged-le max_entries older h))
      | inr room ↦ rw (room, length-append kept (x ∷ [])) (ground (arith, room))
    ]

-- A direct message is let in exactly when the policy allows all or the list has its sender.
pub evaluate_ingress_policy-dm_iff :
    (sender_id : String) (is_mentioned : Bool) (c : IngressConfig)
    → (evaluate_ingress_policy dm sender_id is_mentioned c ≡ none)
      ↔ ((c.dm_policy ≡ allow_dm) ⊎ (mem sender_id c.dm_allowlist ≡ true))
unfolding evaluate_ingress_policy
evaluate_ingress_policy-dm_iff sender_id is_mentioned c = ground arith

-- In the token mode whoever is let in has sent the configured token, and it is not revoked unless
-- it is the empty text.
pub authorize-token_mode :
    (strip_bearer to_lower : String → String) (revoked : String → Bool) (o : AuthOptions)
    (c : AuthContext) (role : Role)
    → o.mode ≡ token_mode
    → authorize strip_bearer to_lower revoked o c ≡ accepted role
    → (same_secret (token_of strip_bearer c) o.token ≡ true)
      × (is_revoked revoked (token_of strip_bearer c) ≡ false)
unfolding authorize
authorize-token_mode strip_bearer to_lower revoked o c role m h = ground (arith, m, h)
