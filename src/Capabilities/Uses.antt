-- ===== src/Capabilities/Uses.antt =====
-- How many uses a scope has left at an instant, and how the steps of a call change that.
use cursor_claw.Base.{
  ℕ, ◌+◌, ◌<◌, ◌≡◌, refl, Bool, true, false, ◌&&◌, List, [], ◌∷◌, ◌++◌, String, arith, ltb,
  if◌then◌else◌, ◌==◌, All, keep, any, string_eq,
}
use cursor_claw.Capabilities.{
  Capability, Grant, Store, entries, is_active, has_uses, is_consumable, use_first, capability_eq,
}

abbrev pub bit : Bool → ℕ
bit true = 1
bit false = 0

abbrev pub counts : String → ℕ → Grant → Bool
counts scope now g = g.scope == scope && ltb now g.expires_at

abbrev pub uses : String → ℕ → List Grant → ℕ
uses scope now [] = 0
uses scope now (g ∷ gs) = (if counts scope now g then g.uses_remaining else 0) + uses scope now gs

-- The uses of a capability in a scope that have not expired.
abbrev pub available : Capability → String → ℕ → Store → ℕ
available c scope now s = uses scope now (entries c s)

abbrev pub Unexpired : ℕ → List Grant → Type 0
Unexpired now = All (λ g. now < g.expires_at)

pub uses-append :
    (sc : String) (now : ℕ) (xs ys : List Grant)
    → uses sc now (xs ++ ys) ≡ uses sc now xs + uses sc now ys
uses-append sc now [] ys = omega arith
uses-append sc now (g ∷ xs) ys = omega (arith, uses-append sc now xs ys)

pub uses-keep_active :
    (sc : String) (now : ℕ) (gs : List Grant)
    → uses sc now (keep (is_active now) gs) ≡ uses sc now gs
uses-keep_active sc now [] = refl
uses-keep_active sc now (g ∷ gs) = ground (arith, uses-keep_active sc now gs)

pub uses-keep-has_uses :
    (sc : String) (now : ℕ) (gs : List Grant) → uses sc now (keep has_uses gs) ≡ uses sc now gs
uses-keep-has_uses sc now [] = refl
uses-keep-has_uses sc now (g ∷ gs) = ground (arith, uses-keep-has_uses sc now gs)

pub keep_active-Unexpired : (now : ℕ) (gs : List Grant) → Unexpired now (keep (is_active now) gs)
keep_active-Unexpired now [] = tt
keep_active-Unexpired now (g ∷ gs) = ground (arith, keep_active-Unexpired now gs)

pub use_first-Unexpired :
    (sc : String) (now : ℕ) (gs : List Grant)
    → Unexpired now gs
    → Unexpired now (keep has_uses (use_first sc gs))
unfolding use_first
use_first-Unexpired sc now [] h = tt
use_first-Unexpired sc now (g ∷ gs) h =
    ground (arith, use_first-Unexpired sc now gs h.1, keep_uses-Unexpired gs h.1)
  where
    keep_uses-Unexpired : (xs : List Grant) → Unexpired now xs → Unexpired now (keep has_uses xs)
    keep_uses-Unexpired [] k = tt
    keep_uses-Unexpired (x ∷ xs) k = ground (arith, keep_uses-Unexpired xs k.1)

-- On unexpired grants the test of `consumeRequired` reads the uses left.
pub any_consumable_iff :
    (sc : String) (now : ℕ) (gs : List Grant)
    → Unexpired now gs
    → any (is_consumable sc) gs ≡ ltb 0 (uses sc now gs)
any_consumable_iff sc now [] h = refl
any_consumable_iff sc now (g ∷ gs) h = ground (arith, any_consumable_iff sc now gs h.1)

pub uses-use_first :
    (sc other : String) (now : ℕ) (gs : List Grant)
    → Unexpired now gs
    → 0 < uses sc now gs
    → uses other now (use_first sc gs) + bit (sc == other) ≡ uses other now gs
unfolding use_first
uses-use_first sc other now [] h p = absurd (omega arith)
uses-use_first sc other now (g ∷ gs) h p = ground (
  arith,
  uses-use_first sc other now gs h.1,
  string_eq.is_same_iff sc other,
  string_eq.is_same_iff g.scope sc,
  string_eq.is_same_iff g.scope other,
)
