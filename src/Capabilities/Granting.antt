-- ===== src/Capabilities/Granting.antt =====
-- What a grant adds.
use cursor_claw.Base.{
  ℕ, ◌+◌, ◌≤◌, ◌≡◌, refl, ◌&&◌, Option, List, [], ◌∷◌, ◌++◌, max, String, arith, ltb, if◌then◌else◌,
  ◌==◌, keep, string_eq,
}
use cursor_claw.Base.Dict.{or_else, get-set}
use cursor_claw.Capabilities.{
  Capability, Grant, Store, entries, is_active, prune_expired, persist, list_active, add_grant,
  grant, capability_eq, capability_beq_iff,
}
use cursor_claw.Capabilities.Uses.{uses, counts, available, uses-append}
use cursor_claw.Capabilities.Spending.{entries-prune_expired}

-- Pruning takes away nothing that counts at that instant or later.
uses-keep_active_later :
    (sc : String) (now t : ℕ) (gs : List Grant)
    → now ≤ t
    → uses sc t (keep (is_active now) gs) ≡ uses sc t gs
uses-keep_active_later sc now t [] h = refl
uses-keep_active_later sc now t (g ∷ gs) h = ground (arith, uses-keep_active_later sc now t gs h)

pub available-prune_expired_later :
    (c : Capability) (sc : String) (now t : ℕ) (s : Store)
    → now ≤ t
    → available c sc t (prune_expired now s) ≡ available c sc t s
available-prune_expired_later c sc now t s h =
    rw (entries-prune_expired now c s) (uses-keep_active_later sc now t (entries c s) h)

pub available-persist_later :
    (c : Capability) (sc : String) (now t : ℕ) (s : Store)
    → now ≤ t
    → available c sc t (persist now s) ≡ available c sc t s
unfolding persist list_active
available-persist_later c sc now t s h =
    ground (arith, available-prune_expired_later c sc now t s h)

pub available-add_grant :
    (c : Capability) (sc : String) (t : ℕ) (g : Grant) (s : Store)
    → available c sc t (add_grant g s)
      ≡ available c sc t s + (if g.capability == c && counts sc t g then g.uses_remaining else 0)
unfolding add_grant
available-add_grant c sc t g s =
    rw (get-set g.capability c (entries g.capability s ++ g ∷ []) s.grants) (
      ground (
        arith,
        capability_beq_iff g.capability c,
        uses-append sc t (entries g.capability s) (g ∷ []),
      ))

-- A grant adds its uses, at least one, to its own capability and scope until it expires, and
-- changes nothing else.
pub available-grant :
    (id : String) (c : Capability) (scope : String) (ttl : ℕ) (n : Option ℕ) (now t : ℕ) (s : Store)
    → now ≤ t
    → (d : Capability) (sc : String)
    → available d sc t (grant id c scope ttl n now s).0
      ≡ available d sc t s
        + (if c == d && (scope == sc && ltb t (now + ttl)) then max 1 (or_else n 1) else 0)
unfolding grant
available-grant id c scope ttl n now t s h d sc =
    rw (available-persist_later d sc now t _ h) (available-add_grant d sc t _ s)
