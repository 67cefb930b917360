-- ===== src/RateLimit.antt =====
-- `MethodRateLimiter` of src/security.ts. Times are milliseconds.
pub mod Bound
use cursor_claw.Base.{
  ℕ, ◌+◌, ◌≡◌, Bool, true, false, Option, none, some, List, [], ◌∷◌, ◌++◌, String, leb,
  if◌then◌else◌, ◌==◌, string_eq, length,
}
use Prim.Native.String
use cursor_claw.Base.Dict.{or_else, get, set}
use cursor_claw.Window.{window}

-- The constructor's arguments.
pub record Options : Type 0 where
  pub default_limit : ℕ
  pub window_ms : ℕ
  pub method_limits : List (String × ℕ)

abbrev pub Events : Type 0
Events = List (String × List ℕ)

unfoldable pub key_of : String → String → String
key_of method subject = String.◌++◌ method (String.◌++◌ ":" subject)

abbrev pub history : String → Events → List ℕ
history key events = or_else (get key events) []

-- The limits are looked up by their own names, so a method named as a member that every object
-- inherits is left out.
abbrev pub limit_of : String → Options → ℕ
limit_of method o = or_else (get method o.method_limits) o.default_limit

unfoldable pub allow : Options → (method subject : String) (now : ℕ) → Events → Events × Bool
allow o method subject now events =
    let key = key_of method subject in
    let filtered = window o.window_ms now (history key events) in
    if leb (limit_of method o) (length filtered)
    then (set key filtered events, false)
    else (set key (filtered ++ now ∷ []) events, true)
