-- ===== src/RateLimit/Bound.antt =====
-- The limiter's promise over any sequence of calls.
use cursor_claw.Base.{
  ℕ, ◌<◌, ◌≤◌, ◌≡◌, ◌≢◌, ◌⊎◌, subst, Bool, false, ◌&&◌, List, [], ◌∷◌, ◌++◌, String, arith, leb,
  if◌then◌else◌, ◌==◌, string_eq, All, length, Bool-cases, inl, inr, eq_of_==, ==_refl,
}
use mathlib.Core.List.{append-nil, append_assoc}
use cursor_claw.Base.Dict.{get, get-set, get-set_self}
use cursor_claw.Window.{window, Slide, start, wait, refuse, accept, Slide-bounded}
use cursor_claw.RateLimit.{Options, Events, key_of, history, limit_of, allow}

pub record Call : Type 0 where
  pub method : String
  pub subject : String
  pub now : ℕ

abbrev pub call_key : Call → String
call_key c = key_of c.method c.subject

pub step : Options → Call → Events → Events × Bool
step o c events = allow o c.method c.subject c.now events

-- The instants at which calls with the key were let through, in order.
pub accepted : Options → String → Events → List Call → List ℕ
accepted o key events [] = []
accepted o key events (c ∷ cs) =
    (if (step o c events).1 && call_key c == key then c.now ∷ [] else [])
    ++ accepted o key (step o c events).0 cs

-- The clock does not go back.
abbrev pub InOrder : ℕ → List Call → Type 0
InOrder last [] = Unit
InOrder last (c ∷ cs) = (last ≤ c.now) × InOrder c.now cs

abbrev pub last_time : ℕ → List Call → ℕ
last_time last [] = last
last_time last (c ∷ cs) = last_time c.now cs

-- The methods that share the key have the same limit.
abbrev pub HasLimit : Options → String → ℕ → Call → Type 0
HasLimit o key limit c = (call_key c ≢ key) ⊎ (limit_of c.method o ≡ limit)

limit_of_own :
    (o : Options) (key : String) (limit : ℕ) (c : Call)
    → HasLimit o key limit c
    → call_key c ≡ key
    → limit_of c.method o ≡ limit
limit_of_own o key limit c (inl other) p = elim (other p) [ ]
limit_of_own o key limit c (inr same) p = same

-- What a call adds to the log of a key.
abbrev entry : Options → String → Call → Events → List ℕ
entry o key c events = if (step o c events).1 && call_key c == key then c.now ∷ [] else []

-- The stored list and the log of a key after a call.
abbrev Next : Options → ℕ → String → Call → Events → List ℕ → Type 0
Next o limit key c events log =
    Slide o.window_ms limit c.now (history key (step o c events).0) (log ++ entry o key c events)

own-Slide :
    (o : Options) (limit : ℕ) (c : Call) (events : Events) (log : List ℕ)
    → limit_of c.method o ≡ limit
    → Slide o.window_ms limit c.now (history (call_key c) events) log
    → Next o limit (call_key c) c events log
unfolding step allow
own-Slide o limit c events log e s =
    let key = call_key c in
    let filtered = window o.window_ms c.now (history key events) in
    elim (Bool-cases (leb (limit_of c.method o) (length filtered))) [
      | inl full ↦ rw (full, get-set_self key filtered events, append-nil log) (refuse s)
      | inr room ↦
          let fits : length filtered < limit = ground arith in
          rw (room, get-set_self key (filtered ++ c.now ∷ []) events, ==_refl key) (accept fits s)
    ]

other-Slide :
    (o : Options) (limit : ℕ) (key : String) (c : Call) (events : Events) (log : List ℕ)
    → (call_key c == key) ≡ false
    → Slide o.window_ms limit c.now (history key events) log
    → Next o limit key c events log
unfolding step allow
other-Slide o limit key c events log e s =
    let filtered = window o.window_ms c.now (history (call_key c) events) in
    elim (Bool-cases (leb (limit_of c.method o) (length filtered))) [
      | inl full ↦ rw (full, get-set (call_key c) key filtered events, e, append-nil log) s
      | inr room ↦
          rw (room, get-set (call_key c) key (filtered ++ c.now ∷ []) events, e, append-nil log) s
    ]

step-Slide :
    (o : Options) (limit : ℕ) (key : String) (c : Call) (events : Events) (log : List ℕ)
    → HasLimit o key limit c
    → Slide o.window_ms limit c.now (history key events) log
    → Next o limit key c events log
step-Slide o limit key c events log same s = elim (Bool-cases (call_key c == key)) [
  | inl own ↦
      let p = eq_of_== (call_key c) key own in
      subst
        (λ k.
          limit_of c.method o ≡ limit
          → Slide o.window_ms limit c.now (history k events) log
          → Next o limit k c events log)
        p (own-Slide o limit c events log) (limit_of_own o key limit c same p) s
  | inr other ↦ other-Slide o limit key c events log other s
]

accepted-Slide :
    (o : Options) (limit last : ℕ) (key : String) (cs : List Call) (events : Events) (log : List ℕ)
    → InOrder last cs
    → All (HasLimit o key limit) cs
    → Slide o.window_ms limit last (history key events) log
    → (xs : List ℕ) × Slide o.window_ms limit
        (last_time last cs)
        xs
        (log ++ accepted o key events cs)
unfolding accepted
accepted-Slide o limit last key [] events log ordered same s =
    (history key events, rw (append-nil log) s)
accepted-Slide o limit last key (c ∷ cs) events log ordered same s =
    let next = step-Slide o limit key c events log same.0 (wait c.now ordered.0 s) in
    let (xs, done) =
      accepted-Slide o limit c.now key cs (step o c events).0 (log ++ entry o key c events)
        ordered.1 same.1 next in
    (
      xs,
      rw (append_assoc log (entry o key c events) (accepted o key (step o c events).0 cs)) at done,
    )

-- However the calls come, as long as the clock does not go back, the limiter lets through at most
-- `limit` calls with one key in any window of `windowMs` that ends at the last call or later. The
-- methods that share the key must have that limit.
pub length-accepted-le :
    (o : Options) (limit : ℕ) (key : String) (cs : List Call) (t : ℕ)
    → InOrder 0 cs
    → All (HasLimit o key limit) cs
    → last_time 0 cs ≤ t
    → length (window o.window_ms t (accepted o key [] cs)) ≤ limit
unfolding get
length-accepted-le o limit key cs t ordered same h =
    let (xs, s) = accepted-Slide o limit 0 key cs [] [] ordered same start in Slide-bounded s t h
