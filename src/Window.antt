-- ===== src/Window.antt =====
-- A sliding window of time stamps, as `MethodRateLimiter` of src/security.ts and `AutonomyBudget` of
-- src/scheduler.ts keep one for each key. `Slide` is what both do with the list of one key.
use cursor_claw.Base.{
  ℕ, ◌+◌, ◌<◌, ◌≤◌, ◌≡◌, refl, sym, ◌∙◌, ap, Bool, List, [], ◌∷◌, ◌++◌, arith, leb, length, keep,
  length-append, keep-append, length-keep,
}

-- `ts >= now - width`, written without a subtraction.
abbrev pub is_recent : (width now ts : ℕ) → Bool
is_recent width now ts = leb now (ts + width)

abbrev pub window : (width now : ℕ) → List ℕ → List ℕ
window width now ts = keep (is_recent width now) ts

-- The stored list and the log of accepted calls, up to a last instant. A refused call drops what is
-- old, an accepted one has room and adds its instant.
pub data Slide (width limit : ℕ) : ℕ → List ℕ → List ℕ → Type 0 where
  start : Slide width limit 0 [] []
  wait :
      {last : ℕ} {xs log : List ℕ} (now : ℕ)
      → last ≤ now
      → Slide width limit last xs log
      → Slide width limit now xs log
  refuse :
      {last : ℕ} {xs log : List ℕ}
      → Slide width limit last xs log
      → Slide width limit last (window width last xs) log
  accept :
      {last : ℕ} {xs log : List ℕ}
      → length (window width last xs) < limit
      → Slide width limit last xs log
      → Slide width limit last (window width last xs ++ last ∷ []) (log ++ last ∷ [])

window-window :
    (width now later : ℕ) (ts : List ℕ)
    → now ≤ later
    → window width later (window width now ts) ≡ window width later ts
window-window width now later [] h = refl
window-window width now later (t ∷ ts) h = ground (arith, window-window width now later ts h)

length-window_mono :
    (width now later : ℕ) (ts : List ℕ)
    → now ≤ later
    → length (window width later ts) ≤ length (window width now ts)
length-window_mono width now later [] h = omega arith
length-window_mono width now later (t ∷ ts) h =
    ground (arith, length-window_mono width now later ts h)

-- The stored list holds all of the log that is recent, and the recent part is within the limit.
record Inv (width limit last : ℕ) (xs log : List ℕ) : Type 0 where
  same : window width last log ≡ window width last xs
  bounded : length (window width last log) ≤ limit

wait-Inv :
    (width limit last now : ℕ) (xs log : List ℕ)
    → last ≤ now
    → Inv width limit last xs log
    → Inv width limit now xs log
wait-Inv width limit last now xs log h v = record {
  same =
      sym (window-window width last now log h)
      ∙ ap (window width now) v.same
      ∙ window-window width last now xs h;
  bounded = omega (arith, v.bounded, length-window_mono width last now log h);
}

accept-Inv :
    (width limit last : ℕ) (xs log : List ℕ)
    → length (window width last xs) < limit
    → Inv width limit last xs log
    → Inv width limit last (window width last xs ++ last ∷ []) (log ++ last ∷ [])
accept-Inv width limit last xs log room v =
    let p = is_recent width last in
    let grown = keep-append p log (last ∷ []) in
    let stored = keep-append p (window width last xs) (last ∷ []) in
    let kept = window-window width last last xs (omega arith) in
    record {
      same = grown ∙ ap (λ ts. ts ++ keep p (last ∷ [])) (v.same ∙ sym kept) ∙ sym stored;
      bounded = rw grown (
          omega (
            arith,
            length-append {0} (window width last log) (keep p (last ∷ [])),
            length-keep p (last ∷ []),
            ap length v.same,
            room,
          ));
    }

Slide-Inv :
    {width limit last : ℕ} {xs log : List ℕ}
    → Slide width limit last xs log
    → Inv width limit last xs log
Slide-Inv start = record { same = refl; bounded = omega arith }
Slide-Inv {width} {limit} (wait {last = l} {xs = xs} {log = log} now h s) =
    wait-Inv width limit l now xs log h (Slide-Inv s)
Slide-Inv {width} {limit} (refuse {last = l} {xs = xs} {log = log} s) =
    let v = Slide-Inv s in
    record { same = v.same ∙ sym (window-window width l l xs (omega arith)); bounded = v.bounded }
Slide-Inv {width} {limit} (accept {last = l} {xs = xs} {log = log} room s) =
    accept-Inv width limit l xs log room (Slide-Inv s)

-- No window of the given width that ends at the last instant or later holds more accepted calls
-- than the limit.
pub Slide-bounded :
    {width limit last : ℕ} {xs log : List ℕ}
    → Slide width limit last xs log
    → (t : ℕ) → last ≤ t
    → length (window width t log) ≤ limit
Slide-bounded {width} {last} {log} s t h =
    omega (arith, (Slide-Inv s).bounded, length-window_mono width last t log h)
