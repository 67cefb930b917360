-- ===== src/Budget/Bound.antt =====
-- The budget's promise over any sequence of calls.
use mathlib.Core.List.{append-nil, append_assoc}
use cursor_claw.Base.{
  ℕ, ◌<◌, ◌≤◌, ◌≡◌, ◌∙◌, ap, subst, true, false, ◌&&◌, not, List, [], ◌∷◌, ◌++◌, String, arith,
  if◌then◌else◌, ◌==◌, string_eq, length, Bool-cases, inl, inr, ◌↔◌, eq_of_==, ==_refl,
}
use cursor_claw.Base.Dict.{get, get-set}
use cursor_claw.Window.{window, Slide, start, wait, refuse, accept, Slide-bounded}
use cursor_claw.Budget.{
  Config, Budget, hour_ms, day_ms, utc_hour, is_quiet, stamps, filter_windows, is_refused,
  note_action, allow,
}

-- A call names a channel and an instant.
abbrev pub Call : Type 0
Call = String × ℕ

-- The instants at which the channel was let through, in order.
pub accepted : Config → String → Budget → List Call → List ℕ
accepted c channel b [] = []
accepted c channel b ((ch, now) ∷ cs) =
    let (b', done) = allow c ch now b in
    (if done && ch == channel then now ∷ [] else []) ++ accepted c channel b' cs

abbrev pub InOrder : ℕ → List Call → Type 0
InOrder last [] = Unit
InOrder last ((ch, now) ∷ cs) = (last ≤ now) × InOrder now cs

abbrev pub last_time : ℕ → List Call → ℕ
last_time last [] = last
last_time last ((ch, now) ∷ cs) = last_time now cs

-- Both windows of a channel, with one log.
abbrev Both : Config → ℕ → String → Budget → List ℕ → Type 0
Both c last channel b log =
    Slide hour_ms c.max_per_hour last (stamps channel b.hourly) log
    × Slide day_ms c.max_per_day last (stamps channel b.daily) log

abbrev entry : Config → String → String → ℕ → Budget → List ℕ
entry c channel ch now b = if (allow c ch now b).1 && ch == channel then now ∷ [] else []

stamps-filter_windows :
    (channel ch : String) (now : ℕ) (b : Budget)
    → let b' = filter_windows ch now b in
      (stamps channel b'.hourly ≡ (
        if ch == channel then window hour_ms now (stamps ch b.hourly) else stamps channel b.hourly))
      × (stamps channel b'.daily ≡ (
          if ch == channel then window day_ms now (stamps ch b.daily) else stamps channel b.daily))
unfolding filter_windows
stamps-filter_windows channel ch now b = (
  ground (arith, get-set ch channel (window hour_ms now (stamps ch b.hourly)) b.hourly),
  ground (arith, get-set ch channel (window day_ms now (stamps ch b.daily)) b.daily),
)

stamps-note_action :
    (channel ch : String) (now : ℕ) (b : Budget)
    → let b' = note_action ch now b in
      (stamps channel b'.hourly
        ≡ (if ch == channel then stamps ch b.hourly ++ now ∷ [] else stamps channel b.hourly))
      × (stamps channel b'.daily
          ≡ (if ch == channel then stamps ch b.daily ++ now ∷ [] else stamps channel b.daily))
unfolding note_action
stamps-note_action channel ch now b = (
  ground (arith, get-set ch channel (stamps ch b.hourly ++ now ∷ []) b.hourly),
  ground (arith, get-set ch channel (stamps ch b.daily ++ now ∷ []) b.daily),
)

-- What the early returns let pass.
pub is_refused-false :
    (c : Config) (channel : String) (now : ℕ) (b : Budget)
    → is_refused c channel now b ≡ false
    → (is_quiet c.quiet_hours (utc_hour now) ≡ false)
      × (length (stamps channel b.hourly) < c.max_per_hour)
      × (length (stamps channel b.daily) < c.max_per_day)
unfolding is_refused
is_refused-false c channel now b h = ground arith

own-Both :
    (c : Config) (ch : String) (now : ℕ) (b : Budget) (log : List ℕ)
    → Both c now ch b log
    → Both c now ch (allow c ch now b).0 (log ++ entry c ch ch now b)
unfolding allow
own-Both c ch now b log s =
    let f = filter_windows ch now b in
    let (hours, days) = stamps-filter_windows ch ch now b in
    let same = ==_refl ch in
    let at_hours = rw same at hours in
    let at_days = rw same at days in
    elim (Bool-cases (is_refused c ch now f)) [
      | inl refused ↦ rw (refused, append-nil log, at_hours, at_days) (refuse s.0, refuse s.1)
      | inr free ↦
          let (awake, fits_hour, fits_day) = is_refused-false c ch now f free in
          let (more_hours, more_days) = stamps-note_action ch ch now f in
          rw (free, same, (rw same at more_hours), (rw same at more_days), at_hours, at_days)
            (accept (rw at_hours at fits_hour) s.0, accept (rw at_days at fits_day) s.1)
    ]

other-Both :
    (c : Config) (channel ch : String) (now : ℕ) (b : Budget) (log : List ℕ)
    → (ch == channel) ≡ false
    → Both c now channel b log
    → Both c now channel (allow c ch now b).0 (log ++ entry c channel ch now b)
unfolding allow
other-Both c channel ch now b log e s =
    let f = filter_windows ch now b in
    let (hours, days) = stamps-filter_windows channel ch now b in
    let at_hours = rw e at hours in
    let at_days = rw e at days in
    elim (Bool-cases (is_refused c ch now f)) [
      | inl refused ↦ rw (refused, append-nil log, at_hours, at_days) s
      | inr free ↦
          let (more_hours, more_days) = stamps-note_action channel ch now f in
          rw (free, e, append-nil log, (rw e at more_hours), (rw e at more_days), at_hours, at_days)
            s
    ]

step-Both :
    (c : Config) (channel ch : String) (now : ℕ) (b : Budget) (log : List ℕ)
    → Both c now channel b log
    → Both c now channel (allow c ch now b).0 (log ++ entry c channel ch now b)
step-Both c channel ch now b log s = elim (Bool-cases (ch == channel)) [
  | inl own ↦
      subst
        (λ k. Both c now k b log → Both c now k (allow c ch now b).0 (log ++ entry c k ch now b))
        (eq_of_== ch channel own) (own-Both c ch now b log) s
  | inr other ↦ other-Both c channel ch now b log other s
]

accepted-Both :
    (c : Config) (channel : String) (last : ℕ) (cs : List Call) (b : Budget) (log : List ℕ)
    → InOrder last cs
    → Both c last channel b log
    → (b' : Budget) × Both c (last_time last cs) channel b' (log ++ accepted c channel b cs)
unfolding accepted
accepted-Both c channel last [] b log ordered s = (b, rw (append-nil log) s)
accepted-Both c channel last ((ch, now) ∷ cs) b log ordered s =
    let b' = (allow c ch now b).0 in
    let more = entry c channel ch now b in
    let next = step-Both c channel ch now b log (wait now ordered.0 s.0, wait now ordered.0 s.1) in
    let (b'', done) = accepted-Both c channel now cs b' (log ++ more) ordered.1 next in
    (b'', rw (append_assoc log more (accepted c channel b' cs)) at done)

abbrev pub fresh : Budget
fresh = record { hourly = []; daily = [] }

-- However channels take turns, as long as the clock does not go back, the budget lets a channel act
-- at most `maxPerHourPerChannel` times in an hour and `maxPerDayPerChannel` times in a day, for any
-- hour and day that end at the last call or later.
pub length-accepted_bounds :
    (c : Config) (channel : String) (cs : List Call) (t : ℕ)
    → InOrder 0 cs
    → last_time 0 cs ≤ t
    → (length (window hour_ms t (accepted c channel fresh cs)) ≤ c.max_per_hour)
      × (length (window day_ms t (accepted c channel fresh cs)) ≤ c.max_per_day)
unfolding get
length-accepted_bounds c channel cs t ordered h =
    let (b, s) = accepted-Both c channel 0 cs fresh [] ordered (start, start) in
    (Slide-bounded s.0 t h, Slide-bounded s.1 t h)

is_refused-false_iff :
    (c : Config) (channel : String) (now : ℕ) (b : Budget)
    → (is_refused c channel now b ≡ false) ↔ (
        (is_quiet c.quiet_hours (utc_hour now) ≡ false)
        × (length (stamps channel b.hourly) < c.max_per_hour)
        × (length (stamps channel b.daily) < c.max_per_day))
unfolding is_refused
is_refused-false_iff c channel now b = (λ h. ground arith, λ h. ground arith)

allow-answer :
    (c : Config) (channel : String) (now : ℕ) (b : Budget)
    → (allow c channel now b).1 ≡ not (is_refused c channel now (filter_windows channel now b))
unfolding allow
allow-answer c channel now b =
    elim (Bool-cases (is_refused c channel now (filter_windows channel now b))) [
      | inl refused ↦ rw refused
      | inr free ↦ rw free
    ]

-- An action is let through exactly when it is no quiet hour in UTC and both windows of the channel
-- have room.
pub allow-eq-true_iff :
    (c : Config) (channel : String) (now : ℕ) (b : Budget)
    → ((allow c channel now b).1 ≡ true) ↔ (
        (is_quiet c.quiet_hours (utc_hour now) ≡ false)
        × (length (window hour_ms now (stamps channel b.hourly)) < c.max_per_hour)
        × (length (window day_ms now (stamps channel b.daily)) < c.max_per_day))
allow-eq-true_iff c channel now b =
    let f = filter_windows channel now b in
    let (hours, days) = stamps-filter_windows channel channel now b in
    let same = ==_refl channel in
    let at_hours = rw same at hours in
    let at_days = rw same at days in
    let (to, from) = is_refused-false_iff c channel now f in
    let answer = allow-answer c channel now b in
    (
      λ e. rw (at_hours, at_days) at (to (ground (arith, answer, e))),
      λ h. answer ∙ ap not (from (rw (at_hours, at_days) h)),
    )
