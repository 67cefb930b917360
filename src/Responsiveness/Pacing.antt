-- ===== src/Responsiveness/Pacing.antt =====
-- What `planSend` of src/responsiveness.ts lets through.
use cursor_claw.Base.{
  ℕ, ◌+◌, ◌<◌, ◌≡◌, ◌≢◌, ◌⊎◌, inl, inr, ap, eq_of_==, ◌∙◌, Bool, true, false, not, ◌&&◌, some, List,
  [], ◌∷◌, String, arith, if◌then◌else◌, string_eq, ◌==◌, Bool-cases, All, lt→ltb,
}
use cursor_claw.Base.Dict.{get, set, get-set_ne, get-set_self}
use cursor_claw.Responsiveness.{
  EngineOptions, Engine, SendPlanInput, plan_send, should_send, should_greet, is_cooling,
}

-- The plans of inputs, each with its instant, and the engine after them.
pub plans : EngineOptions → List (SendPlanInput × ℕ) → Engine → Engine
plans o [] e = e
plans o ((i, now) ∷ later) e = plans o later (plan_send o i now e).0

-- A call of another channel, or one that is not urgent and comes before `until`.
abbrev pub IsHeldBack : (channel_id : String) (until : ℕ) → SendPlanInput × ℕ → Type 0
IsHeldBack channel_id until (i, now) =
    (i.channel_id ≢ channel_id) ⊎ ((i.urgent ≡ false) × (now < until))

should_send_refused :
    (interval : ℕ) (channel_id : String) (now t : ℕ) (m : List (String × ℕ))
    → now < t + interval
    → get channel_id m ≡ some t
    → should_send interval channel_id now false m ≡ (m, false)
unfolding should_send
should_send_refused interval channel_id now t m h g = rw (g, lt→ltb now (t + interval) h)

get-should_send_ne :
    (interval : ℕ) (c channel_id : String) (now : ℕ) (urgent : Bool) (m : List (String × ℕ))
    → c ≢ channel_id
    → get channel_id (should_send interval c now urgent m).0 ≡ get channel_id m
unfolding should_send
get-should_send_ne interval c channel_id now urgent m n =
    ground (arith, get-set_ne c channel_id now m n)

get-should_send_sent :
    (interval : ℕ) (channel_id : String) (now : ℕ) (urgent : Bool) (m : List (String × ℕ))
    → (should_send interval channel_id now urgent m).1 ≡ true
    → get channel_id (should_send interval channel_id now urgent m).0 ≡ some now
unfolding should_send
get-should_send_sent interval channel_id now urgent m h =
    ground (arith, h, get-set_self channel_id now m)

should_send_keeps :
    (interval : ℕ) (c channel_id : String) (urgent : Bool) (now t : ℕ) (m : List (String × ℕ))
    → (c ≢ channel_id) ⊎ ((urgent ≡ false) × (now < t + interval))
    → get channel_id m ≡ some t
    → get channel_id (should_send interval c now urgent m).0 ≡ some t
should_send_keeps interval c channel_id urgent now t m (inl n) g =
    get-should_send_ne interval c channel_id now urgent m n ∙ g
should_send_keeps interval c channel_id urgent now t m (inr (u, l)) g =
    elim (Bool-cases (c == channel_id)) [
      | inl e ↦
          let p = eq_of_== c channel_id e in
          rw (u, p)
            (ap (λ r. get channel_id r.0) (should_send_refused interval channel_id now t m l g) ∙ g)
      | inr e ↦
          get-should_send_ne interval c channel_id now urgent m
            (λ p. ground (arith, p, e, string_eq.is_same_iff c channel_id))
          ∙ g
    ]

-- The end of the interval stays where it is.
last_sent-plans :
    (o : EngineOptions) (channel_id : String) (t : ℕ) (between : List (SendPlanInput × ℕ))
    (e : Engine)
    → All (IsHeldBack channel_id (t + o.min_inter_message_ms)) between
    → get channel_id e.last_sent_by_channel ≡ some t
    → get channel_id (plans o between e).last_sent_by_channel ≡ some t
unfolding plans plan_send
last_sent-plans o channel_id t [] e hs g = g
last_sent-plans o channel_id t ((i, now) ∷ later) e hs g =
    last_sent-plans o channel_id t later (plan_send o i now e).0 hs.1 (
      should_send_keeps o.min_inter_message_ms i.channel_id channel_id i.urgent now t
        e.last_sent_by_channel hs.0 g)

-- Once a message went out on a channel at `t`, no message that is not urgent goes out on it before
-- `t` plus the interval, whatever the other channels send in between and however often the channel
-- tries, as long as its tries are not urgent and come before that time.
pub plan_send_after_plans :
    (o : EngineOptions) (i : SendPlanInput) (t now : ℕ) (between : List (SendPlanInput × ℕ))
    (e : Engine)
    → (plan_send o i t e).1.allow_send ≡ true
    → (last : SendPlanInput) → last.channel_id ≡ i.channel_id
    → last.urgent ≡ false
    → now < t + o.min_inter_message_ms
    → All (IsHeldBack i.channel_id (t + o.min_inter_message_ms)) between
    → (plan_send o last now (plans o between (plan_send o i t e).0)).1.allow_send ≡ false
unfolding plan_send
plan_send_after_plans o i t now between e sent last same u h hs =
    let g = last_sent-plans o i.channel_id t between (plan_send o i t e).0 hs (
      get-should_send_sent o.min_inter_message_ms i.channel_id t i.urgent e.last_sent_by_channel
        sent) in
    rw (same, u)
      (ap (λ r. r.1) (should_send_refused o.min_inter_message_ms i.channel_id now t _ h g))

-- A plan greets exactly when its message may go out, the thread is new, and the last greeting of
-- the thread, if there was one, lies the cooldown back; only then is a greeting noted.
pub greets-plan_send_iff :
    (o : EngineOptions) (i : SendPlanInput) (now : ℕ) (e : Engine)
    → ((plan_send o i now e).1.greets ≡ (
        (plan_send o i now e).1.allow_send
        && (i.is_new_thread
            && not (is_cooling o.cooldown_ms now (get i.thread_id e.last_greeting_by_thread)))))
      × ((plan_send o i now e).0.last_greeting_by_thread ≡ (
          if (plan_send o i now e).1.greets
          then set i.thread_id now e.last_greeting_by_thread
          else e.last_greeting_by_thread))
unfolding plan_send should_send should_greet
greets-plan_send_iff o i now e = ground arith
