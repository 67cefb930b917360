-- ===== src/ThreadStore/Messages.antt =====
-- The messages of src/thread-store.ts over writes of any session.
use cursor_claw.Base.{
  ℕ, ◌≡◌, refl, Bool, true, ◌&&◌, Option, none, some, List, [], ◌∷◌, ◌++◌, if◌then◌else◌, map,
  take_last, drop, length, arith, Bool-cases, inl, inr, ◌==◌, zero, suc, ◌-◌,
}
use cursor_claw.Base.Dict.{get, get-set}
use cursor_claw.ThreadStore.{
  ThreadMessage, Entry, message_entry, other_entry, text_eq, Store, max_messages_per_thread,
  sanitize_session_id, is_shown, valid_messages, read_file, get_thread, write_thread,
  append_message,
}

-- Every message of the list is a user's or the assistant's.
abbrev pub all_shown : List ThreadMessage → Bool
all_shown [] = true
all_shown (m ∷ ms) = is_shown m.role && all_shown ms

valid_messages-map :
    (ms : List ThreadMessage) → all_shown ms ≡ true → valid_messages (map message_entry ms) ≡ ms
unfolding valid_messages
valid_messages-map [] h = refl
valid_messages-map (m ∷ ms) h =
    let shown : is_shown m.role ≡ true = ground (arith, h) in
    rw (shown, valid_messages-map ms (ground (arith, h)))

all_shown-valid_messages : (es : List Entry) → all_shown (valid_messages es) ≡ true
unfolding valid_messages
all_shown-valid_messages [] = refl
all_shown-valid_messages (other_entry ∷ es) = all_shown-valid_messages es
all_shown-valid_messages (message_entry m ∷ es) = elim (Bool-cases (is_shown m.role)) [
  | inl e ↦ rw (e, all_shown-valid_messages es) (rw e)
  | inr e ↦ rw e (all_shown-valid_messages es)
]

all_shown-drop :
    (n : ℕ) (ms : List ThreadMessage) → all_shown ms ≡ true → all_shown (drop n ms) ≡ true
all_shown-drop zero ms h = h
all_shown-drop (suc n) [] h = refl
all_shown-drop (suc n) (m ∷ ms) h = all_shown-drop n ms (ground (arith, h))

all_shown-append :
    (ms : List ThreadMessage) (m : ThreadMessage)
    → all_shown ms ≡ true
    → is_shown m.role ≡ true
    → all_shown (ms ++ m ∷ []) ≡ true
all_shown-append [] m h k = rw k refl
all_shown-append (x ∷ ms) m h k = ground (arith, h, all_shown-append ms m (ground (arith, h)) k)

all_shown-read_file : (o : Option (Option (List Entry))) → all_shown (read_file o) ≡ true
all_shown-read_file none = refl
all_shown-read_file (some none) = refl
all_shown-read_file (some (some es)) = all_shown-valid_messages es

get_thread-write_thread :
    (session other : List ℕ) (ms : List ThreadMessage) (s : Store)
    → all_shown ms ≡ true
    → get_thread other (write_thread session ms s) ≡ (
        if sanitize_session_id session == sanitize_session_id other then ms else get_thread other s)
unfolding get_thread write_thread
get_thread-write_thread session other ms s h =
    let a = sanitize_session_id session in
    let b = sanitize_session_id other in
    elim (Bool-cases (a == b)) [
      | inl e ↦ rw (get-set a b (some (map message_entry ms)) s.files, e) (valid_messages-map ms h)
      | inr e ↦ rw (get-set a b (some (map message_entry ms)) s.files, e) refl
    ]

shown_before : (session : List ℕ) (s : Store) → all_shown (get_thread session s) ≡ true
unfolding get_thread
shown_before session s = all_shown-read_file (get (sanitize_session_id session) s.files)

-- An appended message of a user or the assistant is the last one that is read back, after the messages
-- from before, of which the oldest go beyond 1000. The threads with another file name are as before,
-- and a session identifier with the same file name reads the same thread.
pub get_thread-append_message :
    (session other : List ℕ) (m : ThreadMessage) (s : Store)
    → is_shown m.role ≡ true
    → get_thread other (append_message session m s) ≡ (
        if sanitize_session_id session == sanitize_session_id other
        then take_last max_messages_per_thread (get_thread session s ++ m ∷ [])
        else get_thread other s)
unfolding append_message
get_thread-append_message session other m s shown =
    let before = get_thread session s in
    let kept = all_shown-append before m (shown_before session s) shown in
    get_thread-write_thread session other (take_last max_messages_per_thread (before ++ m ∷ [])) s
      (all_shown-drop (length (before ++ m ∷ []) - 1000) (before ++ m ∷ []) kept)
