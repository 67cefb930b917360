-- ===== src/Examples/Threads.antt =====
-- The threads at concrete inputs.
use cursor_claw.Base.{ℕ, ◌≡◌, refl, List, [], ◌∷◌, ◌++◌, if◌then◌else◌, take_last, ◌==◌}
use cursor_claw.ThreadStore.{
  user, ThreadMessage, text_eq, Store, max_messages_per_thread, sanitize_session_id, get_thread,
  append_message,
}
use cursor_claw.ThreadStore.Messages.{get_thread-append_message}

-- `a.b` and `a_b`, which have the same file name.
abbrev dotted : List ℕ
dotted = b'a' ∷ b'.' ∷ b'b' ∷ []

abbrev underscored : List ℕ
underscored = b'a' ∷ b'_' ∷ b'b' ∷ []

abbrev greeting : ThreadMessage
greeting = record { id = 1; role = user; content = []; at = 5 }

abbrev no_threads : Store
no_threads = record { files = [] }

get_thread-append_message_example :
    get_thread underscored (append_message dotted greeting no_threads) ≡ (
      if sanitize_session_id dotted == sanitize_session_id underscored
      then take_last max_messages_per_thread (get_thread dotted no_threads ++ greeting ∷ [])
      else get_thread underscored no_threads)
get_thread-append_message_example =
    get_thread-append_message dotted underscored greeting no_threads refl
