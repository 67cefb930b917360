-- ===== src/Examples/Hosts.antt =====
-- The addresses and the anomalies at concrete inputs.
use cursor_claw.Base.{
  ℕ, ◌≡◌, refl, ◌||◌, none, List, [], ◌∷◌, list_beq, if◌then◌else◌, string_eq, nat_eq,
}
use cursor_claw.Cron.Duration.{trim, trim_start, is_space}
use cursor_claw.Addresses.{Network, show_octet, show_ipv4}
use cursor_claw.Anomalies.{AnomalyDetector}
use cursor_claw.Addresses.Targets.{text_eq, strip_brackets, blocked, resolve_safe_fetch_target}
use cursor_claw.Addresses.Spelling.{hex, octal, decimal}
use cursor_claw.Addresses.Refusing.{resolve_safe_fetch_target-blocked}

-- 127.0.0.1, 0x7f.0.00.1 and 8.8.8.8.
abbrev loopback : List ℕ
loopback = b'1' ∷ b'2' ∷ b'7' ∷ b'.' ∷ b'0' ∷ b'.' ∷ b'0' ∷ b'.' ∷ b'1' ∷ []

abbrev spelled_loopback : List ℕ
spelled_loopback = b'0' ∷ b'x' ∷ b'7' ∷ b'f' ∷ b'.' ∷ b'0' ∷ b'.' ∷ b'0' ∷ b'0' ∷ b'.' ∷ b'1' ∷ []

abbrev public_address : List ℕ
public_address = b'8' ∷ b'.' ∷ b'8' ∷ b'.' ∷ b'8' ∷ b'.' ∷ b'8' ∷ []

abbrev net : Network
net = record {
  lower = λ s. s;
  is_ip = λ s. if list_beq s loopback || list_beq s public_address then 4 else 0;
  lookup = λ s. none;
}

resolve_safe_fetch_target-blocked_example :
    resolve_safe_fetch_target net (record { protocol = "http:"; hostname = spelled_loopback })
    ≡ blocked (show_ipv4 127 0 0 1)
unfolding trim trim_start is_space strip_brackets show_ipv4 show_octet
resolve_safe_fetch_target-blocked_example =
    resolve_safe_fetch_target-blocked net
      (record { protocol = "http:"; hostname = spelled_loopback }) (hex (7 ∷ 15 ∷ []))
      (decimal (0 ∷ [])) (octal (0 ∷ [])) (decimal (1 ∷ [])) refl refl refl refl refl refl refl
      (λ e. cc) refl refl

abbrev one_trigger : AnomalyDetector
one_trigger = record {
  tool_calls = [];
  fetch_domains = [];
  session_triggers = (70000, "main") ∷ [];
}
