-- ===== src/Session/Coalesced.antt =====
-- Heartbeats of cmd/client/main.go that reach cmd/server/tcpmanager.go in one read.
use attachcloudip.Common.{ℕ, ◌≡◌, ◌≢◌, refl, sym, ap, ◌∙◌, [], ◌∷◌, ◌++◌, Bool, false, some, beq_ne}
use attachcloudip.Common.Text.{Text, codes, text_eq}
use attachcloudip.Strings.{trim_space, trim_left_func, trim_right_func, cons_trimmed, is_space}
use attachcloudip.TcpManager.{TcpManager, handle_client, next_message, serving, received}
use attachcloudip.Client.Program.{heartbeat_message}

-- What stands before a character that stays is not trimmed on the right.
trim_right_func-middle :
    (p : ℕ → Bool) (s : Text) (c : ℕ) (t : Text)
    → p c ≡ false
    → trim_right_func p (s ++ c ∷ t) ≡ s ++ c ∷ trim_right_func p t
unfolding trim_right_func cons_trimmed
trim_right_func-middle p [] c t e = by_rest (trim_right_func p t)
  where
    by_rest : (r : Text) → cons_trimmed p c r ≡ c ∷ r
    by_rest [] = rw e refl
    by_rest (d ∷ r) = refl
trim_right_func-middle p (d ∷ s) c t e =
    ap (cons_trimmed p d) (trim_right_func-middle p s c t e) ∙ keeps s
  where
    keeps :
        (u : Text)
        → cons_trimmed p d (u ++ c ∷ trim_right_func p t) ≡ d ∷ (u ++ c ∷ trim_right_func p t)
    keeps [] = refl
    keeps (x ∷ u) = refl

two_heartbeats :
    (t : Text)
    → trim_space (heartbeat_message ++ (heartbeat_message ++ t))
      ≡ codes "heartbeat" ++ (10 ∷ codes "heartbea") ++ b't' ∷ trim_right_func is_space (10 ∷ t)
unfolding heartbeat_message trim_space trim_left_func is_space
two_heartbeats t = ap (trim_left_func is_space) (
    trim_right_func-middle is_space (codes "heartbeat" ++ (10 ∷ codes "heartbea")) b't' (10 ∷ t)
      refl)

longer : (t : Text) → codes "heartbeat" ++ (10 ∷ codes "heartbea") ++ b't' ∷ t ≢ codes "heartbeat"
longer t e = cc

-- A read that begins with two heartbeats is none: the handler neither sets the client's time nor
-- acknowledges any of them.
pub handle_client-coalesced :
    (m : TcpManager) (conn now : ℕ) (id t : Text)
    → handle_client m conn now
        (serving id)
        (received (heartbeat_message ++ (heartbeat_message ++ t)))
      ≡ some (m, serving id)
unfolding handle_client next_message
handle_client-coalesced m conn now id t =
    rw
      (
        beq_ne (trim_space (heartbeat_message ++ (heartbeat_message ++ t))) (codes "heartbeat")
            (λ e. longer (trim_right_func is_space (10 ∷ t)) (sym (two_heartbeats t) ∙ e)),
        next_message,
      )
      refl
