-- ===== src/Client/Loops.antt =====
-- The loops of cmd/client/main.go, over what the reads and the writes of the connection give.
use attachcloudip.Common.{
  ℕ, suc, ◌≡◌, ◌↔◌, refl, sym, ap, ◌∙◌, List, [], ◌∷◌, Bool, true, false, Option, none, some,
  if◌then◌else◌, ◌==◌, In, inl, inr, map, Bool-cases, ◌++◌,
}
use attachcloudip.Common.Text.{Text, codes, text_eq}
use attachcloudip.Strings.{trim_space}

-- What a round of `receiveMessages` makes of a read.
pub data Received : Type 0 where
  failed acknowledged : Received
  message : Text → Received

unfoldable pub receive_next : Option Text → Received
receive_next none = failed
receive_next (some text) =
    if trim_space text == codes "heartbeat-ack" then acknowledged else message (trim_space text)

-- The messages that are logged, and whether the loop has returned after these reads.
log_received : Received → List Text × Bool → List Text × Bool
log_received failed rest = ([], true)
log_received acknowledged rest = rest
log_received (message text) (logged, returned) = (text ∷ logged, returned)

unfoldable pub receive_messages : List (Option Text) → List Text × Bool
unfolding receive_next log_received
receive_messages [] = ([], false)
receive_messages (read ∷ reads) = log_received (receive_next read) (receive_messages reads)

-- The heartbeats that are written at these ticks, and whether the loop has returned; a write that
-- fails ends it.
unfoldable pub start_heartbeat : List Bool → ℕ × Bool
start_heartbeat [] = (0, false)
start_heartbeat (true ∷ writes) = (suc (start_heartbeat writes).0, (start_heartbeat writes).1)
start_heartbeat (false ∷ writes) = (0, true)

abbrev pub others : List Text → List Text
others [] = []
others (text ∷ texts) = if text == codes "heartbeat-ack" then others texts else text ∷ others texts

log_received-some :
    (text : Text) (rest : List Text × Bool)
    → log_received (receive_next (some text)) rest
      ≡ (others (trim_space text ∷ []) ++ rest.0, rest.1)
unfolding log_received receive_next
log_received-some text rest = elim (Bool-cases (trim_space text == codes "heartbeat-ack")) [
  | inl e ↦ rw (e, receive_next) refl
  | inr e ↦ rw (e, receive_next) refl
]

others-cons :
    (text : Text) (texts : List Text) → others (text ∷ texts) ≡ others (text ∷ []) ++ others texts
others-cons text texts = elim (Bool-cases (text == codes "heartbeat-ack")) [
  | inl e ↦ rw (e, others) refl
  | inr e ↦ rw (e, others) refl
]

-- The loop logs, in their order and without the space around them, the messages that come before the
-- first read that fails and are no acknowledgements; at that read it returns, whatever comes after.
receive_messages-append :
    (texts : List Text) (rest : List (Option Text))
    → receive_messages (map some texts ++ none ∷ rest) ≡ (others (map trim_space texts), true)
unfolding receive_messages log_received receive_next
receive_messages-append [] rest = refl
receive_messages-append (text ∷ texts) rest =
    log_received-some text (receive_messages (map some texts ++ none ∷ rest))
    ∙ ap (λ (r : List Text × Bool). (others (trim_space text ∷ []) ++ r.0, r.1))
        (receive_messages-append texts rest)
    ∙ ap (λ l. (l, true)) (sym (others-cons (trim_space text) (map trim_space texts)))

receive_step :
    (text : Text) (reads : List (Option Text))
    → (receive_messages (some text ∷ reads)).1 ≡ (receive_messages reads).1
unfolding receive_messages
receive_step text reads =
    ap (λ (r : List Text × Bool). r.1) (log_received-some text (receive_messages reads))

receive_sound : (reads : List (Option Text)) → (receive_messages reads).1 ≡ true → In none reads
unfolding receive_messages
receive_sound [] e = cc
receive_sound (none ∷ reads) e = inl refl
receive_sound (some text ∷ reads) e = inr (receive_sound reads (sym (receive_step text reads) ∙ e))

receive_complete : (reads : List (Option Text)) → In none reads → (receive_messages reads).1 ≡ true
unfolding receive_messages log_received receive_next
receive_complete [] i = absurd i
receive_complete (none ∷ reads) i = refl
receive_complete (some text ∷ reads) (inl e) = cc
receive_complete (some text ∷ reads) (inr i) = receive_step text reads ∙ receive_complete reads i

beat_sound : (writes : List Bool) → (start_heartbeat writes).1 ≡ true → In false writes
unfolding start_heartbeat
beat_sound [] e = cc
beat_sound (true ∷ writes) e = inr (beat_sound writes e)
beat_sound (false ∷ writes) e = inl refl

beat_complete : (writes : List Bool) → In false writes → (start_heartbeat writes).1 ≡ true
unfolding start_heartbeat
beat_complete [] i = absurd i
beat_complete (true ∷ writes) (inl e) = cc
beat_complete (true ∷ writes) (inr i) = beat_complete writes i
beat_complete (false ∷ writes) i = refl

-- The two loops of the client return exactly when a read, or a write, fails.
pub receive_messages_returns_iff :
    (reads : List (Option Text)) (writes : List Bool)
    → (((receive_messages reads).1 ≡ true) ↔ In none reads)
      × (((start_heartbeat writes).1 ≡ true) ↔ In false writes)
receive_messages_returns_iff reads writes =
    ((receive_sound reads, receive_complete reads), (beat_sound writes, beat_complete writes))
