-- ===== src/Session/Wire/Carrying.antt =====
-- Where every read gives one line, a connection of cmd/client/main.go and cmd/server/tcpmanager.go
-- carries their messages whole.
use attachcloudip.Common.{
  ℕ, ◌≡◌, refl, List, [], ◌∷◌, Bool, true, false, Option, none, some, All, min, concat, concat-snoc,
  nat_eq,
}
use attachcloudip.Common.Text.{Text, text_eq}
use attachcloudip.TcpManager.{TcpManager, Phase, received, written, handle_client}
use attachcloudip.Client.Program.{Confirmation, heartbeat_message}
use attachcloudip.Session.{
  Session, advance, server_read, reply, answer, server_write, confirm_read, receiver_read,
  client_tick, move,
}
use attachcloudip.Session.Wire.{
  Wire, chunk, left, wire_advance, wire_server_read, wire_answer, wire_server_write,
  wire_confirm_read, wire_receiver_read, wire_tick, WireMove, beats, confirm_takes, receiver_takes,
  server_takes, server_replies, wire_move, as_move,
}
use attachcloudip.Session.Wire.Lines.{IsLine, IsLineOrNone, take_line, line_filled}

-- The messages of a session, put together.
abbrev pub wire_of : Session → Wire
wire_of s = record {
  program = s.program;
  manager = s.manager;
  phase = s.phase;
  to_server = concat s.to_server;
  to_client = concat s.to_client;
}

-- What a read gives, if the step reads.
abbrev pub ReadsLine : Wire → WireMove → Type 0
ReadsLine w beats = Unit
ReadsLine w (confirm_takes n) = IsLineOrNone (chunk n w.to_client)
ReadsLine w (receiver_takes n) = IsLineOrNone (chunk n w.to_client)
ReadsLine w (server_takes now n) = IsLineOrNone (chunk n w.to_server)
ReadsLine w (server_replies now) = Unit

abbrev pub ReadsLines : ℕ → Wire → List WireMove → Type 0
ReadsLines conn w [] = Unit
ReadsLines conn w (y ∷ ys) = ReadsLine w y × ReadsLines conn (wire_move conn w y) ys

pub record Lines (s : Session) : Type 0 where
  pub incoming : All IsLine s.to_server
  pub outgoing : All IsLine s.to_client

carry_advance :
    (s : Session) (xs : List Text) (o : Option (TcpManager × Phase))
    → wire_advance (wire_of s) (concat xs) o ≡ wire_of (advance s xs o)
unfolding wire_advance advance
carry_advance s xs none = refl
carry_advance s xs (some (m, phase)) = refl

carry_server_line :
    (conn now : ℕ) (s : Session) (x : Text) (xs : List Text)
    → IsLine x
    → wire_server_read conn now (wire_of s) x (concat xs)
      ≡ wire_of (server_read conn now s s.phase (x ∷ xs))
unfolding wire_server_read server_read
carry_server_line conn now s [] xs h = absurd (line_filled [] h refl)
carry_server_line conn now s (c ∷ x) xs h =
    carry_advance s xs (handle_client s.manager conn now s.phase (received (c ∷ x)))

carry_server_read :
    (conn now n : ℕ) (s : Session) (l : List Text)
    → All IsLine l
    → IsLineOrNone (chunk n (concat l))
    → wire_server_read conn now (wire_of s) (chunk n (concat l)) (left n (concat l))
      ≡ wire_of (server_read conn now s s.phase l)
unfolding wire_server_read server_read
carry_server_read conn now n s [] h c = refl
carry_server_read conn now n s (x ∷ xs) h c =
    let (first, rest) = take_line (min n 1023) x xs h.0 c in
    rw (first, rest) (carry_server_line conn now s x xs h.0)

carry_confirm_read :
    (n : ℕ) (s : Session) (o : Option Confirmation) (l : List Text)
    → All IsLine l
    → IsLineOrNone (chunk n (concat l))
    → wire_confirm_read (wire_of s) o (chunk n (concat l)) (left n (concat l))
      ≡ wire_of (confirm_read s o l)
unfolding wire_confirm_read confirm_read
carry_confirm_read n s (some d) l h c = refl
carry_confirm_read n s none [] h c = refl
carry_confirm_read n s none (x ∷ xs) h c =
    let (first, rest) = take_line (min n 1023) x xs h.0 c in rw (first, rest) (by_line x h.0)
  where
    by_line :
        (x : Text)
        → IsLine x
        → wire_confirm_read (wire_of s) none x (concat xs) ≡ wire_of (confirm_read s none (x ∷ xs))
    by_line [] k = absurd (line_filled [] k refl)
    by_line (d ∷ x) k = refl

carry_receiver_read :
    (n : ℕ) (s : Session) (b : Bool) (l : List Text)
    → All IsLine l
    → IsLineOrNone (chunk n (concat l))
    → wire_receiver_read (wire_of s) b (chunk n (concat l)) (left n (concat l))
      ≡ wire_of (receiver_read s b l)
unfolding wire_receiver_read receiver_read
carry_receiver_read n s false l h c = refl
carry_receiver_read n s true [] h c = refl
carry_receiver_read n s true (x ∷ xs) h c =
    let (first, rest) = take_line (min n 1023) x xs h.0 c in rw (first, rest) (by_line x h.0)
  where
    by_line :
        (x : Text)
        → IsLine x
        → wire_receiver_read (wire_of s) true x (concat xs)
          ≡ wire_of (receiver_read s true (x ∷ xs))
    by_line [] k = absurd (line_filled [] k refl)
    by_line (d ∷ x) k = refl

carry_tick : (s : Session) (b : Bool) → wire_tick (wire_of s) b ≡ wire_of (client_tick s b)
unfolding wire_tick client_tick
carry_tick s false = refl
carry_tick s true = rw (concat-snoc s.to_server heartbeat_message) refl

carry_answer :
    (s : Session) (text : Text) (o : Option (TcpManager × Phase))
    → wire_answer (wire_of s) text o ≡ wire_of (answer s text o)
unfolding wire_answer answer
carry_answer s text none = refl
carry_answer s text (some (m, phase)) = rw (concat-snoc s.to_client text) refl

carry_server_write :
    (conn now : ℕ) (s : Session) (o : Option Text)
    → wire_server_write conn now (wire_of s) o ≡ wire_of (server_write conn now s s.phase o)
unfolding wire_server_write server_write
carry_server_write conn now s none = refl
carry_server_write conn now s (some text) =
    carry_answer s text (handle_client s.manager conn now s.phase written)

pub carry_move :
    (conn : ℕ) (s : Session) (y : WireMove)
    → Lines s
    → ReadsLine (wire_of s) y
    → wire_move conn (wire_of s) y ≡ wire_of (move conn s (as_move y))
unfolding wire_move move
carry_move conn s beats h c = carry_tick s s.program.beating
carry_move conn s (confirm_takes n) h c =
    carry_confirm_read n s s.program.confirmation s.to_client h.outgoing c
carry_move conn s (receiver_takes n) h c =
    carry_receiver_read n s s.program.receiving s.to_client h.outgoing c
carry_move conn s (server_takes now n) h c = carry_server_read conn now n s s.to_server h.incoming c
carry_move conn s (server_replies now) h c = carry_server_write conn now s (reply s.phase)
