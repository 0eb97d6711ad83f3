-- ===== src/Client/Program.antt =====
-- The three goroutines of cmd/client/main.go on one connection: the one of `ConnectTCP` that waits for
-- the confirmation, `receiveMessages` and `startHeartbeat`. Two of them read, and whichever reads next
-- gets what arrives next.
use attachcloudip.Common.{
  List, [], ◌∷◌, ◌++◌, Bool, true, false, Option, none, some, if◌then◌else◌, ◌==◌,
}
use attachcloudip.Common.Text.{Text, codes, text_eq}
use attachcloudip.Strings.{trim_space}
use attachcloudip.TcpManager.{newline}
use attachcloudip.Client.{Client, registration_message}
use attachcloudip.Client.Loops.{Received, failed, acknowledged, message, receive_next}

pub data Confirmation : Type 0 where
  read_failed registered : Confirmation
  unexpected : Text → Confirmation

-- The goroutine of `ConnectTCP`.
unfoldable pub confirm : Option Text → Confirmation
confirm none = read_failed
confirm (some text) =
    if trim_space text == codes "registered" then registered else unexpected (trim_space text)

-- `delivered` has what was read, and `sent` what was written, in order.
pub record Program : Type 0 where
  pub client : Client
  pub confirmation : Option Confirmation
  pub receiving : Bool
  pub beating : Bool
  pub delivered : List Text
  pub logged : List Text
  pub sent : List Text

unfoldable pub new_program : Client → Program
unfolding registration_message
new_program c = record {
  client = c;
  confirmation = none;
  receiving = true;
  beating = true;
  delivered = [];
  logged = [];
  sent = registration_message c.id c.path ∷ [];
}

-- `sendMessage` writes this.
unfoldable pub line : Text → Text
line text = text ++ newline ∷ []

unfoldable pub heartbeat_message : Text
unfolding line
heartbeat_message = line (codes "heartbeat")

deliver : Program → Option Text → Program
deliver p none = p
deliver p (some text) = record p { delivered = p.delivered ++ text ∷ [] }

unfoldable pub confirm_reads : Program → Option Text → Option Confirmation → Program
unfolding confirm deliver
confirm_reads p read none = record (deliver p read) { confirmation = some (confirm read) }
confirm_reads p read (some done) = p

note : Program → Received → Program
note p failed = record p { receiving = false }
note p acknowledged = p
note p (message text) = record p { logged = p.logged ++ text ∷ [] }

unfoldable pub receiver_reads : Program → Option Text → Bool → Program
unfolding note deliver receive_next
receiver_reads p read true = note (deliver p read) (receive_next read)
receiver_reads p read false = p

-- A tick at which the write succeeds, or fails.
unfoldable pub tick : Program → Bool → Bool → Program
unfolding heartbeat_message
tick p written false = p
tick p true true = record p { sent = p.sent ++ heartbeat_message ∷ [] }
tick p false true = record p { beating = false }
