-- ===== src/Session/Wire/Refinement.antt =====
-- A session of cmd/client/main.go and cmd/server/tcpmanager.go over TCP implements the machine that
-- counts, where every read gives one line.
use attachcloudip.Common.{ℕ, ◌≡◌, refl, ap, ◌∙◌, List, [], ◌∷◌, map, nat_eq}
use mathlib.Core.Path.{subst}
use attachcloudip.Common.Text.{Text, text_eq}
use attachcloudip.Strings.Parts.{Lacks}
use attachcloudip.TcpManager.{TcpManager, newline}
use attachcloudip.TcpManager.Registration.{IsField}
use attachcloudip.Client.{Client}
use attachcloudip.Session.{Session, new_session, move, run}
use attachcloudip.Session.Exchange.{announced, Exchange, exchange, exchange_run, Implements}
use attachcloudip.Session.Refinement.{run-new_session-Implements}
use attachcloudip.Session.Wire.{Wire, new_wire, WireMove, wire_run, as_move}
use attachcloudip.Session.Wire.Carrying.{wire_of, ReadsLines, Lines, carry_move}
use attachcloudip.Session.Wire.Messages.{move-Lines, new_session-Lines}

pub carry_run :
    (conn : ℕ) (s : Session) (ys : List WireMove)
    → Lines s
    → ReadsLines conn (wire_of s) ys
    → wire_run conn (wire_of s) ys ≡ wire_of (run conn s (map as_move ys))
unfolding wire_run run
carry_run conn s [] h c = refl
carry_run conn s (y ∷ ys) h c =
    let same = carry_move conn s y h c.0 in
    ap (λ w. wire_run conn w ys) same
    ∙ carry_run conn (move conn s (as_move y)) ys (move-Lines conn s (as_move y) h)
        (subst (λ w. ReadsLines conn w ys) same c.1)

pub new_wire_of : (c : Client) (m : TcpManager) → new_wire c m ≡ wire_of (new_session c m)
unfolding new_wire new_session
new_wire_of c m = refl

-- The connection holds the messages that the machine that counts stands for, put together.
abbrev pub WireImplements : ℕ → Text → Text → Wire → Exchange → Type 0
WireImplements conn id path w x = (s : Session) × (w ≡ wire_of s) × Implements conn id path s x

-- A client whose ID and path are fields on one line, on a connection that does not fail, and the
-- server's handler, in any order of their steps in which every read gives exactly one line, which TCP
-- does not promise, do what the machine that counts does: the registration is read first, and from
-- then on the client stands in the table on its connection under its path; the client gets one
-- confirmation and then acknowledgements, each heartbeat that is sent waits, is being answered or has
-- its acknowledgement, and neither side ends.
pub wire_run-WireImplements :
    (conn : ℕ) (c : Client) (m : TcpManager) (ys : List WireMove)
    → IsField c.id
    → IsField c.path
    → Lacks newline c.id
    → Lacks newline c.path
    → ReadsLines conn (new_wire c m) ys
    → WireImplements conn c.id c.path
        (wire_run conn (new_wire c m) ys)
        (exchange_run (exchange announced 0 0) (map as_move ys))
wire_run-WireImplements conn c m ys f g h k reads = (
  run conn (new_session c m) (map as_move ys),
  ap (λ w. wire_run conn w ys) (new_wire_of c m)
      ∙ carry_run conn (new_session c m) ys (new_session-Lines c m h k)
          (subst (λ w. ReadsLines conn w ys) (new_wire_of c m) reads),
  run-new_session-Implements conn c m (map as_move ys) f g k,
)
