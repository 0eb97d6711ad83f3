-- ===== src/Session/Wire/Draining.antt =====
-- How client and handler of cmd/client/main.go and cmd/server/tcpmanager.go go on, over TCP, when the
-- handler takes its turns.
use mathlib.Core.Path.{subst}
use attachcloudip.Common.{
  ℕ, suc, ◌≤◌, ◌<◌, ◌≡◌, sym, ap, ◌∙◌, List, [], ◌∷◌, ◌++◌, nat_eq, arith, length, replicate, count,
  count-append, concat, concat-append, All, map,
}
use attachcloudip.Common.Text.{Text, codes, text_eq}
use attachcloudip.Strings.Parts.{Lacks}
use attachcloudip.TcpManager.{TcpManager, newline}
use attachcloudip.TcpManager.Registration.{IsField}
use attachcloudip.Client.{Client}
use attachcloudip.Client.Program.{line}
use attachcloudip.Session.{Session, new_session, run}
use attachcloudip.Session.Exchange.{announced, Exchange, exchange, exchange_run, Implements}
use attachcloudip.Session.Refinement.{run-new_session-Implements}
use attachcloudip.Session.Draining.{turns, Drained, enough-le, run-Drained}
use attachcloudip.Session.Wire.{Wire, new_wire, WireMove, wire_run, as_move}
use attachcloudip.Session.Wire.Lines.{IsLine}
use attachcloudip.Session.Wire.Carrying.{wire_of, Lines, ReadsLines}
use attachcloudip.Session.Wire.Messages.{run-Lines, new_session-Lines}
use attachcloudip.Session.Wire.Refinement.{carry_run, new_wire_of}

-- What was read and what is still to be read is one confirmation and one acknowledgement for each
-- heartbeat that was sent.
pub record WireDrained (w t : Wire) : Type 0 where
  pub heartbeats : ℕ
  pub sent : length w.program.sent ≡ suc heartbeats
  pub nothing_waits : t.to_server ≡ []
  pub answers :
      concat t.program.delivered ++ t.to_client
      ≡ concat (line (codes "registered") ∷ replicate heartbeats (line (codes "heartbeat-ack")))

WireDrained-of_Drained : (s t : Session) → Drained s t → WireDrained (wire_of s) (wire_of t)
WireDrained-of_Drained s t d = record {
  heartbeats = d.heartbeats;
  sent = d.sent;
  nothing_waits = ap concat d.nothing_waits;
  answers = sym (concat-append t.program.delivered t.to_client) ∙ ap concat d.answers;
}

-- Each line has its line break.
count-line : (x : Text) → IsLine x → 1 ≤ count newline x
unfolding count
count-line x h =
    omega (arith, ap (count newline) h.ends, count-append newline h.start (newline ∷ []))

length-lines : (l : List Text) → All IsLine l → length l ≤ count newline (concat l)
unfolding count
length-lines [] h = omega arith
length-lines (x ∷ xs) h =
    omega (arith, count-line x h.0, length-lines xs h.1, count-append newline x (concat xs))

drain_from :
    (conn now n : ℕ) (id path : Text) (s : Session) (x : Exchange) (zs : List WireMove)
    → IsField id
    → IsField path
    → Lacks newline path
    → Implements conn id path s x
    → Lines s
    → map as_move zs ≡ turns now n
    → ReadsLines conn (wire_of s) zs
    → count newline (concat s.to_server) < n
    → WireDrained (wire_of s) (wire_run conn (wire_of s) zs)
drain_from conn now n id path s x zs f g k r lines same reads more =
    subst (WireDrained (wire_of s))
      (sym (carry_run conn s zs lines reads ∙ ap (λ ys. wire_of (run conn s ys)) same))
      (WireDrained-of_Drained s (run conn s (turns now n)) (
        run-Drained conn id path f g k now n s x r (
          omega (
            arith,
            enough-le conn id path f g k s x r,
            length-lines s.to_server lines.incoming,
            more,
          ))))

-- From every state that client and handler reach, where every read gave exactly one line, for a
-- client whose ID and path are fields on one line: when the handler takes more turns, each with a read
-- of one line if there is one, than line breaks are on their way to it, nothing waits, and what the
-- client has read and will read is its confirmation and one acknowledgement for each heartbeat that
-- it has sent.
pub wire_run-drains :
    (conn now n : ℕ) (c : Client) (m : TcpManager) (ys zs : List WireMove)
    → IsField c.id
    → IsField c.path
    → Lacks newline c.id
    → Lacks newline c.path
    → ReadsLines conn (new_wire c m) ys
    → map as_move zs ≡ turns now n
    → ReadsLines conn (wire_run conn (new_wire c m) ys) zs
    → count newline (wire_run conn (new_wire c m) ys).to_server < n
    → WireDrained
        (wire_run conn (new_wire c m) ys)
        (wire_run conn (wire_run conn (new_wire c m) ys) zs)
wire_run-drains conn now n c m ys zs f g h k reads same =
    subst
      (λ (w : Wire).
        ReadsLines conn w zs → count newline w.to_server < n → WireDrained w (wire_run conn w zs))
      (sym carried)
      (drain_from conn now n c.id c.path (run conn (new_session c m) (map as_move ys))
        (exchange_run (exchange announced 0 0) (map as_move ys)) zs f g k
        (run-new_session-Implements conn c m (map as_move ys) f g k)
        (run-Lines conn (new_session c m) (map as_move ys) first) same)
  where
    first : Lines (new_session c m)
    first = new_session-Lines c m h k

    carried :
        wire_run conn (new_wire c m) ys ≡ wire_of (run conn (new_session c m) (map as_move ys))
    carried =
        ap (λ w. wire_run conn w ys) (new_wire_of c m)
        ∙ carry_run conn (new_session c m) ys first
            (subst (λ w. ReadsLines conn w ys) (new_wire_of c m) reads)
