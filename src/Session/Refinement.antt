-- ===== src/Session/Refinement.antt =====
-- A session of cmd/client/main.go and cmd/server/tcpmanager.go implements the machine that counts.
use attachcloudip.Common.{ℕ, refl, List, [], ◌∷◌, nat_eq}
use attachcloudip.Common.Text.{Text, text_eq}
use attachcloudip.Strings.Parts.{Lacks}
use attachcloudip.TcpManager.{TcpManager, newline}
use attachcloudip.TcpManager.Registration.{IsField}
use attachcloudip.Client.{Client}
use attachcloudip.Client.Program.{new_program}
use attachcloudip.Session.{
  Session, new_session, Move, ticks, confirm_gets, receiver_gets, server_gets, server_puts, move,
  run,
}
use attachcloudip.Session.Exchange.{
  announced, Exchange, exchange, exchange_tick, exchange_move, exchange_run, Implements,
}
use attachcloudip.Session.ClientSteps.{
  client_tick-Agrees, confirm_read-Agrees, receiver_read-Agrees,
}
use attachcloudip.Session.ServerSteps.{server_read-Implements, server_write-Implements}

module _ (conn : ℕ) (id path : Text) (f : IsField id) (g : IsField path)
    (h : Lacks newline path) where
  pub move-Implements :
      (s : Session) (x : Exchange) (y : Move)
      → Implements conn id path s x
      → Implements conn id path (move conn s y) (exchange_move x y)
  unfolding move exchange_move exchange_tick
  move-Implements s (exchange stage k a) ticks r = client_tick-Agrees conn id path s stage k a r
  move-Implements s (exchange stage k a) confirm_gets r =
      confirm_read-Agrees conn id path s s.program.confirmation s.to_client stage k a refl r
  move-Implements s (exchange stage k a) receiver_gets r =
      receiver_read-Agrees conn id path s s.program.receiving s.to_client stage k a refl r
  move-Implements s (exchange stage k a) (server_gets now) r =
      server_read-Implements conn now id path s f g h stage k a r
  move-Implements s (exchange stage k a) (server_puts now) r =
      server_write-Implements conn now id path s f g h stage k a r

  pub run-Implements :
      (s : Session) (x : Exchange) (ys : List Move)
      → Implements conn id path s x
      → Implements conn id path (run conn s ys) (exchange_run x ys)
  unfolding run exchange_run
  run-Implements s x [] r = r
  run-Implements s x (y ∷ ys) r =
      run-Implements (move conn s y) (exchange_move x y) ys (move-Implements s x y r)

-- A client whose ID and path are fields, the path on one line, on a connection that does not fail,
-- and the server's handler do, in any order of their steps, what the machine that counts does: the
-- registration is read first, and from then on the client stands in the table on its connection
-- under its path; the client gets one confirmation and then acknowledgements, each heartbeat that
-- is sent waits, is being answered or has its acknowledgement, and neither side ends.
pub run-new_session-Implements :
    (conn : ℕ) (c : Client) (m : TcpManager) (ys : List Move)
    → IsField c.id
    → IsField c.path
    → Lacks newline c.path
    → Implements conn c.id c.path
        (run conn (new_session c m) ys)
        (exchange_run (exchange announced 0 0) ys)
unfolding new_session new_program
run-new_session-Implements conn c m ys f g h =
    run-Implements conn c.id c.path f g h (new_session c m) (exchange announced 0 0) ys (record {
      phase = refl;
      to_server = refl;
      from_server = refl;
      counted = refl;
      unheard = refl;
      entered = tt;
      beating = refl;
      receiving = refl;
    })
