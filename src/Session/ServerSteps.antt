-- ===== src/Session/ServerSteps.antt =====
-- The handler's steps of a session, cmd/server/tcpmanager.go.
use mathlib.Core.Path.{subst}
use attachcloudip.Common.{
  ℕ, zero, suc, ◌≡◌, refl, sym, ap, ◌∙◌, [], ◌∷◌, ◌++◌, append_assoc, some, nat_eq, arith,
  replicate, replicate-snoc,
}
use attachcloudip.Common.Text.{Text, codes, text_eq, text_beq, text_beq_iff}
use attachcloudip.Strings.{trim_space, trim_left_func, trim_right_func, cons_trimmed, is_space}
use attachcloudip.Strings.Parts.{Lacks}
use attachcloudip.TcpManager.{
  TcpManager, newline, register_client, update_client_activity, first_message, next_message,
  handle_client, awaiting, confirming, serving, acking, received,
}
use attachcloudip.TcpManager.Table.{
  entry, touch, register_client-clients, update_client_activity-clients,
}
use attachcloudip.TcpManager.Registration.{IsField, parse_registration-registration_message}
use attachcloudip.Client.{registration_message}
use attachcloudip.Client.Program.{line, heartbeat_message}
use attachcloudip.Session.{Session, server_read, server_write, advance, reply}
use attachcloudip.Session.Exchange.{
  Stage, announced, recorded, idle, answering, exchange, exchange_read, exchange_write, phase_of,
  incoming, Entered, Agrees, Implements,
}

-- The messages as they are read.
heartbeat_trimmed : trim_space heartbeat_message ≡ codes "heartbeat"
unfolding heartbeat_message trim_space trim_left_func trim_right_func cons_trimmed is_space
heartbeat_trimmed = refl

-- The server's steps.
read_registration :
    (m : TcpManager) (conn now : ℕ) (id path : Text)
    → IsField id
    → IsField path
    → Lacks newline path
    → handle_client m conn now awaiting (received (registration_message id path))
      ≡ some (register_client m id path conn now, confirming id)
unfolding handle_client first_message
read_registration m conn now id path f g h =
    ap (first_message m conn now) (parse_registration-registration_message id path f g h)

read_heartbeat :
    (m : TcpManager) (conn now : ℕ) (id : Text)
    → handle_client m conn now (serving id) (received heartbeat_message)
      ≡ some (update_client_activity m id now, acking id)
unfolding handle_client next_message text_beq
read_heartbeat m conn now id = ap (next_message m id now) heartbeat_trimmed

Entered-register :
    (m : TcpManager) (conn now : ℕ) (id path : Text)
    → Entered conn id path (register_client m id path conn now) recorded
Entered-register m conn now id path = (
  entry id path conn now,
  ground (arith, register_client-clients m id path conn now id, text_beq_iff id id),
  refl,
  refl,
)

Entered-update :
    (m : TcpManager) (conn now : ℕ) (id path : Text)
    → Entered conn id path m idle
    → Entered conn id path (update_client_activity m id now) answering
Entered-update m conn now id path (c, e, same_conn, same_path) = (
  touch now c,
  ground (arith, update_client_activity-clients m id now id, e, text_beq_iff id id),
  same_conn,
  same_path,
)

module _ (conn now : ℕ) (id path : Text) (s : Session) (f : IsField id) (g : IsField path)
    (h : Lacks newline path) where
  read_stage :
      (stage : Stage) (k a : ℕ)
      → Agrees conn id path s stage k a
      → Implements conn id path
          (server_read conn now s
            (phase_of id stage)
            (incoming (registration_message id path) stage k))
          (exchange_read (exchange stage k a))
  unfolding server_read exchange_read handle_client
  read_stage announced k a r =
      subst (λ o. Agrees conn id path (advance s (replicate k heartbeat_message) o) recorded k a)
        (sym (read_registration s.manager conn now id path f g h))
        (record {
          phase = refl;
          to_server = refl;
          from_server = r.from_server;
          counted = omega (arith, r.counted);
          unheard = r.unheard;
          entered = Entered-register s.manager conn now id path;
          beating = r.beating;
          receiving = r.receiving;
        })
  read_stage recorded zero a r = r
  read_stage recorded (suc k) a r = r
  read_stage idle zero a r = r
  read_stage idle (suc k) a r =
      subst (λ o. Agrees conn id path (advance s (replicate k heartbeat_message) o) answering k a)
        (sym (read_heartbeat s.manager conn now id))
        (record {
          phase = refl;
          to_server = refl;
          from_server = r.from_server;
          counted = omega (arith, r.counted);
          unheard = r.unheard;
          entered = Entered-update s.manager conn now id path r.entered;
          beating = r.beating;
          receiving = r.receiving;
        })
  read_stage answering zero a r = r
  read_stage answering (suc k) a r = r

  pub server_read-Implements :
      (stage : Stage) (k a : ℕ)
      → Agrees conn id path s stage k a
      → Implements conn id path
          (server_read conn now s s.phase s.to_server)
          (exchange_read (exchange stage k a))
  server_read-Implements stage k a r =
      subst
        (λ p.
          Implements conn id path (server_read conn now s p s.to_server)
            (exchange_read (exchange stage k a)))
        (sym r.phase)
        (subst
          (λ l.
            Implements conn id path (server_read conn now s (phase_of id stage) l)
              (exchange_read (exchange stage k a)))
          (sym r.to_server) (read_stage stage k a r))

  write_stage :
      (stage : Stage) (k a : ℕ)
      → Agrees conn id path s stage k a
      → Implements conn id path
          (server_write conn now s (phase_of id stage) (reply (phase_of id stage)))
          (exchange_write (exchange stage k a))
  unfolding server_write exchange_write handle_client reply
  write_stage announced k a r = r
  write_stage idle k a r = r
  write_stage recorded k a r = record {
    phase = refl;
    to_server = r.to_server;
    from_server =
        sym (append_assoc s.program.delivered s.to_client (line (codes "registered") ∷ []))
        ∙ ap (λ l. l ++ line (codes "registered") ∷ []) r.from_server
        ∙ ap (λ n. line (codes "registered") ∷ replicate n (line (codes "heartbeat-ack")))
            (sym r.unheard);
    counted = omega (arith, r.counted);
    unheard = tt;
    entered = r.entered;
    beating = r.beating;
    receiving = r.receiving;
  }
  write_stage answering k a r = record {
    phase = refl;
    to_server = r.to_server;
    from_server =
        sym (append_assoc s.program.delivered s.to_client (line (codes "heartbeat-ack") ∷ []))
        ∙ ap (λ l. l ++ line (codes "heartbeat-ack") ∷ []) r.from_server
        ∙ ap (λ l. line (codes "registered") ∷ l) (replicate-snoc a (line (codes "heartbeat-ack")));
    counted = omega (arith, r.counted);
    unheard = tt;
    entered = r.entered;
    beating = r.beating;
    receiving = r.receiving;
  }

  pub server_write-Implements :
      (stage : Stage) (k a : ℕ)
      → Agrees conn id path s stage k a
      → Implements conn id path
          (server_write conn now s s.phase (reply s.phase))
          (exchange_write (exchange stage k a))
  server_write-Implements stage k a r =
      subst
        (λ p.
          Implements conn id path (server_write conn now s p (reply p))
            (exchange_write (exchange stage k a)))
        (sym r.phase) (write_stage stage k a r)
