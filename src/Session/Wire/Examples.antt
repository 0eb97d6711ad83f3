-- ===== src/Session/Wire/Examples.antt =====
-- A session over TCP: the client registers, sends a heartbeat and reads, and gets a message.
use attachcloudip.Common.{
  sym, ◌≡◌, ◌≢◌, refl, [], ◌∷◌, ◌++◌, true, none, some, arith, ok, nat_eq, Bool-cases, inl, inr,
  ◌==◌, if◌then◌else◌, List, ◌<◌, map, count,
}
use attachcloudip.Common.Map.{lookup, insert}
use attachcloudip.Common.Text.{codes, text_eq, Text, text_beq_iff, text_beq}
use attachcloudip.Strings.{trim_space, is_space, trim_left_func, trim_right_func, cons_trimmed}
use attachcloudip.TcpManager.{
  new_tcp_manager, ClientInfo, awaiting, newline, send_message_to_client, handle_client,
  first_message, next_message, parse_registration, from_parts, register_client,
}
use attachcloudip.Client.Program.{receiver_reads, new_program, tick, line}
use attachcloudip.TcpManager.Table.{entry}
use attachcloudip.TcpManager.Messages.{Visits}
use attachcloudip.Strings.Parts.{split, cons_first, remove_all}
use attachcloudip.Client.{registration_message}
use attachcloudip.Session.{reply}
use attachcloudip.Session.Sample.{client, u1_IsField, a_IsField}
use attachcloudip.Session.Exchange.{announced, exchange, exchange_run}
use attachcloudip.Session.Messaging.{Alone}
use attachcloudip.Session.Wire.{
  Wire, new_wire, WireMove, beats, receiver_takes, server_takes, server_replies, wire_move,
  wire_run, wire_tick, wire_receiver_read, wire_server_read, wire_server_write, wire_advance,
  wire_answer, as_move,
}
use attachcloudip.Session.Wire.Carrying.{ReadsLines}
use attachcloudip.Session.Wire.Refinement.{WireImplements, wire_run-WireImplements}
use attachcloudip.Session.Wire.Messaging.{wire_run-sends}
use attachcloudip.Session.Wire.Draining.{WireDrained, wire_run-drains}

abbrev moves : List WireMove
moves = server_takes 5 100 ∷ server_replies 5 ∷ beats ∷ receiver_takes 100 ∷ []

-- Its line names what a proof by evaluation sees through.
wire_sample : Wire
unfolding wire_run wire_move new_wire wire_tick wire_receiver_read wire_server_read
    wire_server_write wire_advance wire_answer new_program reply receiver_reads tick line
    handle_client first_message next_message parse_registration from_parts register_client
    registration_message split cons_first remove_all trim_space trim_left_func trim_right_func
    cons_trimmed is_space text_beq insert lookup new_tcp_manager count
wire_sample = wire_run 1 (new_wire client new_tcp_manager) moves

moves_read : ReadsLines 1 (new_wire client new_tcp_manager) moves
unfolding wire_sample
moves_read = (
  record { start = codes "u1|/a"; ends = refl; one = omega arith },
  (tt, (tt, (record { start = codes "registered"; ends = refl; one = omega arith }, tt))),
)

wire_run-WireImplements_example :
    WireImplements 1
      (codes "u1")
      (codes "/a")
      (wire_run 1 (new_wire client new_tcp_manager) moves)
      (exchange_run (exchange announced 0 0) (map as_move moves))
wire_run-WireImplements_example =
    wire_run-WireImplements 1 client new_tcp_manager moves u1_IsField a_IsField (omega arith)
      (omega arith) moves_read

-- The handler reads the heartbeat, and then nothing.
abbrev later : List WireMove
later = server_takes 6 100 ∷ server_replies 6 ∷ server_takes 6 100 ∷ server_replies 6 ∷ []

later_read : ReadsLines 1 (wire_run 1 (new_wire client new_tcp_manager) moves) later
unfolding wire_sample
later_read =
    (record { start = codes "heartbeat"; ends = refl; one = omega arith }, (tt, (tt, (tt, tt))))

one_waits : count newline (wire_run 1 (new_wire client new_tcp_manager) moves).to_server < 2
unfolding wire_sample
one_waits = omega arith

wire_run-drains_example :
    WireDrained
      (wire_run 1 (new_wire client new_tcp_manager) moves)
      (wire_run 1 (wire_run 1 (new_wire client new_tcp_manager) moves) later)
wire_run-drains_example =
    wire_run-drains 1 6 2 client new_tcp_manager moves later u1_IsField a_IsField (omega arith)
      (omega arith) moves_read refl later_read one_waits

handler_serves : (wire_run 1 (new_wire client new_tcp_manager) moves).phase ≢ awaiting
unfolding wire_sample
handler_serves e = cc

table :
    (id : Text)
    → lookup id (wire_run 1 (new_wire client new_tcp_manager) moves).manager.clients
      ≡ (if codes "u1" == id then some (entry (codes "u1") (codes "/a") 1 5) else none)
unfolding wire_sample
table id = refl

none_not_some : {c : ClientInfo} → none ≢ some c
none_not_some e = cc

u1_Visits : Visits (wire_run 1 (new_wire client new_tcp_manager) moves).manager (codes "u1" ∷ [])
u1_Visits id c e = elim (Bool-cases (codes "u1" == id)) [
  | inl h ↦ inl ((text_beq_iff (codes "u1") id).0 h)
  | inr h ↦ absurd (none_not_some {c = c} (ground (arith, h, e, table id)))
]

u1_Alone :
    Alone (wire_run 1 (new_wire client new_tcp_manager) moves).manager (codes "u1") (codes "/a")
u1_Alone id c e at = elim (Bool-cases (codes "u1" == id)) [
  | inl h ↦ sym ((text_beq_iff (codes "u1") id).0 h)
  | inr h ↦ absurd (none_not_some {c = c} (ground (arith, h, e, table id)))
]

no_acknowledgement : trim_space (codes "hi") ≢ codes "heartbeat-ack"
unfolding wire_sample
no_acknowledgement e = cc

wire_run-sends_example :
    (send_message_to_client
        (wire_run 1 (new_wire client new_tcp_manager) moves).manager
        (codes "u1" ∷ [])
        (λ _ _. true)
        (codes "/a")
        (codes "hi")
      ≡ ok (1, codes "hi" ++ newline ∷ []))
    × ((receiver_reads
          (wire_run 1 (new_wire client new_tcp_manager) moves).program
          (some (codes "hi" ++ newline ∷ []))
          (wire_run 1 (new_wire client new_tcp_manager) moves).program.receiving).logged
        ≡ (wire_run 1 (new_wire client new_tcp_manager) moves).program.logged
          ++ trim_space (codes "hi") ∷ [])
wire_run-sends_example =
    wire_run-sends 1 client new_tcp_manager moves (codes "u1" ∷ []) (λ _ _. true) (codes "hi")
      u1_IsField a_IsField (omega arith) (omega arith) moves_read handler_serves u1_Visits u1_Alone
      refl no_acknowledgement
