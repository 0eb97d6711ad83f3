-- ===== src/TcpManager/Examples.antt =====
-- The TCP manager of cmd/server/tcpmanager.go at single states.

use attachcloudip.Common.{
  ◌≡◌, ◌≢◌, refl, List, [], ◌∷◌, true, none, some, contains, ◌==◌, if◌then◌else◌, nat_eq, arith,
  inl, inr, Bool-cases,
}
use attachcloudip.Common.Map.{lookup, insert}
use attachcloudip.Common.Text.{Text, codes, text_eq, text_beq, text_beq_iff}
use attachcloudip.Strings.{is_space, trim_space, trim_left_func, trim_right_func, cons_trimmed}
use attachcloudip.Strings.Parts.{split, cons_first, remove_all}
use attachcloudip.TcpManager.{
  ClientInfo, new_tcp_manager, register_client, parse_registration, from_parts, handle_client,
  first_message, next_message, serving, received, written, read_failed, send_message_to_client,
}
use attachcloudip.TcpManager.Table.{entry}
use attachcloudip.TcpManager.System.{
  System, new_system, run, move, handle, handle_incoming, resume, Move, accepts, answers,
}
use attachcloudip.TcpManager.Serving.{Inv, run-new_system-Inv}
use attachcloudip.TcpManager.Handlers.{stale_handler-drops}
use attachcloudip.TcpManager.Messages.{Visits, Delivers, send_message_to_client-Delivers}

-- A client that registers on connection 1, and again, with the same ID, on connection 2.
abbrev moves : List Move
moves =
    accepts (some 1)
    ∷ answers 1 10 (received (codes "c1|/api"))
    ∷ answers 1 11 written
    ∷ accepts none
    ∷ accepts (some 2)
    ∷ answers 2 20 (received (codes "c1|/api"))
    ∷ answers 2 21 written
    ∷ []

run-new_system-Inv_example : Inv (run new_system moves)
run-new_system-Inv_example = run-new_system-Inv moves

-- Its line names what a proof by evaluation sees through.
twice : System
unfolding run move handle handle_incoming resume new_system new_tcp_manager lookup insert
    handle_client first_message next_message parse_registration from_parts register_client split
    cons_first remove_all trim_space trim_left_func trim_right_func cons_trimmed is_space text_beq
    contains
twice = run new_system moves

old_handler : lookup 1 twice.handlers ≡ some (serving (codes "c1"))
unfolding twice
old_handler = refl

new_entry :
    lookup (codes "c1") twice.manager.clients ≡ some (entry (codes "c1") (codes "/api") 2 20)
unfolding twice
new_entry = refl

stale_handler-drops_example :
    (lookup (codes "c1") (handle twice 1 30 read_failed).manager.clients ≡ none)
    × (contains (handle twice 1 30 read_failed).manager.closed 2 ≡ true)
    × (lookup 2 (handle twice 1 30 read_failed).handlers ≡ lookup 2 twice.handlers)
stale_handler-drops_example =
    stale_handler-drops twice 1 30 (codes "c1") (entry (codes "c1") (codes "/api") 2 20) old_handler
      new_entry (ground arith)

none_not_some : {c : ClientInfo} → none ≢ some c
none_not_some e = cc

table :
    (id : Text)
    → lookup id (run new_system moves).manager.clients
      ≡ (if codes "c1" == id then some (entry (codes "c1") (codes "/api") 2 20) else none)
unfolding twice
table id = refl

c1_Visits : Visits (run new_system moves).manager (codes "c1" ∷ [])
c1_Visits id c e = elim (Bool-cases (codes "c1" == id)) [
  | inl h ↦ inl ((text_beq_iff (codes "c1") id).0 h)
  | inr h ↦ absurd (none_not_some {c = c} (ground (arith, h, e, table id)))
]

send_message_to_client-Delivers_example :
    Delivers
      (run new_system moves).manager
      (λ _ _. true)
      (codes "/api")
      (codes "hi")
      (send_message_to_client
        (run new_system moves).manager
        (codes "c1" ∷ [])
        (λ _ _. true)
        (codes "/api")
        (codes "hi"))
send_message_to_client-Delivers_example =
    send_message_to_client-Delivers (run new_system moves) run-new_system-Inv_example
      (codes "c1" ∷ []) c1_Visits (λ _ _. true) (codes "/api") (codes "hi")
