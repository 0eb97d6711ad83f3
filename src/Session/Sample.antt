-- ===== src/Session/Sample.antt =====
-- A session of cmd/client/main.go with cmd/server: the client registers, sends a heartbeat and reads.
use attachcloudip.Common.{refl, List, [], ◌∷◌, some, arith, nat_eq}
use attachcloudip.Common.Map.{lookup, insert}
use attachcloudip.Common.Text.{codes, text_eq, text_beq}
use attachcloudip.Strings.{is_space, trim_space, trim_left_func, trim_right_func, cons_trimmed}
use attachcloudip.Strings.Parts.{split, cons_first, remove_all}
use attachcloudip.TcpManager.{
  new_tcp_manager, handle_client, first_message, next_message, parse_registration, from_parts,
  register_client,
}
use attachcloudip.TcpManager.Registration.{IsField}
use attachcloudip.Client.{Client, registration_message}
use attachcloudip.Client.Program.{new_program, confirm_reads, receiver_reads, tick, line}
use attachcloudip.Session.{
  Session, new_session, Move, ticks, receiver_gets, server_gets, server_puts, move, run,
  server_read, server_write, advance, answer, reply, confirm_read, receiver_read, client_tick,
}

abbrev pub client : Client
client = record {
  id = codes "u1";
  tcp_conn = some 1;
  tcp_port = 9998;
  server_host = codes "localhost";
  path = codes "/a";
}

pub u1_IsField : IsField (codes "u1")
unfolding is_space
u1_IsField = record {
  filled = λ e. cc;
  trimmed = record { starts = refl; ends = refl };
  no_bar = omega arith;
}

pub a_IsField : IsField (codes "/a")
unfolding is_space
a_IsField = record {
  filled = λ e. cc;
  trimmed = record { starts = refl; ends = refl };
  no_bar = omega arith;
}

abbrev pub moves : List Move
moves = server_gets 5 ∷ server_puts 5 ∷ ticks ∷ receiver_gets ∷ []

-- Its line names what a proof by evaluation sees through.
unfoldable pub sample : Session
unfolding run move new_session new_program server_read server_write advance answer reply
    confirm_read receiver_read client_tick confirm_reads receiver_reads tick line handle_client
    first_message next_message parse_registration from_parts register_client registration_message
    split cons_first remove_all trim_space trim_left_func trim_right_func cons_trimmed is_space
    text_beq insert lookup new_tcp_manager
sample = run 1 (new_session client new_tcp_manager) moves
