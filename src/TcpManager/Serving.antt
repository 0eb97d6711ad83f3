-- ===== src/TcpManager/Serving.antt =====
-- The client table through any sequence of steps of the accept loop and the handlers.
use attachcloudip.Common.{
  ℕ, ◌≡◌, ap, List, [], ◌∷◌, Option, none, some, ◌==◌, nat_eq, Option-cases, inl, inr, Bool-cases,
  sym,
}
use attachcloudip.Common.Map.{Map, lookup, insert}
use attachcloudip.Common.Text.{Text, codes, text_eq}
use attachcloudip.Strings.{trim_space}
use attachcloudip.TcpManager.{
  TcpManager, handle_client, first_message, next_message, give_up, leave, remove_client, Phase,
  awaiting, confirming, serving, acking, finished, Event, received, read_failed, written,
  write_failed, parse_registration,
}
use attachcloudip.TcpManager.Agree.{
  Agree, Agree-new, Agree-phase, Agree-close, Agree-remove, Agree-register, Agree-update,
  registered_as, is_past, unlisted, remove_client-unlisted,
}
use attachcloudip.TcpManager.System.{
  System, new_system, handle_incoming, resume, handle, Move, accepts, answers, move, run,
}

abbrev Keeps : ℕ → Map ℕ Phase → Option (TcpManager × Phase) → Type 0
Keeps conn handlers none = Unit
Keeps conn handlers (some (m, phase)) = Agree m (insert conn phase handlers)

module _ (m : TcpManager) (handlers : Map ℕ Phase) (a : Agree m handlers) (conn now : ℕ) where
  give_up-Keeps :
      (id : Text)
      → registered_as (lookup conn handlers) ≡ some id
      → Keeps conn handlers (give_up m conn id)
  unfolding give_up leave
  give_up-Keeps id e =
      Agree-close (remove_client m id) handlers (Agree-remove m handlers a id) conn
        (λ i c. remove_client-unlisted m handlers a conn id i c e)

  first_message-Keeps :
      (answer : Option (Text × Text))
      → lookup conn handlers ≡ some awaiting
      → Keeps conn handlers (first_message m conn now answer)
  unfolding first_message leave registered_as
  first_message-Keeps none e =
      Agree-close m handlers a conn (λ i c. unlisted m handlers a conn i c (ap registered_as e))
  first_message-Keeps (some (id, path)) e = Agree-register m handlers a conn now id path e

  next_message-Keeps :
      (id message : Text)
      → lookup conn handlers ≡ some (serving id)
      → Keeps conn handlers (next_message m id now message)
  unfolding next_message registered_as is_past
  next_message-Keeps id message e = elim (Bool-cases (message == codes "heartbeat")) [
    | inl h ↦
        rw (h, next_message)
          (Agree-phase _ handlers (Agree-update m handlers a id now) conn (acking id)
            (sym (ap registered_as e)) (sym (ap is_past e)))
    | inr h ↦
        rw (h, next_message)
          (Agree-phase m handlers a conn (serving id) (sym (ap registered_as e))
            (sym (ap is_past e)))
  ]

  handle_client-Keeps :
      (phase : Phase) (event : Event)
      → lookup conn handlers ≡ some phase
      → Keeps conn handlers (handle_client m conn now phase event)
  unfolding handle_client registered_as is_past
  handle_client-Keeps awaiting (received text) e = first_message-Keeps (parse_registration text) e
  handle_client-Keeps awaiting read_failed e = first_message-Keeps none e
  handle_client-Keeps awaiting written e = tt
  handle_client-Keeps awaiting write_failed e = tt
  handle_client-Keeps (confirming id) written e =
      Agree-phase m handlers a conn (serving id) (sym (ap registered_as e)) (sym (ap is_past e))
  handle_client-Keeps (confirming id) write_failed e = give_up-Keeps id (ap registered_as e)
  handle_client-Keeps (confirming id) (received text) e = tt
  handle_client-Keeps (confirming id) read_failed e = tt
  handle_client-Keeps (serving id) (received text) e = next_message-Keeps id (trim_space text) e
  handle_client-Keeps (serving id) read_failed e = give_up-Keeps id (ap registered_as e)
  handle_client-Keeps (serving id) written e = tt
  handle_client-Keeps (serving id) write_failed e = tt
  handle_client-Keeps (acking id) written e =
      Agree-phase m handlers a conn (serving id) (sym (ap registered_as e)) (sym (ap is_past e))
  handle_client-Keeps (acking id) write_failed e = give_up-Keeps id (ap registered_as e)
  handle_client-Keeps (acking id) (received text) e = tt
  handle_client-Keeps (acking id) read_failed e = tt
  handle_client-Keeps finished event e = tt

abbrev pub Inv : System → Type 0
Inv s = Agree s.manager s.handlers

handle_incoming-Inv : (s : System) (answer : Option ℕ) → Inv s → Inv (handle_incoming s answer)
unfolding handle_incoming registered_as is_past
handle_incoming-Inv s none v = v
handle_incoming-Inv s (some conn) v = elim (Option-cases (lookup conn s.handlers)) [
  | inl missing ↦
      rw (missing, handle_incoming)
        (Agree-phase s.manager s.handlers v conn awaiting (sym (ap registered_as missing))
          (sym (ap is_past missing)))
  | inr (phase, e) ↦ rw (e, handle_incoming) v
]

resume-Inv :
    (s : System) (conn : ℕ) (o : Option (TcpManager × Phase))
    → Inv s
    → Keeps conn s.handlers o
    → Inv (resume s conn o)
unfolding resume
resume-Inv s conn none v h = v
resume-Inv s conn (some (m, phase)) v h = h

handle-Inv : (s : System) (conn now : ℕ) (event : Event) → Inv s → Inv (handle s conn now event)
unfolding handle
handle-Inv s conn now event v = elim (Option-cases (lookup conn s.handlers)) [
  | inl missing ↦ rw (missing, handle) v
  | inr (phase, e) ↦
      rw (e, handle)
        (resume-Inv s conn (handle_client s.manager conn now phase event) v
          (handle_client-Keeps s.manager s.handlers v conn now phase event e))
]

move-Inv : (s : System) (x : Move) → Inv s → Inv (move s x)
unfolding move
move-Inv s (accepts answer) v = handle_incoming-Inv s answer v
move-Inv s (answers conn now event) v = handle-Inv s conn now event v

run-Inv : (s : System) (xs : List Move) → Inv s → Inv (run s xs)
unfolding run
run-Inv s [] v = v
run-Inv s (x ∷ xs) v = run-Inv (move s x) xs (move-Inv s x v)

-- After any sequence of accepts and handlers' steps, a client in the table stands under its own ID,
-- the handler of its connection has registered it under that ID and has not ended, and the connection
-- has not been closed; a connection that was closed is never one that still waits for its first
-- message.
pub run-new_system-Inv : (xs : List Move) → Inv (run new_system xs)
unfolding new_system
run-new_system-Inv xs = run-Inv new_system xs Agree-new
