-- ===== src/Service/Ports/History.antt =====
-- The ports that are held after any history of allocations and releases.
use attachcloudip.Common.{
  ℕ, ◌≡◌, refl, false, List, [], ◌∷◌, Result, ok, err, if◌then◌else◌, arith, nat_beq_iff, nat_eq,
  count, erase, count-erase,
}
use attachcloudip.Common.Map.{lookup_or, lookup_or-insert}
use attachcloudip.Service.Ports.{
  PortManager, Error, is_taken, first_port, port_limit, allocate_port, release_port,
  new_port_manager,
}
use attachcloudip.Service.Ports.Allocation.{Allocates, allocate_port-Allocates}

pub data Call : Type 0 where
  allocates : Call
  releases : ℕ → Call

-- The manager, and the ports that its callers got and have not given back.
pub record History : Type 0 where
  pub manager : PortManager
  pub held : List ℕ

after_allocation : Result Error ℕ × PortManager → List ℕ → History
after_allocation (ok p, pm) held = record { manager = pm; held = p ∷ held }
after_allocation (err e, pm) held = record { manager = pm; held = held }

pub step : History → Call → History
unfolding after_allocation
step h allocates = after_allocation (allocate_port h.manager) h.held
step h (releases port) = record { manager = release_port h.manager port; held = erase port h.held }

pub run : History → List Call → History
run h [] = h
run h (c ∷ cs) = run (step h c) cs

abbrev pub start : History
start = record { manager = new_port_manager; held = [] }

-- A port is held once if it is taken, and by nobody otherwise.
abbrev pub Agrees : History → Type 0
Agrees h = (q : ℕ) → count q h.held ≡ (if is_taken h.manager q then 1 else 0)

allocation-Agrees :
    (h : History) (r : Result Error ℕ × PortManager)
    → Allocates first_port port_limit h.manager r
    → Agrees h
    → Agrees (after_allocation r h.held)
unfolding after_allocation count
allocation-Agrees h (ok p, pm) f a q = ground (arith, a q, f.marked q, f.was_free, nat_beq_iff p q)
allocation-Agrees h (err e, pm) f a q = rw (f.1) (a q)

step-Agrees : (h : History) (c : Call) → Agrees h → Agrees (step h c)
unfolding step release_port
step-Agrees h allocates a q = allocation-Agrees h _ (allocate_port-Allocates h.manager) a q
step-Agrees h (releases port) a q =
    ground
      (arith, a q, count-erase port q h.held, lookup_or-insert port q false false h.manager.ports)

run-Agrees : (h : History) (cs : List Call) → Agrees h → Agrees (run h cs)
unfolding run
run-Agrees h [] a = a
run-Agrees h (c ∷ cs) a = run-Agrees (step h c) cs (step-Agrees h c a)

start-Agrees : Agrees start
unfolding new_port_manager count lookup_or
start-Agrees q = refl

-- After any history of allocations and releases a port is held at most once, and it is held exactly
-- if the manager has it as taken.
pub run-start-Agrees :
    (cs : List Call) (q : ℕ)
    → count q (run start cs).held ≡ (if is_taken (run start cs).manager q then 1 else 0)
run-start-Agrees cs = run-Agrees start cs start-Agrees
