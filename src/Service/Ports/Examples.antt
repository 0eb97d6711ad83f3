-- ===== src/Service/Ports/Examples.antt =====
-- The port manager at single histories.
use attachcloudip.Common.{◌≡◌, refl, true, false, [], ◌∷◌, ok, if◌then◌else◌, count, nat_eq}
use attachcloudip.Common.Map.{lookup_or, insert}
use attachcloudip.Service.Ports.{
  PortManager, is_taken, first_port, port_limit, allocate_port, new_port_manager, scan,
}
use attachcloudip.Service.Ports.Allocation.{Allocates, allocate_port-Allocates}
use attachcloudip.Service.Ports.History.{allocates, releases, run, start, run-start-Agrees}

abbrev two_taken : PortManager
two_taken = record { ports = (1024, true) ∷ (1025, true) ∷ (1026, false) ∷ [] }

first_allocations : (allocate_port new_port_manager).0 ≡ ok 1024
unfolding allocate_port scan new_port_manager lookup_or
first_allocations = refl

second_allocation : (allocate_port (allocate_port new_port_manager).1).0 ≡ ok 1025
unfolding allocate_port scan new_port_manager lookup_or insert
second_allocation = refl

allocate_port-Allocates_example :
    Allocates first_port port_limit two_taken (allocate_port two_taken)
allocate_port-Allocates_example = allocate_port-Allocates two_taken

run-start-Agrees_example :
    count 1024 (run start (allocates ∷ releases 1024 ∷ allocates ∷ [])).held ≡ (
      if is_taken (run start (allocates ∷ releases 1024 ∷ allocates ∷ [])).manager 1024
      then 1
      else 0)
run-start-Agrees_example = run-start-Agrees (allocates ∷ releases 1024 ∷ allocates ∷ []) 1024
