-- ===== src/Service/Ports/Allocation.antt =====
-- Which port `AllocatePort` returns, and when it fails.
use attachcloudip.Common.{
  ℕ, zero, suc, ◌+◌, ◌-◌, ◌≤◌, ◌<◌, ◌≡◌, refl, inl, inr, true, false, Result, ok, err,
  if◌then◌else◌, arith, Bool-cases, ◌==◌, nat_beq_iff, nat_eq,
}
use mathlib.Core.Path.{subst}
use attachcloudip.Common.Map.{insert, lookup_or-insert}
use attachcloudip.Service.Ports.{
  PortManager, Error, is_taken, first_port, port_limit, scan, allocate_port,
}

-- `p` is the first free port from `lo` on and lies below `hi`, and `after` has it taken.
pub record IsFirst (lo hi : ℕ) (pm : PortManager) (p : ℕ) (after : PortManager) : Type 0 where
  pub above : lo ≤ p
  pub below : p < hi
  pub was_free : is_taken pm p ≡ false
  pub least : (q : ℕ) → lo ≤ q → q < p → is_taken pm q ≡ true
  pub marked : (q : ℕ) → is_taken after q ≡ (if p == q then true else is_taken pm q)

abbrev pub IsExhausted : ℕ → ℕ → PortManager → Type 0
IsExhausted lo hi pm = (q : ℕ) → lo ≤ q → q < hi → is_taken pm q ≡ true

abbrev pub Allocates : ℕ → ℕ → PortManager → Result Error ℕ × PortManager → Type 0
Allocates lo hi pm (ok p, after) = IsFirst lo hi pm p after
Allocates lo hi pm (err e, after) = IsExhausted lo hi pm × (after ≡ pm)

scan_here :
    (lo hi : ℕ) (pm : PortManager)
    → lo < hi
    → is_taken pm lo ≡ false
    → IsFirst lo hi pm lo (record { ports = insert lo true pm.ports })
scan_here lo hi pm h free = record {
  above = omega arith;
  below = h;
  was_free = free;
  least = λ q a b. absurd (omega arith);
  marked = λ q. lookup_or-insert lo q true false pm.ports;
}

-- A fact about the ports from `lo + 1` on, with the one about `lo`.
from_next :
    (pm : PortManager) (lo p : ℕ)
    → is_taken pm lo ≡ true
    → ((q : ℕ) → lo + 1 ≤ q → q < p → is_taken pm q ≡ true)
    → (q : ℕ) → lo ≤ q
    → q < p
    → is_taken pm q ≡ true
from_next pm lo p busy f q a b = elim (Bool-cases (lo == q)) [
  | inl same ↦ subst (λ (x : ℕ). is_taken pm x ≡ true) ((nat_beq_iff lo q).0 same) busy
  | inr other ↦ f q (ground arith) b
]

scan_later :
    (lo hi : ℕ) (pm : PortManager) (r : Result Error ℕ × PortManager)
    → is_taken pm lo ≡ true
    → Allocates (lo + 1) hi pm r
    → Allocates lo hi pm r
scan_later lo hi pm (ok p, after) busy f = record {
  above = omega arith;
  below = f.below;
  was_free = f.was_free;
  least = λ q a b. from_next pm lo p busy f.least q a b;
  marked = f.marked;
}
scan_later lo hi pm (err e, after) busy f = (from_next pm lo hi busy f.0, f.1)

scan-Allocates :
    (rounds lo hi : ℕ) (pm : PortManager)
    → lo + rounds ≡ hi
    → Allocates lo hi pm (scan rounds lo pm)
unfolding scan
scan-Allocates zero lo hi pm h = (λ q a b. absurd (omega arith), refl)
scan-Allocates (suc rounds) lo hi pm h = elim (Bool-cases (is_taken pm lo)) [
  | inl busy ↦
      rw busy (scan_later lo hi pm _ busy (scan-Allocates rounds (lo + 1) hi pm (omega arith)))
  | inr free ↦ rw free (scan_here lo hi pm (omega arith) free)
]

-- `AllocatePort` returns the first free port from 1024 to 65535 and takes that one alone. It fails
-- exactly if all of these are taken, and then it changes nothing.
pub allocate_port-Allocates :
    (pm : PortManager) → Allocates first_port port_limit pm (allocate_port pm)
unfolding allocate_port
allocate_port-Allocates pm =
    scan-Allocates (port_limit - first_port) first_port port_limit pm (omega arith)

-- While a port of the range is free, `AllocatePort` succeeds.
allocate_port_total :
    (pm : PortManager) (q : ℕ)
    → first_port ≤ q
    → q < port_limit
    → is_taken pm q ≡ false
    → (p : ℕ) × ((allocate_port pm).0 ≡ ok p) × (p ≤ q)
allocate_port_total pm q a b free = by_result (allocate_port pm) (allocate_port-Allocates pm)
  where
    by_result :
        (r : Result Error ℕ × PortManager)
        → Allocates first_port port_limit pm r
        → (p : ℕ) × (r.0 ≡ ok p) × (p ≤ q)
    by_result (ok p, after) f = (p, refl, ground (arith, f.least q))
    by_result (err e, after) f = cc (f.0 q a b, free)
