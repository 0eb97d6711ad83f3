-- ===== src/Registry/Counters.antt =====
-- The port counter and the connection counters, as 64-bit words.
use attachcloudip.Common.{
  ℕ, zero, suc, ◌+◌, ◌-◌, ◌%◌, ◌≤◌, ◌<◌, ◌≡◌, refl, ap, List, [], ◌∷◌, false, if◌then◌else◌, ◌>>=◌,
  Outcome, returns, arith, nat_eq, nat_beq_iff, count, ltb, length,
}
use attachcloudip.Common.Text.{text_eq}
use attachcloudip.Common.Words.{word_size, increment}
use attachcloudip.Registry.{Registry, get_next_tcp_port, take_port}

-- `n` calls of `GetNextTCPPort`, with the ports in the order of the calls.
next_ports : ℕ → Registry → Outcome (List ℕ × Registry)
next_ports zero r = returns ([], r)
next_ports (suc n) r = do
  (port, r') ← get_next_tcp_port r
  (ports, r'') ← next_ports n r'
  returns (port ∷ ports, r'')

-- The words from `start` on, around the end of the range.
pub counted : ℕ → ℕ → List ℕ
counted zero start = []
counted (suc n) start = start ∷ counted n (increment start)

get_next_tcp_port_lem :
    (r : Registry)
    → r.mu ≡ false
    → get_next_tcp_port r ≡ returns (r.available_tcp_port, take_port r)
unfolding get_next_tcp_port
get_next_tcp_port_lem r e = ground (arith, e)

next_ports-counted :
    (n : ℕ) (r : Registry)
    → r.mu ≡ false
    → (r' : Registry) × (next_ports n r ≡ returns (counted n r.available_tcp_port, r'))
unfolding next_ports counted take_port
next_ports-counted zero r e = (r, refl)
next_ports-counted (suc n) r e =
    let (r', f) = next_ports-counted n (take_port r) e in (r', rw (get_next_tcp_port_lem r e, f))

count-counted :
    (n start p : ℕ)
    → start < word_size
    → p < word_size
    → n ≤ word_size
    → count p (counted n start) ≡ (if ltb ((p + word_size - start) % word_size) n then 1 else 0)
unfolding counted count increment
count-counted zero start p h k l = ground arith
count-counted (suc n) start p h k l =
    ground (arith, count-counted n ((start + 1) % word_size) p, nat_beq_iff start p)

length-counted : (n start : ℕ) → length (counted n start) ≡ n
unfolding counted
length-counted zero start = refl
length-counted (suc n) start = ap suc (length-counted n (increment start))

-- Calls of `GetNextTCPPort` in a row return consecutive words, all different up to 2 ^ 64 calls.
next_ports-distinct :
    (n : ℕ) (r : Registry)
    → r.mu ≡ false
    → r.available_tcp_port < word_size
    → n ≤ word_size
    → (ports : List ℕ) × (r' : Registry) × (next_ports n r ≡ returns (ports, r'))
      × (length ports ≡ n)
      × ((p : ℕ) → p < word_size → count p ports ≤ 1)
next_ports-distinct n r e h k =
    let (r', f) = next_ports-counted n r e in
    (
      counted n r.available_tcp_port,
      r',
      f,
      length-counted n r.available_tcp_port,
      λ p l. ground (arith, count-counted n r.available_tcp_port p h l k),
    )
