-- ===== src/Mtu/Search.antt =====
-- What the binary search of `MtuDiscovery` finds, gbnet/src/fragment.rs.
use gbnet.Prelude.{
  ℕ, zero, suc, ◌+◌, ◌^◌, ◌≤◌, ◌<◌, ◌≡◌, false, none, some, arith, leb, if◌then◌else◌,
}
use native.Mathlib.Nat.{pow-suc, zero-add, suc-add}
use gbnet.Mtu.{
  MtuDiscovery, complete, new, next_probe, on_probe_success, on_probe_timeout, check_probe_timeout,
  is_waiting, default_max_probe_attempts,
}

-- A caller that waits out the timeout between probes, over a path that carries `path` bytes: a
-- probe that fits is answered, and one that does not is reported as timed out.
unfoldable pub round : ℕ → MtuDiscovery → ℕ → MtuDiscovery
round path m now =
    let (m', probe) = next_probe m now in
    elim probe [
      | none ↦ m'
      | some size ↦ if leb size path then on_probe_success m' size else on_probe_timeout m'
    ]

unfoldable pub rounds : ℕ → ℕ → MtuDiscovery → ℕ → MtuDiscovery
unfolding round
rounds zero path m now = m
rounds (suc n) path m now = rounds n path (round path m now) (now + m.probe_timeout)

-- The search with `k` rounds to go: the path lies between the bounds, which are within 2^k.
record Searching (k path : ℕ) (now : ℕ) (m : MtuDiscovery) : Type 0 where
  low : m.min_mtu ≤ path
  high : path < m.max_mtu
  word : m.max_mtu < 2 ^ 64
  near : m.max_mtu ≤ m.min_mtu + 2 ^ k
  found : m.discovered_mtu ≡ m.min_mtu
  left : m.attempts + k ≤ m.max_attempts
  done : m.state ≡ complete → m.max_mtu ≤ m.min_mtu + 1
  ready : is_waiting m now ≡ false

one-le-pow : (k : ℕ) → 1 ≤ 2 ^ k
one-le-pow zero = omega arith
one-le-pow (suc k) = omega (arith, pow-suc 2 k, one-le-pow k)

round-Searching :
    (k path now : ℕ) (m : MtuDiscovery)
    → Searching (suc k) path now m
    → Searching k path (now + m.probe_timeout) (round path m now)
      × ((round path m now).probe_timeout ≡ m.probe_timeout)
unfolding round next_probe on_probe_success on_probe_timeout
round-Searching k path now m s = ground (
  arith,
  pow-suc 2 k,
  one-le-pow k,
  s.low,
  s.high,
  s.word,
  s.near,
  s.found,
  s.left,
  s.done,
  s.ready,
)

rounds-Searching :
    (n k path now : ℕ) (m : MtuDiscovery)
    → Searching (n + k) path now m
    → (end : ℕ) × Searching k path end (rounds n path m now)
unfolding rounds
rounds-Searching zero k path now m s = (now, rw (zero-add k) at s)
rounds-Searching (suc n) k path now m s =
    rounds-Searching n k path (now + m.probe_timeout) (round path m now)
      (round-Searching (n + k) path now m (rw (suc-add n k) at s)).0

-- A caller that tries each probe over a path of `path` bytes, within bounds at most 1024 bytes
-- apart, has found exactly `path` after the ten probes that the discovery allows.
pub rounds-discovered_mtu :
    (low high path now : ℕ)
    → low ≤ path
    → path < high
    → high ≤ low + 1024
    → high < 2 ^ 64
    → (rounds default_max_probe_attempts path (new low high) now).discovered_mtu ≡ path
rounds-discovered_mtu low high path now h1 h2 h3 h4 =
    let (_, s) = rounds-Searching 10 0 path now (new low high) (unfold new in ground arith) in
    omega (arith, s.low, s.high, s.near, s.found)

-- A size that a peer reports is taken over even where it is above the upper bound: then it is
-- the discovered MTU, and the bounds have crossed.
pub on_probe_success_crossed :
    (m : MtuDiscovery) (size : ℕ)
    → m.min_mtu ≤ m.max_mtu
    → m.max_mtu < size
    → let m' = on_probe_success m size in (m'.discovered_mtu ≡ size) × (m'.max_mtu < m'.min_mtu)
unfolding on_probe_success
on_probe_success_crossed m size h k = ground arith

-- Asking for a probe and then looking for a probe that has timed out, as a tick of a connection
-- does, leaves both bounds of the search as they were, where both read the same time and the
-- timeout is positive.
pub tick-max_mtu :
    (m : MtuDiscovery) (now : ℕ)
    → 0 < m.probe_timeout
    → let m' = check_probe_timeout (next_probe m now).0 now in
      (m'.max_mtu ≡ m.max_mtu) × (m'.min_mtu ≡ m.min_mtu)
unfolding check_probe_timeout next_probe
tick-max_mtu m now h = ground arith
