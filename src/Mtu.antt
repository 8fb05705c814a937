-- ===== src/Mtu.antt =====
-- Path MTU discovery by binary search, `MtuDiscovery` of gbnet/src/fragment.rs, and the order in
-- which `Connection::update_tick` of gbnet/src/connection/io.rs calls it.
pub mod Search
mod Tests
use gbnet.Prelude.{
  ℕ, zero, suc, ◌+◌, ◌-◌, ◌/◌, ◌%◌, ◌^◌, Bool, true, false, ◌||◌, Option, none, some, ltb, leb,
  if◌then◌else◌,
}
use gbnet.Config.{millis}

abbrev default_probe_timeout_millis : ℕ
default_probe_timeout_millis = 500

abbrev pub default_max_probe_attempts : ℕ
default_max_probe_attempts = 10

abbrev pub min_mtu_bytes : ℕ
min_mtu_bytes = 576

abbrev max_mtu_bytes : ℕ
max_mtu_bytes = 1500

abbrev mtu_convergence_threshold : ℕ
mtu_convergence_threshold = 1

pub data MtuState : Type 0 where
  probing complete : MtuState

pub record MtuDiscovery : Type 0 where
  pub min_mtu : ℕ
  pub max_mtu : ℕ
  pub current_probe : ℕ
  pub discovered_mtu : ℕ
  pub state : MtuState
  pub probe_timeout : ℕ
  pub last_probe_time : Option ℕ
  pub attempts : ℕ
  pub max_attempts : ℕ

unfoldable pub new : ℕ → ℕ → MtuDiscovery
new min_mtu max_mtu = record {
  min_mtu = min_mtu;
  max_mtu = max_mtu;
  current_probe = (min_mtu + max_mtu) / 2;
  discovered_mtu = min_mtu;
  state = probing;
  probe_timeout = millis default_probe_timeout_millis;
  last_probe_time = none;
  attempts = 0;
  max_attempts = default_max_probe_attempts;
}

unfoldable pub default_discovery : MtuDiscovery
unfolding new
default_discovery = new min_mtu_bytes max_mtu_bytes

abbrev pub is_complete : MtuDiscovery → Bool
is_complete m = elim m.state [ probing ↦ false | complete ↦ true ]

-- `last.elapsed() < self.probe_timeout`, where a probe has been sent
abbrev pub is_waiting : MtuDiscovery → ℕ → Bool
is_waiting m now = elim m.last_probe_time [
  | none ↦ false
  | some last ↦ ltb (now - last) m.probe_timeout
]

-- `usize` subtraction as a release build does it
abbrev sub_usize : ℕ → ℕ → ℕ
sub_usize a b = (a + 2 ^ 64 - b) % 2 ^ 64

unfoldable pub next_probe : MtuDiscovery → ℕ → MtuDiscovery × Option ℕ
next_probe m now =
    if is_complete m || leb m.max_attempts m.attempts
    then (record m { state = complete }, none)
    else if leb (sub_usize m.max_mtu m.min_mtu) mtu_convergence_threshold
    then (record m { state = complete }, none)
    else if is_waiting m now
    then (m, none)
    else (
      record m {
        current_probe = (m.min_mtu + m.max_mtu) / 2;
        last_probe_time = some now;
        attempts = m.attempts + 1;
      },
      some ((m.min_mtu + m.max_mtu) / 2),
    )

unfoldable pub on_probe_success : MtuDiscovery → ℕ → MtuDiscovery
on_probe_success m size =
    if leb m.min_mtu size then record m { discovered_mtu = size; min_mtu = size } else m

unfoldable pub on_probe_timeout : MtuDiscovery → MtuDiscovery
on_probe_timeout m = record m { max_mtu = m.current_probe }

abbrev has_timed_out : MtuDiscovery → ℕ → Bool
has_timed_out m now = elim m.last_probe_time [
  | none ↦ false
  | some last ↦ leb m.probe_timeout (now - last)
]

unfoldable pub check_probe_timeout : MtuDiscovery → ℕ → MtuDiscovery
unfolding on_probe_timeout
check_probe_timeout m now =
    if is_complete m then m else if has_timed_out m now then on_probe_timeout m else m
