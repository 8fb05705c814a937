-- ===== src/Mtu/Tests.antt =====
-- Runs of the MTU discovery of gbnet/src/fragment.rs.
use gbnet.Prelude.{◌≡◌, arith}
use gbnet.Mtu.{new, default_max_probe_attempts}
use gbnet.Mtu.Search.{rounds, rounds-discovered_mtu}

rounds-discovered_mtu_example :
    (rounds default_max_probe_attempts 1400 (new 576 1500) 0).discovered_mtu ≡ 1400
rounds-discovered_mtu_example =
    rounds-discovered_mtu 576 1500 1400 0 (omega arith) (omega arith) (omega arith) (omega arith)
