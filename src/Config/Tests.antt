-- ===== src/Config/Tests.antt =====
-- Runs of the validation of gbnet/src/config.rs, with fixed-point numbers for floats.
use gbnet.Prelude.{◌≡◌, refl, ok, err}
use gbnet.Prelude.Int.{ℤ}
use gbnet.Float.Fixed.{fixed_float}
use gbnet.Config.Network.{
  NetworkConfig, validate, default_network_config, fragment_threshold_exceeds_mtu,
}

abbrev config : NetworkConfig ℤ
unfolding default_network_config
config = default_network_config

validate-default : validate config ≡ ok tt
unfolding validate default_network_config
validate-default = refl

validate-too_long : validate (record config { mtu = 1000 }) ≡ err fragment_threshold_exceeds_mtu
unfolding validate default_network_config
validate-too_long = refl
