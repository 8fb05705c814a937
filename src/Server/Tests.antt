-- ===== src/Server/Tests.antt =====
-- Runs of a server, gbnet/src/server.rs, with fixed-point numbers for floats.
use gbnet.Prelude.{ℕ, ◌≡◌, ◌⊎◌, refl, inl, true, ok, List, [], ◌∷◌}
use gbnet.Prelude.Int.{ℤ}
use gbnet.Float.Fixed.{fixed_float, fixed_narrowing}
use gbnet.Config.Network.{NetworkConfig, default_network_config, validate}
use gbnet.Packet
use gbnet.Packet.{
  Packet, PacketHeader, PacketType, connection_request, connection_response,
  connection_request_with_cookie,
}
use gbnet.Security.Cookie.{
  SocketAddr, v4, generate_cookie, cookie_to_u64_pair, validate_cookie, cookie_from_u64_pair,
}
use gbnet.Security.RateLimit
use gbnet.Security.Crc
use gbnet.Prelude.Maps
use gbnet.Server.{
  NetServer, Inputs, client_connected, addr_key, challenge, handle_request,
  handle_request_with_cookie, handle_response,
}
use gbnet.Server.Traffic.{handle_server_packet}
use gbnet.Server.Room.{HasRoom}
use gbnet.Server.Run.{Action, arrives, disconnects, run}
use gbnet.Server.Admission.{HasShown, IsPending, Tells}
use gbnet.Server.Entry.{run-HasShown}
use gbnet.Server.Update.{bind, Call, updates, acts, calls, bind-HasRoom}

abbrev config : NetworkConfig ℤ
config = default_network_config

abbrev server : NetServer ℤ ℤ
server = record {
  connections = [];
  pending = [];
  disconnecting = [];
  config = config;
  rate_limiter = RateLimit.new 10;
  cookie_secret = 7 ∷ 9 ∷ 1 ∷ [];
  migration_cooldowns = [];
}

bind-server : bind config (7 ∷ 8 ∷ 255 ∷ []) ≡ ok server
unfolding bind validate default_network_config
bind-server = refl

abbrev home : SocketAddr
home = record { ip = v4 (127 ∷ 0 ∷ 0 ∷ 1 ∷ []); port = 5000 }

abbrev at_time : ℕ → Inputs
at_time now = record { now = now; unix_secs = 10; server_salt = 99; client_salt = 11 }

abbrev packet : PacketType → Packet
packet t = Packet.new (record { protocol_id = 0x12345678; sequence = 0; ack = 0; ack_bits = 0 }) t

abbrev own_cookie : ℕ × ℕ
unfolding generate_cookie cookie_to_u64_pair
own_cookie = cookie_to_u64_pair (generate_cookie home 2 server.cookie_secret)

abbrev entry : List Action
entry =
    arrives (at_time 1) home (packet connection_request)
    ∷ arrives (at_time 2) home (packet (connection_request_with_cookie own_cookie.0 own_cookie.1))
    ∷ arrives (at_time 3) home (packet (connection_response 55))
    ∷ []

abbrev life : List Call
life =
    updates (record {
      inputs = at_time;
      takes = λ key bytes. true;
      now = 5;
      datagrams = (home, 1 ∷ 2 ∷ []) ∷ [];
      waiting = [];
    })
    ∷ acts (disconnects 6 (addr_key home) 0 [])
    ∷ []

bind-HasRoom_example : HasRoom config (calls server life)
bind-HasRoom_example = bind-HasRoom config (7 ∷ 8 ∷ 255 ∷ []) server life bind-server

told-entry : (run server entry).1 ≡ client_connected (addr_key home) ∷ []
unfolding run handle_server_packet RateLimit.allow RateLimit.new RateLimit.recent
    RateLimit.timestamps_of Maps.lookup default_network_config Maps.insert validate_cookie
    cookie_from_u64_pair generate_cookie Crc.crc32c cookie_to_u64_pair handle_request
    handle_request_with_cookie handle_response challenge
told-entry = refl

entry-Tells : Tells (addr_key home) (run server entry).1
entry-Tells = rw told-entry (inl refl)

run-HasShown_example :
    IsPending (addr_key home) server ⊎ HasShown server.cookie_secret (addr_key home) entry
unfolding default_network_config
run-HasShown_example = run-HasShown server entry (addr_key home) refl entry-Tells
