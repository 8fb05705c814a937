-- ===== src/Connection/Tick.antt =====
-- The tick of a connection, `update_tick` of gbnet/src/connection/io.rs.
use gbnet.Prelude.{
  ℕ, ◌+◌, ◌-◌, ◌%◌, ◌^◌, Bool, false, not, ◌&&◌, Option, none, some, [], Result, ok, err, map, ltb,
  leb, if◌then◌else◌, replicate,
}
use gbnet.Float.{Float, Narrowing}
use gbnet.Channel.Receive
use gbnet.Congestion
use gbnet.Congestion.Cwnd
use gbnet.Congestion.Cwnd.{CongestionWindow}
use gbnet.Congestion.Bandwidth
use gbnet.Fragment
use gbnet.Mtu
use gbnet.Packet.{disconnect, keep_alive, mtu_probe, ack_only, reason_requested}
use gbnet.Reliability
use gbnet.Stats.{assess_connection_quality}
use gbnet.Connection.{
  Connection, disconnected, connecting, connected, disconnecting, ConnectionError, timeout,
}
use gbnet.Connection.Handshake.{push_packet, send_connection_request, reset_connection}
use gbnet.Connection.Sending.{send_channels}

module _ {ℓ} {W : Type ℓ} ⦃f : Float W⦄ where
  abbrev paced : Option (CongestionWindow W) → ℕ → Option (CongestionWindow W)
  paced none rto = none
  paced (some w) rto = some (Cwnd.update_pacing w rto)

-- Whether more than a duration has passed since an instant that may be missing.
abbrev pub has_passed : Option ℕ → ℕ → ℕ → Bool
has_passed none now duration = false
has_passed (some t) now duration = ltb duration (now - t)

module _ {ℓ κ} {V : Type ℓ} {W : Type κ} ⦃v : Float V⦄ ⦃f : Float W⦄ where
  -- Nothing has arrived for too long, on a connection that is not being closed.
  abbrev pub is_silent : Connection V W → ℕ → Bool
  is_silent c now =
      let overdue = ltb c.config.connection_timeout (now - c.last_packet_recv_time) in
      elim c.state [ disconnected ↦ false | disconnecting ↦ false | _ ↦ overdue ]

  -- a request that has not been answered
  unfoldable pub tick_connecting :
      Connection V W → ℕ → Connection V W × Result (Unit {0}) ConnectionError
  unfolding send_connection_request
  tick_connecting c now =
      let counted = record c { connection_retry_count = c.connection_retry_count + 1 } in
      if has_passed c.connection_request_time now c.config.connection_request_timeout
      then if ltb c.config.connection_request_max_retries counted.connection_retry_count
        then (record counted { state = disconnected }, err timeout)
        else (
          record (send_connection_request counted) { connection_request_time = some now },
          ok tt,
        )
      else (c, ok tt)

  -- the congestion controllers, the keep-alive, and the probe of the MTU
  unfoldable pub tick_congestion : Connection V W → ℕ → Connection V W
  tick_congestion c now =
      let updated = Congestion.update c.congestion now c.stats.packet_loss c.stats.rtt in
      record c {
        congestion = Congestion.refill_budget updated c.config.mtu;
        cwnd = paced c.cwnd c.reliability.rto;
      }

  unfoldable pub tick_keepalive : Connection V W → ℕ → Connection V W
  unfolding push_packet
  tick_keepalive c now =
      if ltb c.config.keepalive_interval (now - c.last_packet_send_time)
      then push_packet c keep_alive []
      else c

  unfoldable pub tick_probe : Connection V W → ℕ → Connection V W
  unfolding push_packet
  tick_probe c now =
      let (m, probe) = Mtu.next_probe c.mtu_discovery now in
      let c' = record c { mtu_discovery = m } in
      elim probe [
        | none ↦ c'
        | some size ↦ push_packet c' (mtu_probe (size % 2 ^ 16)) (replicate (size - 16) 0)
      ]

  -- Acknowledgments that no data has carried go out in a packet of their own.
  unfoldable pub tick_acks : Connection V W → Connection V W
  unfolding push_packet
  tick_acks c =
      let acked =
        if c.pending_ack_send && not c.data_sent_this_tick then push_packet c ack_only [] else c in
      record acked { pending_ack_send = false }

  unfoldable pub tick_connected : Connection V W → ℕ → Connection V W
  unfolding tick_congestion tick_keepalive tick_probe send_channels tick_acks
  tick_connected c now =
      let probed = tick_probe (tick_keepalive (tick_congestion c now) now) now in
      let sent =
        send_channels (record probed { data_sent_this_tick = false }) now 0
          probed.channel_priority_order in
      let swept = record sent { channels = map (λ ch. Receive.update ch now) sent.channels } in
      let acked = tick_acks swept in
      record acked { mtu_discovery = Mtu.check_probe_timeout acked.mtu_discovery now }

  -- A disconnect that has not been answered is repeated, until its retries are used up.
  unfoldable pub tick_disconnecting : Connection V W → ℕ → Connection V W
  unfolding push_packet reset_connection
  tick_disconnecting c now =
      if has_passed c.disconnect_time now c.config.disconnect_retry_timeout
      then if leb c.config.disconnect_retries c.disconnect_retry_count
        then reset_connection (record c { state = disconnected })
        else push_packet
            (record c {
              disconnect_retry_count = c.disconnect_retry_count + 1;
              disconnect_time = some now;
            })
            (disconnect reason_requested) []
      else c

module _ {ℓ κ} {V : Type ℓ} {W : Type κ} ⦃v : Float V⦄ ⦃f : Float W⦄ ⦃n : Narrowing W V⦄ where
  abbrev rtt_of : Connection V W → V
  rtt_of c = n.narrow c.reliability.srtt

  unfoldable pub tick_stats : Connection V W → Connection V W
  tick_stats c =
      let rtt = rtt_of c in
      let loss = Reliability.packet_loss_percent c.reliability in
      record c {
        stats = record c.stats {
          rtt = rtt;
          packet_loss = loss;
          bandwidth_up = n.narrow (Bandwidth.bytes_per_second c.bandwidth_up);
          bandwidth_down = n.narrow (Bandwidth.bytes_per_second c.bandwidth_down);
          connection_quality = assess_connection_quality rtt (v.mul loss (v.ratio 100 1));
        };
      }

  -- An error ends the tick before the statistics are brought up to date.
  abbrev pub with_stats :
      Connection V W × Result (Unit {0}) ConnectionError
      → Connection V W × Result (Unit {0}) ConnectionError
  unfolding tick_stats
  with_stats (c, ok _) = (tick_stats c, ok tt)
  with_stats (c, err e) = (c, err e)

  -- The tick by the state of the connection.
  unfoldable pub tick_by_state :
      Connection V W → ℕ → Connection V W × Result (Unit {0}) ConnectionError
  tick_by_state c now = elim c.state [
    | connecting ↦ with_stats (tick_connecting c now)
    | connected ↦ (tick_stats (tick_connected c now), ok tt)
    | disconnecting ↦ (tick_stats (tick_disconnecting c now), ok tt)
    | _ ↦ (tick_stats c, ok tt)
  ]

  unfoldable pub update_tick :
      Connection V W → ℕ → Connection V W × Result (Unit {0}) ConnectionError
  update_tick c now =
      if is_silent c now
      then (reset_connection (record c { state = disconnected }), err timeout)
      else tick_by_state
          (record c { fragment_assembler = Fragment.cleanup c.fragment_assembler now }) now
