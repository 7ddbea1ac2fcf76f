-- ===== src/Tunnel/Tests.antt =====
-- The tunnels on a few commands and schedules.
use zeronet.Prelude.{◌≡◌, refl, true, false, List, [], ◌∷◌, none, some}
use zeronet.Go.{done, panics, exits, ok}
use zeronet.Tunnel.Unix.{
  NixTun, PrefixText, linux, darwin, Shell, configure_ip_address, ip_addr, addr_add, link_mtu,
}
use zeronet.Tunnel.Windows.{
  Windows, WinTun, Pc, rests, idle, allocated, read, close, new_tun, unused, doing, waiting,
  reading, waits_for_packet, no_more_items, closing, step, begin, read_step, close_step,
  close_stage,
}
use zeronet.Tunnel.Windows.Threads.{System, Event, begins, goes, becomes, schedule, act}
use zeronet.Tunnel.Windows.Sound.{Sound}
use zeronet.Tunnel.Windows.Sound.Runs.{schedule-new_tun}
use zeronet.Tunnel.Windows.Draining.{Drained, schedule-drains}

abbrev utun : NixTun
utun = record { name = "utun3" }

abbrev text : PrefixText
text = record { addr = "100.70.0.2"; masked = "100.70.0.0/24" }

-- The second command fails.
abbrev no_address : Shell
no_address [] c = none
no_address (d ∷ l) c = some "exit status 2"

stops_early :
    configure_ip_address linux no_address utun text []
    ≡ done (link_mtu utun ∷ addr_add utun text ∷ [], some (ip_addr "exit status 2"))
unfolding configure_ip_address
stops_early = refl

no_route : configure_ip_address darwin no_address utun text [] ≡ panics exits
unfolding configure_ip_address
no_route = refl

abbrev wintun : Windows
wintun = record {
  receive_packet = no_more_items;
  allocate_send_packet = allocated;
  adapter_luid = 7;
  close_adapter = none;
  event_stays = false;
}

abbrev fresh : WinTun
fresh = record {
  close = false;
  close_once = unused;
  running = 0;
  write_lock = false;
  session_ended = false;
  adapter_closed = false;
  event_set = false;
}

made : new_tun none true ≡ ok fresh
unfolding new_tun
made = refl

abbrev goroutines : List Pc
goroutines = rests idle ∷ rests idle ∷ []

-- One goroutine finds no packet and waits, while the other closes the tunnel up to its wait.
abbrev race : List Event
race =
    begins 0 (read 100)
    ∷ goes 0 wintun
    ∷ goes 0 wintun
    ∷ begins 1 close
    ∷ goes 1 wintun
    ∷ goes 0 wintun
    ∷ goes 1 wintun
    ∷ goes 1 wintun
    ∷ []

abbrev waiting_close : System
waiting_close = record {
  tun = record fresh { close = true; close_once = doing waiting; running = 1; event_set = true };
  threads = reading (waits_for_packet 100) ∷ closing ∷ [];
}

races : schedule race (record { tun = fresh; threads = goroutines }) ≡ becomes waiting_close
unfolding schedule act step begin read_step close_step close_stage
races = refl

schedule-new_tun_example :
    (s : System) × (schedule race (record { tun = fresh; threads = goroutines }) ≡ becomes s)
    × Sound s
schedule-new_tun_example = schedule-new_tun fresh goroutines race made (refl, (refl, tt))

schedule-drains_example : Drained waiting_close
schedule-drains_example =
    schedule-drains fresh goroutines race waiting_close (λ n. wintun) 0 made (refl, (refl, tt))
      (refl, (tt, (tt, (tt, (tt, (tt, (tt, (tt, tt)))))))) races refl
