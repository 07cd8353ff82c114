-- ===== src/Tunnel/Examples.antt =====
-- The theorems on the root package at concrete inputs.
use gole.Base.{
  Bytes, List, Option, [], arith, bytes_beq, bytes_eq, codes, false, if◌then◌else◌, nat_eq, none,
  refl, some, true, ℕ, ◌<◌, ◌==◌, ◌↔◌, ◌∷◌, ◌≡◌, ◌≢◌,
}
use gole.Base.Result.{ok}
use gole.Tunnel.Common.{contains}
use gole.Tunnel.Punch.Tcp.{Attempt, no_connection, received, punch_tcp}
use gole.Tunnel.Punch.Rounds.{IsFirst, punch_tcp-ok_iff}
use gole.Tunnel.Punch.Udp.{
  Failure, timed_out, Punch, Packet, stopped, reading, returned, start, on_read, on_packet,
  on_message, on_helo, on_okay, sender_done, close_main, Reach, here, later, send, read, handle,
  cancel, leave, wake, close, return,
}
use gole.Tunnel.Punch.Invariant.Kept.{IsKept, late}
use gole.Tunnel.Punch.Invariant.{reach-IsKept}
use gole.Tunnel.Punch.Runs.{Heard, came, events}
use gole.Tunnel.Punch.Results.{returned_sound}
use gole.Tunnel.Punch.Progress.{message, reach-Succeeds}
use gole.Base.Int.{pos}
use gole.Base.Strings.{has_prefix, to_lower, split, split_first}
use gole.Tunnel.Common.{UdpAddr}
use gole.Tunnel.Cli.{
  Lookups, GlobalFlags, ModeFlags, Config, tcp, parse_config, parse_args, parse_tcp, forward,
  parse_socks5, socks5_loop, socks5_parameter, value_of,
}
use gole.Tunnel.Cli.Configs.{IsConfig, parse_config-IsConfig}
use gole.Tunnel.Cli.Socks5.{socks5_text, parse_socks5-socks5_text}
use gole.Tunnel.Forward.{
  RelayEvent, arrive, deliver, from_client, new_relay, relay_run, relay_step, read_inbound,
  deliver_held, on_client, note_client, next_client,
}
use gole.Tunnel.Forward as forwarding
use gole.Tunnel.Forward.Deliveries.{delivery}
use gole.Tunnel.Forward.Datagrams.{
  flow, clients_side, arrived, sent, last_client, relay_run-InOrder,
}
use gole.Tunnel.Kcp.{get_kcp_block_cipher}
use gole.Tunnel.Kcp.Keys.{IsKeyed, get_kcp_block_cipher-IsKeyed}

abbrev peer : Bytes
peer = codes "192.0.2.7:4000"

abbrev hello : Packet
hello = record { source = some peer; failed = false; text = codes "HELO-17" }

abbrev fine : Packet
fine = record { source = some peer; failed = false; text = codes "OKAY" }

-- A punch that succeeds
abbrev punched : Punch
punched = record {
  sender = stopped;
  receiver = reading;
  main = returned none;
  wg = 0;
  helo = true;
  okay = true;
  recv_done = true;
  cancelled = true;
  fail = none;
  crash = none;
}

punched_run : Reach peer start punched
unfolding on_read on_packet on_message on_helo on_okay sender_done close_main contains bytes_beq
punched_run =
    later
      (later
        (later
          (later
            (later
              (later
                (later
                  (later (later (later here refl (send 1 refl)) refl (read hello refl)) refl
                    (handle hello refl))
                  refl (read fine refl))
                refl (handle fine refl))
              refl (cancel 1 refl refl))
            refl (leave refl))
          refl (wake refl refl))
        refl (close refl))
      refl (return refl)

reach-IsKept_example : IsKept punched
reach-IsKept_example = reach-IsKept peer punched punched_run

abbrev success : Option Failure
success = none

returned_sound_example :
    (success ≡ none
      → Heard peer (codes "HELO") (events punched_run)
        × Heard peer (codes "OKAY") (events punched_run))
    × (success ≢ some timed_out)
    × (late stopped ≡ false)
returned_sound_example = returned_sound peer punched success punched_run refl

reach-Succeeds_example :
    (t : Punch) × (q : Reach peer start t) × (events q
      ≡ came (message peer (codes "HELO")) ∷ came (message peer (codes "OKAY")) ∷ [])
    × (t.crash ≡ none)
    × (t.main ≡ returned none)
reach-Succeeds_example = reach-Succeeds peer start here refl refl refl (λ f h. cc)

-- The third attempt connects.
abbrev third : ℕ → Attempt
third i = if i == 2 then received (codes "HELO-17") else no_connection

punch_tcp-ok_iff_example : (punch_tcp third ≡ ok 2) ↔ ((2 < 60) × IsFirst third 0 2)
punch_tcp-ok_iff_example = punch_tcp-ok_iff third 2

-- A command line for a SOCKS5 server over TCP, with lookups that always succeed
abbrev look : Lookups
look = record {
  resolve = λ network name. some name;
  parse_ip = λ name. name;
  atoi = λ text. pos 46;
}

abbrev globals : GlobalFlags
globals = record {
  help = false;
  enc = codes "xor";
  key = [];
  args = codes "TCP" ∷ codes "a" ∷ codes "b" ∷ [];
}

abbrev flags : List Bytes → ModeFlags
flags words = record {
  op = codes "server";
  fwd = codes "socks5,dscp=46";
  ttl = pos 0;
  proto = codes "udp";
  left = words;
}

abbrev server_conf : Config
server_conf = tcp (record {
  op = codes "server";
  l_addr = some (codes "a");
  r_addr = some (codes "b");
  fwd_addr = none;
  enc = codes "xor";
  key = [];
  s5_conf = some (record { bind = none; fwmark = pos 0; dscp = pos 46 });
})

parse_config-IsConfig_example : IsConfig server_conf
unfolding parse_config parse_args parse_tcp forward parse_socks5 socks5_loop socks5_parameter
    has_prefix to_lower split split_first value_of contains bytes_beq
parse_config-IsConfig_example = parse_config-IsConfig look flags globals server_conf refl

parse_socks5-socks5_text_example :
    parse_socks5 look (socks5_text (codes "eth0") (codes "10") (codes "46"))
    ≡ ok (record { bind = some (codes "eth0"); fwmark = pos 46; dscp = pos 46 })
parse_socks5-socks5_text_example =
    parse_socks5-socks5_text look (codes "eth0") (codes "10") (codes "46") (ground arith)
      (ground arith) (ground arith)

abbrev app : UdpAddr
app = record { ip = 127 ∷ 0 ∷ 0 ∷ 1 ∷ []; port = 5000; zone = [] }

abbrev relay_events : List RelayEvent
relay_events = arrive (7 ∷ []) ∷ forwarding.read ∷ deliver ∷ from_client app (1 ∷ []) ∷ []

relay_run-InOrder_example :
    (flow (relay_run relay_events new_relay) ≡ (7 ∷ []) ∷ [])
    × (clients_side (relay_run relay_events new_relay) ≡ ((1 ∷ []) ∷ [], some app))
    × ((relay_step deliver (relay_run relay_events new_relay)).to_clients ≡ (app, 7 ∷ []) ∷ [])
unfolding arrived sent last_client delivery relay_run relay_step read_inbound deliver_held on_client
    note_client next_client
relay_run-InOrder_example = relay_run-InOrder relay_events deliver

abbrev derived : Bytes
derived = codes "0123456789abcdef0123456789abcdef"

get_kcp_block_cipher-IsKeyed_example : IsKeyed (get_kcp_block_cipher derived (codes "3des"))
get_kcp_block_cipher-IsKeyed_example =
    get_kcp_block_cipher-IsKeyed derived (codes "3des") (omega arith)
