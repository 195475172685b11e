-- ===== src/Ot/Tests.antt =====
-- Runs over Open Transport.
use casquinha.Ot.Deadlines.{poll_deadline}
use casquinha.Ot.Outcomes.{setup}
use casquinha.Ot.Ends.{IsSound}
use casquinha.Ot.Datagrams.{udp_start-IsUdp, udp-IsCounted, IsCounted}
use casquinha.Ot.Reports.{poll-IsPolled, IsPolled}
use casquinha.Prelude.Int.{pos}
use casquinha.Ot.Quads.{parse_dotted_quad-print, print_quad}
use casquinha.Prelude.{
  ◌⊎◌, arith, ◌≢◌, ◌%◌, ◌-◌, ◌*◌, List, ◌^◌, ◌+◌, ◌≡◌, ◌∷◌, refl, true, false, [], none, some,
  codes,
}
use casquinha.Transport.{
  fresh, done, running, double_to, append as posix_append, drain as posix_drain,
}
use casquinha.Ot.{
  st_receiving, st_init, OtTransport, Provider, Globals, ready, t_connect, no_event, look, t_ordrel,
  got, took, flow, in_progress, rejected, finish, teardown,
}
use casquinha.Ot.Connect.{
  open_and_connect, connect_endpoint, dial, issue_connect, ensure_up, pump_connect, on_event,
  connect_event, conn_notifier,
}
use casquinha.Ot.Address.{resolve_host, parse_dotted_quad, part, part_from, dot}
use casquinha.Ot.Transfer.{append, pump_send, pump_recv, send_from, sent, recv_look, give_up}
use casquinha.Ot.Loop.{poll, start, slice, check_time, drain}
use casquinha.Ot.Histories.{Action, acts, starts, polls, drains, notifies, history-IsSound}
use casquinha.Ot.Udp.{UdpAnswers, udp, udp_start, fine, look_error}

-- What Open Transport answers when the endpoint opens and the line goes out in two pieces.
abbrev provider : Provider
provider = record {
  inits = true;
  makes_upp = true;
  opens = true;
  binds = true;
  services = none;
  installs = true;
  connects = in_progress;
  looks = no_event;
  accepts = true;
  sends = took 3 ∷ flow ∷ took 9 ∷ [];
  reads = got (codes "state") ∷ got (codes "\tplaying") ∷ look t_ordrel ∷ [];
}

abbrev globals : Globals
globals = record { ot_up = false; conn_upp = false }

abbrev request : OtTransport
request = ready (fresh (some (codes "192.0.2.10")) (pos 70) (some (codes "/now")))

-- A poll a slice: the connect, its end, which the notifier saw, and two polls for the line.
abbrev actions : List Action
actions =
    starts 1000
    ∷ polls [] provider globals 1001
    ∷ notifies t_connect
    ∷ polls [] provider globals 1002
    ∷ polls [] provider globals 1003
    ∷ polls [] (record provider { sends = took 9 ∷ [] }) globals 1004
    ∷ polls [] provider globals 1005
    ∷ drains 5
    ∷ []

whole_run :
    let t = acts request actions in
    (t.tx.status ≡ done)
    × (t.tx.data' ≡ codes "\tplaying")
    × (t.ledger.drained ≡ codes "state")
    × (t.ledger.wire ≡ codes "/now\r\n")
    × (t.tx.fd ≡ false)
unfolding poll start slice check_time drain posix_drain pump_send pump_recv send_from sent recv_look
    give_up open_and_connect connect_endpoint dial issue_connect ensure_up pump_connect on_event
    connect_event conn_notifier resolve_host parse_dotted_quad part part_from dot ready fresh finish
    teardown append posix_append double_to
whole_run = (refl, refl, refl, refl, refl)

history-IsSound_example : IsSound (acts request actions)
history-IsSound_example =
    history-IsSound (some (codes "192.0.2.10")) (pos 70) (some (codes "/now")) actions

poll-IsPolled_example :
    IsPolled st_init
      (setup request)
      (poll [] (record provider { connects = rejected }) globals 7 request).0
unfolding ready fresh
poll-IsPolled_example =
    poll-IsPolled [] (record provider { connects = rejected }) globals 7 request refl refl
      (ground arith)

-- The clock wraps around while nothing comes.
poll_deadline_example :
    let t = start request (2 ^ 32 - 100) in
    let t' =
      (poll [] (record provider { reads = [] }) globals ((t.start_tick + 301) % 2 ^ 32) t).0 in
    (t'.tx.status ≢ running) ⊎ ((t.tx.streaming ≡ true) × (t'.st ≡ st_receiving))
unfolding start ready fresh
poll_deadline_example =
    poll_deadline [] (record provider { reads = [] }) globals 301 (start request (2 ^ 32 - 100))
      (history-IsSound (some (codes "192.0.2.10")) (pos 70) (some (codes "/now"))
        (starts (2 ^ 32 - 100) ∷ []))
      refl (omega arith) (omega arith) (omega arith)

parse_dotted_quad-print_example :
    parse_dotted_quad (print_quad 192 0 2 10) ≡ some (192 * 2 ^ 24 + 0 * 2 ^ 16 + 2 * 2 ^ 8 + 10)
parse_dotted_quad-print_example =
    parse_dotted_quad-print 192 0 2 10 (omega arith) (omega arith) (omega arith) (omega arith)

-- A part above 32 bits wraps around and is taken for a small one.
wrapped_part : parse_dotted_quad (codes "4294967297.0.0.1") ≡ some (2 ^ 24 + 1)
unfolding parse_dotted_quad part part_from dot
wrapped_part = refl

abbrev answers : UdpAnswers
answers = record { opens = true; binds = true; services = none; first = look_error; second = fine }

udp-IsCounted_example :
    let host = some (codes "192.0.2.10") in
    IsCounted udp_start
      (codes "line")
      (udp answers true host (pos 514) (codes "line") udp_start).0
      (udp answers true host (pos 514) (codes "line") udp_start).1
udp-IsCounted_example =
    udp-IsCounted answers true (some (codes "192.0.2.10")) (pos 514) (codes "line") udp_start
      udp_start-IsUdp
