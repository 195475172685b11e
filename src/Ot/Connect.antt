-- ===== src/Ot/Connect.antt =====
-- src/cq_transport_ot.c: opening the endpoint and waiting for the connection.
use casquinha.Ot.Address.{resolve_host}
use casquinha.Transport.{connect_error}
use casquinha.Ot.{
  rcv_disconnect, open_endpoint, call, closed, t_connect, t_disconnect, no_event, connected,
  in_progress, rejected, fail, st_sending, st_connecting, Globals, ConnectAnswer, OtTransport,
  Provider, Event,
}
use casquinha.Prelude.{
  ℕ, Option, ◌&&◌, codes, not, true, false, none, some, ◌||◌, if◌then◌else◌, Bool,
}

-- `conn_notifier`: only the events of the connect phase are kept.
unfoldable pub conn_notifier : OtTransport → Event → OtTransport
conn_notifier t t_connect = record t { conn_event = t_connect }
conn_notifier t t_disconnect = record t { conn_event = t_disconnect }
conn_notifier t _ = t

-- `ot_ensure_up`
unfoldable pub ensure_up : Provider → Globals → Bool × Globals
ensure_up p g =
    if g.ot_up
    then (true, g)
    else if p.inits
    then (true, record { ot_up = true; conn_upp = g.conn_upp || p.makes_upp })
    else (false, g)

-- The connect of `open_and_connect`, with the notifier installed or not.
unfoldable pub issue_connect : ConnectAnswer → Bool → OtTransport → OtTransport
issue_connect connected true t = record t { st = st_connecting }
issue_connect connected false t = record t { st = st_sending }
issue_connect in_progress _ t = record t { st = st_connecting }
issue_connect rejected _ t = fail t connect_error (codes "Could not connect to")

-- `open_and_connect` once the name is looked up.
unfoldable pub dial : Provider → Bool → OtTransport → Option ℕ → OtTransport
dial p conn_upp t none = fail t connect_error (codes "Could not resolve")
dial p conn_upp t (some ip) =
    let async' = t.async || conn_upp && p.installs in
    issue_connect p.connects async' (record t { conn_event = no_event; async = async' })

-- `open_and_connect` of an endpoint that is open.
unfoldable pub connect_endpoint : Provider → Bool → OtTransport → OtTransport
connect_endpoint p conn_upp t =
    if not p.binds
    then fail t connect_error (codes "Could not bind a socket to")
    else dial p conn_upp t (resolve_host p.services t.tx.host)

-- `open_and_connect`
unfoldable pub open_and_connect : Provider → Globals → OtTransport → OtTransport × Globals
open_and_connect p g t =
    let (up, g') = ensure_up p g in
    if not up
    then (fail t connect_error (codes "Open Transport unavailable for"), g')
    else if not p.opens
    then (
      fail (record t { tx = closed t.tx }) connect_error (codes "Could not open a TCP endpoint to"),
      g',
    )
    else (
      connect_endpoint p g'.conn_upp
          (call open_endpoint (record t { tx = record t.tx { fd = true } })),
      g',
    )

-- What `pump_connect` goes by: `OTLook`, or what the notifier saw first.
unfoldable pub connect_event : Event → Event → Event
connect_event t_connect noted = t_connect
connect_event t_disconnect noted = t_disconnect
connect_event seen no_event = seen
connect_event seen noted = noted

-- The event of the connect phase.
unfoldable pub on_event : Provider → Event → OtTransport → OtTransport
on_event p t_connect t =
    if p.accepts
    then record t { async = false; st = st_sending }
    else fail t connect_error (codes "Could not connect to")
on_event p t_disconnect t =
    fail (call rcv_disconnect t) connect_error (codes "Connection refused by")
on_event p _ t = t

-- `pump_connect`
unfoldable pub pump_connect : Provider → OtTransport → OtTransport
pump_connect p t = on_event p (connect_event p.looks t.conn_event) t
