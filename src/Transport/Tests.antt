-- ===== src/Transport/Tests.antt =====
-- Runs of a transaction and of a stream.
use casquinha.Prelude.{
  ◌+◌, ◌≡◌, ◌≤◌, refl, arith, true, false, none, some, [], ◌∷◌, ◌++◌, codes, length,
}
use casquinha.Prelude.Int.{pos}
use casquinha.Prelude.Decimal.{decimal, print_int}
use casquinha.Transport.{
  Transport, done, Net, got, broken_pipe, in_progress, expired, writable, chunk_size, high_water,
  fresh, new, stream_new, poll, drain, append, double_to, fail, connect_any, connect_deadline,
  connect_and_send, send_all, read_all, run, pump_from, pump_stream,
}
use casquinha.Transport.Settles.{IsSettled, offered, poll-IsSettled}
use casquinha.Transport.Stream.{AllChunks}
use casquinha.Transport.Poll.{drain-poll, IsTaken}

-- The copy of the selector is refused.
no_selector : (stream_new (true ∷ true ∷ false ∷ []) none (pos 70) none).0 ≡ none
unfolding stream_new new
no_selector = refl

-- The first address times out, the second connects; the line goes out in two pieces.
abbrev net : Net
net = record {
  dials = some (in_progress expired ∷ in_progress (writable true) ∷ []);
  sends = 3 ∷ [];
  recvs = got (codes "state") ∷ got (codes "\tplaying") ∷ broken_pipe ∷ got (codes "late") ∷ [];
}

abbrev transaction : Transport
transaction = record (fresh (some (codes "pi")) (pos 70) (some (codes "/now"))) { started = true }

request : (connect_and_send [] net transaction).1 ≡ codes "/now\r\n"
unfolding connect_and_send connect_any connect_deadline send_all fresh
request = refl

answer :
    ((poll [] net transaction).0.status ≡ done)
    × ((poll [] net transaction).0.data' ≡ codes "state\tplaying")
unfolding poll run read_all append double_to connect_and_send connect_any connect_deadline send_all
    fresh
answer = (refl, refl)

-- Nobody answers.
timeout :
    (poll [] (record net { dials = some (in_progress expired ∷ []) }) transaction).0.message
    ≡ codes "Timed out connecting to pi:70."
unfolding poll run connect_and_send connect_any connect_deadline fail fresh print_int decimal
timeout = refl

poll-IsSettled_example :
    IsSettled ([] ++ offered net.recvs) (poll (true ∷ false ∷ []) net transaction).0
unfolding fresh
poll-IsSettled_example = poll-IsSettled (true ∷ false ∷ []) net transaction refl refl refl refl

abbrev listening : Transport
listening = record (fresh (some (codes "pi")) (pos 8000) none) { started = true; streaming = true }

-- Memory runs out in a stream: the message of the closed socket replaces the true one.
starved : (poll (true ∷ false ∷ []) net listening).0.message ≡ codes "Read failed from pi:8000."
unfolding poll pump_stream pump_from append double_to connect_and_send connect_any connect_deadline
    send_all fail fresh print_int decimal
starved = refl

drain-poll_example :
    let p = (poll [] net listening).0 in
    IsTaken listening net.recvs p ((drain p 4).1 ++ (drain p 4).0.data')
    × (length (drain p 4).1 ≤ 4)
    × (length (drain p 4).0.data' ≤ high_water + chunk_size)
unfolding fresh
drain-poll_example = drain-poll [] net listening 4 streams refl refl refl chunks empty
  where
    streams : listening.streaming ≡ true
    streams = refl

    chunks : AllChunks net.recvs
    chunks = (omega arith, (omega arith, (omega arith, tt)))

    empty : length listening.data' ≤ high_water + chunk_size
    empty = omega arith
