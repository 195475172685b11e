-- ===== src/Lib.antt =====
-- Casquinha: a Mac OS 9 client of a Spotify bridge. The pure modules under src/ decide what the
-- program shows, sends and plays; the app in os9/ and the transports move bytes.
--
-- A transaction's bytes go to the codec, which keeps a document's key and value pairs as fields. The
-- snapshot, the track list and the list of references read their records from the fields. The guard
-- decides which snapshots are adopted, the backoff when to poll again, the debounce slot which value
-- of a dragged control is sent, and the cover cache which covers stay. A playlist document gives the
-- URL of the stream. The stream's bytes go through the compressed ring to the decode pump, which finds
-- frames with the MP3 header parser and fills the PCM ring that the sound interrupt empties. The view
-- turns the snapshot, the server's stream fact and the engine's state into what is drawn. The event
-- loop starts and polls one transaction at a time and hands its reply to the adoption, which joins the
-- codec, the snapshot, the backoff and the guard; on Mac OS 9 the bytes travel over Open Transport.
--
-- Files and code:
--   Prelude    shared names, Boolean tests, lists, signed integers, decimal digits
--   Alloc      malloc as a script of outcomes, and dup_or_null of cq_now.c and three more files
--   Guard      cq_guard.c: cq_guard_init, accept_ts, reset; Guard/History over whole histories
--   Backoff    cq_backoff.c: init, interval, interval_seeded, ok, fail; Backoff/Bounds
--   Debounce   cq_debounce.c: init, set, has, take, free; Debounce/Slot
--   Cache      cq_cache.c: key_find, has, get, put, shift_out_oldest, take_oldest; Cache/Fifo is the
--              abstract queue, Cache/Refine the refinement, Cache/Residence what stays cached
--   Codec      cq_codec.c: fields_put, cq_fields_parse, cq_fields_get, cq_parse_ll; Codec/Lookup,
--              Codec/Parse, Codec/Number and Codec/Document
--   Now        cq_now.c: from_fields, from_response, interpolated_position_ms; Now/Position and
--              Now/Response
--   Rows       the row scan that cq_track.c and cq_reflist.c share; Rows/Gap, Rows/Scan
--   Track      cq_track.c; Track/List
--   RefList    cq_reflist.c; RefList/List
--   Mp3        cq_mp3.c: cq_mp3_parse, walk, sync; Mp3/Header, Mp3/Walk, Mp3/Sync
--   DecRing    cq_decring.c: space, claim, commit, eof, idle, reset, pump; DecRing/Wrap and
--              DecRing/Cursors are the theory of byte rings, DecRing/Fifo the two streams,
--              DecRing/Round one round of the decode loop, DecRing/Gate its gate, DecRing/Pump a pass
--   View       cq_view.c: cq_view_render, cq_view_differs; View/Status, View/Word, View/Bounds,
--              View/Differs
--   Pls        cq_pls.c: cq_pls_first_url; Pls/Choice
--   Transport  cq_transport_posix.c: cq_tx_new, start, poll, drain, cancel and what they call;
--              Transport/Buffer, Transport/Settles for transactions, Transport/Stream,
--              Transport/Reads and Transport/Poll for streams
--   Ot         cq_transport_ot.c: probe_emit, ot_teardown, fail, cq_tx_new and stream_new;
--              Ot/Address parse_dotted_quad and resolve_host, Ot/Connect ot_ensure_up,
--              open_and_connect and pump_connect, Ot/Transfer pump_send and pump_recv, Ot/Loop
--              cq_tx_start, poll, drain, cancel and free, Ot/Udp cq_tx_udp and cq_tx_udp_stats.
--              Ot/Sound, Ends, Slices, Sends, Polls and Histories are about whole
--              histories of calls, Ot/Outcomes and Reports about what a poll reports, Ot/Deadlines
--              about time, Ot/Quads about addresses and Ot/Datagrams about the log mirror
--   DecTask    os9/casquinha.c: DecodeTaskProc, ParkDecTask, QuitDecTask as steps of two sides;
--              DecTask/Protocol
--   Live       os9/casquinha.c: StartCommand, StartFire, ActionRepeat, SetIntent; Live/Play PlayItem
--              and PlayFrom, Live/Adopt AdoptReply, Live/Poll PumpTx and PollNetwork. Live/Keeps,
--              Replies and Cases carry the invariants, Live/Runs and Acts are about whole runs,
--              Live/Refusals, Wire, Pace, Cadence and Covers about errors, requests, polls, covers
--   Audio      os9/casquinha.c: DrainStreamToDec and AudioDoubleBack; Audio/Ends. Audio/Listen is
--              the state of a listen with StopAudio, ParkDecTask, OpenAudioOutput and
--              StartDoubleBuffer, Audio/Service is ServiceAudio; Audio/Handing, Listens, Frames and
--              Passes are about its passes
--   App        os9/casquinha.c: EscInto, ParseHttpUrl, ResultKindAt, QueueNextRow, FmtTime, and
--              cq_mp3dec_frame of cq_mp3dec.c; App/Fits, and App/Scene for BuildViewIn
-- The sources named cq_ stand in src/. Each component has its test runs and witnesses in its Tests.
--
-- Representation: numbers are native; `long long` is an integer that wraps at 64 bits, `unsigned long`
-- and `long` are 32-bit words, as on the PowerPC. C strings are lists of bytes without the final NUL,
-- and pointers that may be NULL are options. Allocation is a script of granted and refused requests,
-- so that a theorem over every script covers every pattern of failures. The decoder, the clock and the
-- interrupt are parameters of the pump, and the answers of the sockets and of Open Transport are
-- scripts. Ticks are 32-bit words, and the clock is read once in a call. A transaction of the event
-- loop that is in flight stands for itself by its selector. Two parts of the models are not in the
-- source: the ledger of Ot, which records the calls and the bytes that pass an endpoint, and
-- `overrun` of Live, which is set where a fixed buffer would be left.
--
-- Fuel: the codec's loop takes one round for each byte and one more, the row scan one for each field
-- and one more, the pump one for each staged byte and one more, the feeder one for each buffered byte
-- and one more, the hand-over to the pipeline one for each staged byte and one more, and the growth of the receive buffer one for each byte that it must hold; the proofs
-- show that each is enough. All other loops are by structural recursion.
--
-- Not modelled: the rest of the app in os9/, which is how a stream is looked up and opened, the
-- documents beside the snapshot, and calls of the Toolbox; the setter of the log sink and the getters of
-- cq_transport_ot.c; of cq_transport_posix.c, cq_tx_free and the UDP log mirror; minimp3, which is
-- third-party code behind cq_mp3dec.c and enters by what cq_mp3dec.h promises of it; the command-line
-- tools and the tests.
pub mod Prelude
pub mod Alloc
pub mod Guard
pub mod Backoff
pub mod Debounce
pub mod Cache
pub mod Codec
pub mod Now
pub mod Ot
pub mod Rows
pub mod Track
pub mod RefList
pub mod Mp3
pub mod DecRing
pub mod View
pub mod Pls
pub mod Transport
pub mod Audio
pub mod DecTask
pub mod App
pub mod Live
