-- ===== src/Lib.antt =====
-- A model of py-uart-proxy: a program that reads a serial device, turns what it says into stamped
-- events, and shares it with local and remote clients.
--
-- How the parts work together. A session (src/uart_proxy/core/session.py) reads a source and writes to
-- it. A line assembler (core/line_assembler.py) makes lines of the bytes, one assembler for each way,
-- and the session publishes both the chunks and the lines as events (core/events.py). Among those who
-- hear the events are the replay buffer (core/replay.py), which keeps the last lines for a client that
-- attaches later. A session's source may be a telnet console server, whose bytes
-- io/telnet_source.py unframes. Triggers (core/triggers.py) hear every event, match rules against it,
-- and publish and write through the session. The proxy (proxy/server.py) shares the session: it lets
-- clients in by a code, limits failed attempts, sends each event to every client's queue, and takes
-- writes, window sizes, watches and proposed rules from the clients, as their role allows. The client
-- library (client.py) makes lines of what the proxy sends and numbers them for its readers. Old session
-- folders are deleted by core/retention.py. The recorder (core/recorder.py) hears the events and keeps
-- bytes and lines in parts, which core/recording.py loads and ui/replay.py plays. A mirror of core/pty_proxy.py
-- gives the device's bytes to a local program and takes what it writes, and its group brings that to the
-- session, merged by lines or as it comes. The MCP server (mcp.py) answers an agent's tools by the client library.
-- core/port_identity.py finds a device that has moved to another port, and health.py tells how a session
-- fares.
--
-- Which file models what:
--   Prelude.antt (Tests, Lists, Dict, Recent, Result): Boolean tests, lists over the native numbers,
--     dictionaries, deques of recent times, results that may be exceptions.
--   Json.antt: what a Python dict of JSON values is, for the `meta` of an event.
--   Event.antt: EventKind, Direction, Stamp, Event of core/events.py and core/timestamp.py.
--   LineAssembler.antt: feed, _feed_cr, has_pending, pending, flush of core/line_assembler.py.
--   Replay.antt: ReplayEntry and ReplayBuffer of core/replay.py.
--   AuthLimiter.antt: AuthLimiter of proxy/server.py.
--   Telnet.antt: TelnetProtocol of io/telnet_source.py.
--   Session.antt, Session/Connection.antt: UartSession of core/session.py.
--   Triggers.antt (Limits, Firing, Watching, Rules, Pattern, Normalise, View, Adding, Loading): the
--     rules of core/triggers.py: the limits of `_matched`, its actions and `_send`, `_on_event` with what
--     it calls, `normalise` with `_nested_repeat` and `_hex_bytes`, and add, update, remove, remove_where,
--     enable, approve, list, events and load. Times there are ticks of 10⁻⁴ s.
--   Server.antt (Fanout, Handshake, Requests, Proposals, Capacity): ProxyServer and _Client of
--     proxy/server.py, Role, EOL_MAP and decode_message of proxy/protocol.py: `_serialize`, `_on_event`,
--     `_authenticate`, `_send_replay`, the handlers of `_reader_loop`, `decide`, accept, the end of a
--     connection and stop; and publish of core/bus.py.
--   Client.antt (Reading, Messages, Requests): SessionClient of client.py: `_add`, `_line`, read, tail,
--     `_before`, one look of expect, the messages it sends, `_handle`, `_request` with what uses it, one
--     look of wait_event, and the end of its link.
--   Retention.antt: apply_retention of core/retention.py.
--   Pty.antt: PtyMirror and PtyProxyGroup of core/pty_proxy.py: enqueue, drop_if_stale, _pump_rx,
--     _pump_tx, _forward, broadcast, handle; Flush, Merge and Wire describe the line merge by itself.
--   Recorder.antt: Recorder of core/recorder.py, with the parts on disk as a list; Numbers, Kept and
--     Rotating carry its invariant. Playback goes on to core/recording.py.
--   Recording.antt: Recording and load of core/recording.py, on times in ticks.
--   Player.antt: play_to_stream and ReplayApp of ui/replay.py.
--   Mcp.antt (Tools, Wire): McpServer of mcp.py: _bounded, _read_new, _tail, the marks, _read_events,
--     _timeout, _when, the tools by what they send, _call, _dispatch and handle_line.
--   PortIdentity.antt: find_moved of core/port_identity.py.
--   Health.antt: assess of health.py.
--   Tests: runs at concrete inputs.
--
-- How state is modelled. An object is a record, a method takes the record last and returns the new one
-- beside its result. A session's method returns the events that it publishes. The session's manager is
-- a function of a script, which tells what each attempt to open the source and each read gives; a
-- script ends when `stop` is called, at once or while an attempt to open the source is under way that
-- outlasts the wait of `stop`. A time is a whole number of ticks. The clock, the decoding of
-- bytes to text, JSON, regular expressions, the source's description and the format of a time of day are
-- parameters. A call that may raise gives a result. Messages stand for their encoded lines. The loop of
-- `feed` takes fuel, the buffer's length and one more: each round removes at least one byte. So does the
-- loop that cuts the line of a mirror. The loop of `add` for an unused id takes fuel, the number of rules
-- and one more. What `os.write` takes and what a screen's emulator shows are parameters.
--
-- Not modelled: threads that interleave within one method (each method is one step), sockets, serial
-- ports and the other sources, the daemons' registry, the command line and the terminal interfaces
-- outside the players, the plugins, port_busy and port_picker, the text helpers, the examples, the links
-- that a mirror makes in the file system, the dates that a recording's name or a reader's time may have,
-- the notifications of the MCP server, and the parts that the manifest lists.
pub mod AuthLimiter
pub mod Client
pub mod Event
pub mod Health
pub mod Json
pub mod LineAssembler
pub mod Mcp
pub mod Player
pub mod PortIdentity
pub mod Prelude
pub mod Pty
pub mod Recorder
pub mod Recording
pub mod Replay
pub mod Retention
pub mod Server
pub mod Session
pub mod Telnet
mod Tests
pub mod Triggers
