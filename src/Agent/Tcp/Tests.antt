-- ===== src/Agent/Tcp/Tests.antt =====
-- A client and a server that connect, and the theorems at some sockets.
use libnice4android.Prelude.{
  ℕ, ◌+◌, ◌/◌, ◌^◌, ◌≤◌, ◌≡◌, arith, length, replicate, take, drop, ◌++◌, IsDefined, refl, Bool,
  true, false, Option, some, List, [], ◌∷◌, ◌>>=◌,
}
use libnice4android.Agent.Fifo.{Fifo}
use libnice4android.Agent.Fifo.Ring.{IsFifo, contents}
use libnice4android.Agent.Tcp.{
  State, listen, syn_sent, syn_received, established, closed, fin_wait_1, fin_wait_2, closing,
  time_wait, close_wait, last_ack, Socket, Event, wrote, opened, WriteResult, write_success,
  write_too_large, init, sf_immediate_ack, SendFlags, Segment, SSegment, econnaborted,
  closedown_local, sub32, add32, max_packet, header_size,
}
use libnice4android.Agent.Tcp.Send.{attempt_send, abort, closedown, write_loop}
use libnice4android.Agent.Tcp.Process.{notify_packet, close_transitions}
use libnice4android.Agent.Tcp.Time.{time_diff, time_diff_lem}
use libnice4android.Agent.Tcp.Packet.{header, packet, segment_of}
use libnice4android.Agent.Tcp.Packet.Stream.{packet_stream, KeepsQueue}
use libnice4android.Agent.Tcp.Header.{segment_of-header}
use libnice4android.Agent.Tcp.Transitions.{
  segment_arrives, told, close_transitions-segment_arrives, closedown-abort,
}
use libnice4android.Agent.Tcp.Options.{options_loop}
use libnice4android.Agent.Tcp.Connect.{options_loop-IsDefined}
use libnice4android.Agent.Tcp.Send.Ends.{write_loop-IsDefined}
use libnice4android.Agent.Tcp.Receive.{receive, acknowledge}
use libnice4android.Agent.Tcp.Receive.Invariant.{IsReceiving, IsData, receive-IsReceiving}
use libnice4android.Agent.Tcp.Acks.{free_segments}
use libnice4android.Agent.Tcp.Acks.Freed.{Tiles, total, free_segments-Tiles}
use libnice4android.Agent.Tcp.Operations.{connect, send, recv, Received, received, shutdown_socket}

-- An empty ring of 64 bytes, and one that holds five.
abbrev room : Fifo
room = record { buffer = replicate 64 0; buffer_length = 64; data_length = 0; read_position = 0 }

abbrev stream : Fifo
stream = record {
  buffer = 1 ∷ 2 ∷ 3 ∷ 4 ∷ 5 ∷ replicate 59 0;
  buffer_length = 64;
  data_length = 5;
  read_position = 0;
}

room-IsFifo : IsFifo room
room-IsFifo = record {
  sized = refl;
  some_room = omega arith;
  small = omega arith;
  filled = omega arith;
  inside = omega arith;
}

stream-IsFifo : IsFifo stream
stream-IsFifo = record {
  sized = refl;
  some_room = omega arith;
  small = omega arith;
  filled = omega arith;
  inside = omega arith;
}

-- A socket whose packets are all sent, with buffers of 64 bytes.
abbrev small : ℕ → Socket
small clock = record (init (λ events bytes. write_success) 7 clock) {
  rbuf = room;
  rbuf_len = 64;
  rcv_wnd = 64;
  sbuf = room;
  sbuf_len = 64;
}

-- The two ends of a connection; the packets that one writes are delivered to the other in order.
pub record Pair : Type 0 where
  pub client : Socket
  pub server : Socket

abbrev packets : List Event → List (List ℕ)
packets [] = []
packets (wrote bytes ∷ events) = bytes ∷ packets events
packets (_ ∷ events) = packets events

deliver : List Event → Socket → Option Socket
deliver [] s = some s
deliver (wrote bytes ∷ events) s = do
  s1 ← deliver events s
  (ok, s2) ← notify_packet s1 bytes
  some s2
deliver (_ ∷ events) s = deliver events s

exchange : Pair → Option Pair
unfolding deliver
exchange p = do
  server ← deliver p.client.events p.server
  client ← deliver server.events (record p.client { events = [] })
  some (record { client = client; server = record server { events = [] } })

handshake : Option Pair
unfolding exchange
handshake = do
  (ok, client) ← connect (small 1000)
  p ← exchange (record { client = client; server = small 5000 })
  client' ← attempt_send p.client sf_immediate_ack
  exchange (record p { client = client' })

states_of : Pair → State × State
states_of p = (p.client.state, p.server.state)

-- The handshake ends with both sockets established.
handshake_states : (handshake >>= (λ p. some (states_of p))) ≡ some (established, established)
unfolding handshake states_of libnice4android.Agent.Tcp.init libnice4android.Agent.Fifo.get_buffered
    libnice4android.Agent.Fifo.get_write_remaining libnice4android.Agent.Fifo.copy_out
    libnice4android.Agent.Fifo.consume_read_data libnice4android.Agent.Fifo.read_offset
    libnice4android.Agent.Fifo.write_offset libnice4android.Agent.Fifo.write_fifo
    libnice4android.Agent.Tcp.Time.get_current_time libnice4android.Agent.Tcp.Time.bound
    libnice4android.Agent.Tcp.Time.time_diff libnice4android.Agent.Tcp.Time.larger
    libnice4android.Agent.Tcp.Time.larger_or_equal libnice4android.Agent.Tcp.Time.smaller
    libnice4android.Agent.Tcp.Time.smaller_or_equal libnice4android.Agent.Tcp.Packet.header
    libnice4android.Agent.Tcp.Packet.packet libnice4android.Agent.Tcp.Packet.segment_of
    libnice4android.Agent.Tcp.States.has_sent_fin libnice4android.Agent.Tcp.States.transition
    libnice4android.Agent.Tcp.States.set_state libnice4android.Agent.Tcp.States.adjust_mtu
    libnice4android.Agent.Tcp.States.set_state_established
    libnice4android.Agent.Tcp.Options.apply_option libnice4android.Agent.Tcp.Options.options_loop
    libnice4android.Agent.Tcp.Options.after_options libnice4android.Agent.Tcp.Options.parse_options
    libnice4android.Agent.Tcp.Options.connect_bytes libnice4android.Agent.Tcp.Send.queue
    libnice4android.Agent.Tcp.Send.queue_connect_message libnice4android.Agent.Tcp.Send.write_loop
    libnice4android.Agent.Tcp.Send.transmit libnice4android.Agent.Tcp.Send.forced
    libnice4android.Agent.Tcp.Send.available libnice4android.Agent.Tcp.Send.send_loop
    libnice4android.Agent.Tcp.Send.rounds libnice4android.Agent.Tcp.Send.attempt_send
    libnice4android.Agent.Tcp.Receive.acknowledge libnice4android.Agent.Tcp.Receive.trim_front
    libnice4android.Agent.Tcp.Receive.trim_back libnice4android.Agent.Tcp.Receive.ignores_data
    libnice4android.Agent.Tcp.Receive.receive libnice4android.Agent.Tcp.Acks.update_rtt
    libnice4android.Agent.Tcp.Acks.scaled_window libnice4android.Agent.Tcp.Acks.free_segments
    libnice4android.Agent.Tcp.Acks.valuable_ack libnice4android.Agent.Tcp.Acks.duplicate_ack
    libnice4android.Agent.Tcp.Acks.process_ack libnice4android.Agent.Tcp.Process.control
    libnice4android.Agent.Tcp.Process.update_timestamp
    libnice4android.Agent.Tcp.Process.close_transitions libnice4android.Agent.Tcp.Process.process
    libnice4android.Agent.Tcp.Process.parse libnice4android.Agent.Tcp.Process.notify_packet
    libnice4android.Agent.Tcp.Operations.connect
    libnice4android.Agent.Tcp.Send.Segments.last_segment
    libnice4android.Agent.Tcp.Send.Segments.find_segment
    libnice4android.Agent.Tcp.Send.Segments.set_segment libnice4android.Stun.Message.read
    libnice4android.Stun.Values.big_endian libnice4android.Stun.Values.bytes32
    libnice4android.Stun.Bytes.write libnice4android.Stun.Bytes.blit
handshake_states = refl

-- The socket of the tests that receives: three bytes of the stream are outstanding.
abbrev receiver : Socket
receiver = record (small 1000) { state = established; rcv_nxt = 4294967294; support_fin_ack = true }

receiver-IsReceiving : IsReceiving receiver
unfolding init
receiver-IsReceiving = record {
  ring = room-IsFifo;
  ring_small = omega arith;
  next_small = omega arith;
  window = tt;
}

abbrev data_segment : ℕ → List ℕ → Segment
data_segment seq bytes = record {
  conv = 7;
  seq = seq;
  ack = 0;
  flags = 0;
  wnd = 64;
  bytes = bytes;
  len = length bytes;
  tsval = 0;
  tsecr = 0;
}

later_segment-IsData : IsData receiver (data_segment 1 (4 ∷ 5 ∷ []))
later_segment-IsData = record {
  formed = record { seq_small = omega arith; len_small = omega arith; carried = omega arith };
  no_fin = refl;
  no_ctl = refl;
  fin_ack = refl;
}

receive-IsReceiving_example :
    (r : Bool × SendFlags × Socket) × (receive receiver (data_segment 1 (4 ∷ 5 ∷ [])) ≡ some r)
    × IsReceiving r.2
receive-IsReceiving_example =
    receive-IsReceiving receiver (data_segment 1 (4 ∷ 5 ∷ [])) receiver-IsReceiving
      later_segment-IsData

segment_of-header_example :
    segment_of (header receiver 9 0 77) (1 ∷ 2 ∷ [])
    ≡ some (record {
      conv = 7;
      seq = 9;
      ack = 4294967294;
      flags = 0;
      wnd = 64 / 2 ^ 0;
      bytes = 1 ∷ 2 ∷ [];
      len = 2;
      tsval = 77;
      tsecr = 0;
    })
unfolding init
segment_of-header_example =
    segment_of-header receiver 9 0 77 (1 ∷ 2 ∷ []) (omega arith) (omega arith) (omega arith)
      (omega arith) (omega arith) (omega arith) (omega arith) (omega arith)

-- A server that got a FIN and whose own FIN is acknowledged by the same segment.
close_transitions-segment_arrives_example :
    close_transitions (record receiver { state = fin_wait_1 }) true true
    ≡ some (record receiver { state = segment_arrives fin_wait_1 true true })
close_transitions-segment_arrives_example =
    close_transitions-segment_arrives (record receiver { state = fin_wait_1 }) true true (λ e. cc)

closedown-abort_example : closedown receiver econnaborted closedown_local ≡ (
    abort receiver closedown_local
    >>= (λ s1. some (record s1 { state = closed; events = told econnaborted s1.events })))
closedown-abort_example = closedown-abort receiver econnaborted closedown_local

-- The options of a message whose last option ends after the message.
options_loop-IsDefined_example :
    IsDefined (options_loop 5 receiver (1 ∷ 3 ∷ 9 ∷ 0 ∷ []) 4 0 false false)
options_loop-IsDefined_example =
    options_loop-IsDefined 5 receiver (1 ∷ 3 ∷ 9 ∷ 0 ∷ []) 0 false false (omega arith) (omega arith)

-- Of five bytes of the stream the first two were sent before; no packet size is small enough.
abbrev sender : Socket
sender = record (small 1000) {
  write_packet = λ events bytes. write_too_large;
  state = established;
  snd_una = 4294967295;
  snd_nxt = 1;
  sbuf = stream;
  msslevel = 7;
}

abbrev unsent : SSegment
unsent = record { address = 4; seq = 1; len = 3; xmit = 0; flags = 0 }

packet_stream_example :
    (r : WriteResult × Socket) × (packet sender 1 0 2 3 77 ≡ some r)
    × (r.1.events
        ≡ wrote (header sender 1 0 77 ++ take 3 (drop 2 (contents stream))) ∷ sender.events)
    × KeepsQueue sender r.1
packet_stream_example = packet_stream sender 1 0 2 3 77 stream-IsFifo (omega arith) (omega arith)

write_loop-IsDefined_example : IsDefined (write_loop 11 sender unsent 3 77)
write_loop-IsDefined_example =
    write_loop-IsDefined 11 sender unsent 3 77 stream-IsFifo (omega arith) (omega arith)
      (omega arith) (omega arith) (omega arith)

-- Two segments of which four bytes are acknowledged.
abbrev queue_of_two : List SSegment
queue_of_two = record { address = 3; seq = 4294967295; len = 2; xmit = 1; flags = 0 } ∷ unsent ∷ []

free_segments-Tiles_example :
    (r : List SSegment × ℕ) × (free_segments 4 queue_of_two 0 ≡ some r)
    × Tiles (add32 4294967295 4) r.0
    × (total r.0 + 4 ≡ total queue_of_two)
    × (0 ≤ r.1)
free_segments-Tiles_example =
    free_segments-Tiles 4 queue_of_two 0 4294967295 (refl, (refl, tt)) (omega arith) (omega arith)
