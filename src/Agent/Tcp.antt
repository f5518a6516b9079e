-- ===== src/Agent/Tcp.antt =====
-- agent/pseudotcp.c and agent/pseudotcp.h: the state of a pseudo-TCP socket, and its data types. Each
-- operation is in a child module.
pub mod Time
pub mod Packet
pub mod States
pub mod Options
pub mod Send
pub mod Receive
pub mod Acks
pub mod Process
pub mod Operations
pub mod Header
pub mod Connect
pub mod Transitions
mod Tests
use libnice4android.Prelude.{
  ℕ, ◌+◌, ◌*◌, ◌-◌, ◌%◌, ◌^◌, Bool, true, false, List, [], ◌∷◌, ltb, ◌==◌, if◌then◌else◌,
}
use libnice4android.Agent.Fifo
use libnice4android.Agent.Fifo.{Fifo}

-- `PseudoTcpState`
pub data State : Type 0 where
  listen syn_sent syn_received established closed fin_wait_1 fin_wait_2 closing time_wait close_wait
        last_ack :
      State

-- The numbers of `PseudoTcpState`; the code compares two states by them.
abbrev pub number : State → ℕ
number listen = 0
number syn_sent = 1
number syn_received = 2
number established = 3
number closed = 4
number fin_wait_1 = 5
number fin_wait_2 = 6
number closing = 7
number time_wait = 8
number close_wait = 9
number last_ack = 10

abbrev pub same_state : State → State → Bool
same_state s t = number s == number t

-- `PseudoTcpWriteResult`
pub data WriteResult : Type 0 where
  write_success write_too_large write_fail : WriteResult

-- `PseudoTcpShutdown`
pub data ShutdownHow : Type 0 where
  shutdown_rd shutdown_wr shutdown_rdwr : ShutdownHow

-- `Shutdown`
pub data Shutdown : Type 0 where
  sd_none sd_graceful sd_forceful : Shutdown

-- `SendFlags`
pub data SendFlags : Type 0 where
  sf_none sf_delayed_ack sf_immediate_ack sf_fin sf_rst : SendFlags

-- `ClosedownSource`
pub data ClosedownSource : Type 0 where
  closedown_local closedown_remote : ClosedownSource

-- The values of errno.h that the code uses; `no_error` is 0.
pub data Errno : Type 0 where
  no_error einval enotconn epipe ewouldblock econnaborted econnreset : Errno

-- `TcpFlags`
abbrev pub flag_fin : ℕ
flag_fin = 1

abbrev pub flag_ctl : ℕ
flag_ctl = 2

abbrev pub flag_rst : ℕ
flag_rst = 4

-- `TcpOption`
abbrev pub opt_eol : ℕ
opt_eol = 0

abbrev pub opt_noop : ℕ
opt_noop = 1

abbrev pub opt_wnd_scale : ℕ
opt_wnd_scale = 3

abbrev pub opt_fin_ack : ℕ
opt_fin_ack = 254

abbrev pub ctl_connect : ℕ
ctl_connect = 0

abbrev pub max_packet : ℕ
max_packet = 65535

abbrev pub header_size : ℕ
header_size = 24

-- HEADER_SIZE + UDP_HEADER_SIZE + IP_HEADER_SIZE + JINGLE_HEADER_SIZE
abbrev pub packet_overhead : ℕ
packet_overhead = 24 + 8 + 20 + 64

abbrev pub packet_maximums : List ℕ
packet_maximums = 65535 ∷ 32000 ∷ 17914 ∷ 8166 ∷ 4352 ∷ 2002 ∷ 1492 ∷ 1006 ∷ 508 ∷ 296 ∷ 0 ∷ []

abbrev pub min_rto : ℕ
min_rto = 250

abbrev pub def_rto : ℕ
def_rto = 1000

abbrev pub max_rto : ℕ
max_rto = 60000

abbrev pub default_rcv_buf_size : ℕ
default_rcv_buf_size = 60 * 1024

abbrev pub default_snd_buf_size : ℕ
default_snd_buf_size = 90 * 1024

-- Differences and sums of `guint32`.
abbrev pub sub32 : ℕ → ℕ → ℕ
sub32 a b = (a + 2 ^ 32 - b) % 2 ^ 32

abbrev pub add32 : ℕ → ℕ → ℕ
add32 a b = (a + b) % 2 ^ 32

abbrev pub greater : ℕ → ℕ → ℕ
greater a b = if ltb b a then a else b

-- `Segment`: a segment that was received.
pub record Segment : Type 0 where
  pub conv : ℕ
  pub seq : ℕ
  pub ack : ℕ
  pub flags : ℕ
  pub wnd : ℕ
  pub bytes : List ℕ
  pub len : ℕ
  pub tsval : ℕ
  pub tsecr : ℕ

-- `SSegment`: a segment to be sent, with its address.
pub record SSegment : Type 0 where
  pub address : ℕ
  pub seq : ℕ
  pub len : ℕ
  pub xmit : ℕ
  pub flags : ℕ

-- `RSegment`: a range that was received out of order.
pub record RSegment : Type 0 where
  pub seq : ℕ
  pub len : ℕ

-- The calls of the `PseudoTcpCallbacks`: a packet that is given to WritePacket, and the notifications.
pub data Event : Type 0 where
  wrote : List ℕ → Event
  opened readable writable : Event
  closed_with : Errno → Event

-- `PseudoTcpSocketPrivate`. `events` are the calls of callbacks, the last one first, and
-- `write_packet` is the answer of WritePacket to a packet, which may depend on the calls before it.
-- The live segments are those of `slist`; `unsent_slist` holds the addresses of some of them, and
-- `next_address` is a fresh one. `clock` is what g_get_monotonic_time () / 1000 returns.
pub record Socket : Type 0 where
  pub write_packet : List Event → List ℕ → WriteResult
  pub events : List Event
  pub clock : ℕ
  pub next_address : ℕ
  pub shutdown : Shutdown
  pub shutdown_reads : Bool
  pub error : Errno
  pub state : State
  pub conv : ℕ
  pub read_enable : Bool
  pub write_enable : Bool
  pub outgoing : Bool
  pub last_traffic : ℕ
  pub rlist : List RSegment
  pub rbuf_len : ℕ
  pub rcv_nxt : ℕ
  pub rcv_wnd : ℕ
  pub lastrecv : ℕ
  pub rwnd_scale : ℕ
  pub rbuf : Fifo
  pub slist : List SSegment
  pub unsent_slist : List ℕ
  pub sbuf_len : ℕ
  pub snd_nxt : ℕ
  pub snd_wnd : ℕ
  pub lastsend : ℕ
  pub snd_una : ℕ
  pub swnd_scale : ℕ
  pub sbuf : Fifo
  pub mss : ℕ
  pub msslevel : ℕ
  pub largest : ℕ
  pub mtu_advise : ℕ
  pub rto_base : ℕ
  pub ts_recent : ℕ
  pub ts_lastack : ℕ
  pub rx_rttvar : ℕ
  pub rx_srtt : ℕ
  pub rx_rto : ℕ
  pub ssthresh : ℕ
  pub cwnd : ℕ
  pub dup_acks : ℕ
  pub recover : ℕ
  pub t_ack : ℕ
  pub use_nagling : Bool
  pub ack_delay : ℕ
  pub support_wnd_scale : Bool
  pub current_time : ℕ
  pub support_fin_ack : Bool

-- `pseudo_tcp_socket_init`, with the callbacks, the conversation and the clock of a new socket.
unfoldable pub init : (List Event → List ℕ → WriteResult) → ℕ → ℕ → Socket
init write_packet conv clock = record {
  write_packet = write_packet;
  events = [];
  clock = clock;
  next_address = 1;
  shutdown = sd_none;
  shutdown_reads = false;
  error = no_error;
  state = listen;
  conv = conv;
  read_enable = true;
  write_enable = false;
  outgoing = false;
  last_traffic = 0;
  rlist = [];
  rbuf_len = default_rcv_buf_size;
  rcv_nxt = 0;
  rcv_wnd = default_rcv_buf_size;
  lastrecv = 0;
  rwnd_scale = 0;
  rbuf = Fifo.init default_rcv_buf_size;
  slist = [];
  unsent_slist = [];
  sbuf_len = default_snd_buf_size;
  snd_nxt = 0;
  snd_wnd = 1;
  lastsend = 0;
  snd_una = 0;
  swnd_scale = 0;
  sbuf = Fifo.init default_snd_buf_size;
  mss = 296 - packet_overhead;
  msslevel = 0;
  largest = 0;
  mtu_advise = max_packet;
  rto_base = 0;
  ts_recent = 0;
  ts_lastack = 0;
  rx_rttvar = 0;
  rx_srtt = 0;
  rx_rto = def_rto;
  ssthresh = default_rcv_buf_size;
  cwnd = 2 * (296 - packet_overhead);
  dup_acks = 0;
  recover = 0;
  t_ack = 0;
  use_nagling = true;
  ack_delay = 100;
  support_wnd_scale = true;
  current_time = 0;
  support_fin_ack = true;
}
