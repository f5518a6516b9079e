-- ===== src/Agent/Tcp/Receive/Next.antt =====
-- The data that come next are appended to what the application can read.
use libnice4android.Prelude.{ℕ, [], take}
use libnice4android.Agent.Fifo.Offset.{written, more}
use libnice4android.Agent.Tcp.{Socket, Segment, add32, sub32}

-- The socket after `n` bytes of a segment that came next.
stored : Socket → Segment → ℕ → Socket
stored s seg n = record s {
  rbuf = more (written s.rbuf (take n seg.bytes) 0) n;
  rcv_nxt = add32 s.rcv_nxt n;
  rcv_wnd = sub32 s.rcv_wnd n;
  rlist = [];
}
