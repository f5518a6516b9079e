-- ===== src/Agent/Tcp/Packet.antt =====
-- The bytes of a segment: the first half of `packet`, and `parse`.
pub mod Stream
use libnice4android.Prelude.{
  ℕ, ◌+◌, ◌*◌, ◌-◌, ◌/◌, ◌%◌, ◌^◌, Bool, true, false, not, ◌&&◌, Option, none, some, List, [], ◌∷◌,
  ◌++◌, ltb, ◌==◌, if◌then◌else◌, ◌>>=◌, length, get_elem?,
}
use libnice4android.Stun.Bytes.{word_bytes}
use libnice4android.Stun.Message.{read}
use libnice4android.Stun.Values.{big_endian, bytes32}
use libnice4android.Agent.Fifo.{read_offset}
use libnice4android.Agent.Tcp.{
  Socket, Segment, WriteResult, write_success, write_too_large, write_fail, wrote, header_size,
  max_packet,
}

-- The 24 bytes of a header, at the time `now`.
unfoldable pub header : Socket → ℕ → ℕ → ℕ → List ℕ
header s seq flags now =
    bytes32 s.conv
    ++ (bytes32 seq
        ++ (bytes32 s.rcv_nxt
            ++ (0
                ∷ flags % 256
                ∷ (word_bytes (s.rcv_wnd / 2 ^ s.rwnd_scale)
                    ++ (bytes32 now ++ bytes32 s.ts_recent)))))

-- After a packet that was sent.
sent : Socket → ℕ → ℕ → Socket
sent s len now = record s {
  t_ack = 0;
  lastsend = if ltb 0 len then now else s.lastsend;
  last_traffic = now;
  outgoing = true;
}

-- The result of WritePacket counts only for a packet with a payload.
after_write : WriteResult → Socket → ℕ → ℕ → WriteResult × Socket
unfolding sent
after_write write_success s len now = (write_success, sent s len now)
after_write write_too_large s len now =
    if len == 0 then (write_success, sent s len now) else (write_too_large, s)
after_write write_fail s len now =
    if len == 0 then (write_success, sent s len now) else (write_fail, s)

-- The payload; the assertion is that all of it was there.
payload : Socket → ℕ → ℕ → Option (List ℕ)
payload s offset len = if len == 0 then some [] else (do
  bytes ← read_offset s.sbuf len offset
  if length bytes == len then some bytes else none)

unfoldable pub packet : Socket → ℕ → ℕ → ℕ → ℕ → ℕ → Option (WriteResult × Socket)
unfolding after_write payload
packet s seq flags offset len now = if ltb max_packet (header_size + len) then none else (do
  body ← payload s offset len
  let bytes = header s seq flags now ++ body
  let s' = record s { ts_lastack = s.rcv_nxt; events = wrote bytes ∷ s.events }
  some (after_write (s.write_packet s.events bytes) s' len now))

-- `ntohl` of a word in the header.
read32 : List ℕ → ℕ → Option ℕ
read32 buf i = do bytes ← read buf i 4; some (big_endian 0 bytes)

-- The segment that `parse` makes of a header and a payload; the length of a payload fits 32 bits.
unfoldable pub segment_of : List ℕ → List ℕ → Option Segment
unfolding read32
segment_of header_buf data_buf = do
  conv ← read32 header_buf 0
  seq ← read32 header_buf 4
  ack ← read32 header_buf 8
  flags ← get_elem? header_buf 13
  wnd ← read header_buf 14 2
  tsval ← read32 header_buf 16
  tsecr ← read32 header_buf 20
  some (record {
    conv = conv;
    seq = seq;
    ack = ack;
    flags = flags;
    wnd = big_endian 0 wnd;
    bytes = data_buf;
    len = length data_buf % 2 ^ 32;
    tsval = tsval;
    tsecr = tsecr;
  })
