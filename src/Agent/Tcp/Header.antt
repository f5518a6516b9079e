-- ===== src/Agent/Tcp/Header.antt =====
-- The header of a packet is read back as it was written.
use libnice4android.Prelude.{ℕ, ◌/◌, ◌%◌, ◌^◌, ◌<◌, ◌≡◌, arith, some, List, length, bit_and_mask}
use libnice4android.Stun.Bytes.{word_bytes}
use libnice4android.Stun.Message.{read}
use libnice4android.Stun.Values.{big_endian, bytes32}
use libnice4android.Agent.Tcp.{Socket}
use libnice4android.Agent.Tcp.Packet.{header, segment_of}

big_endian-bytes32 : (v : ℕ) → v < 2 ^ 32 → big_endian 0 (bytes32 v) ≡ v
unfolding big_endian bytes32
big_endian-bytes32 v h = omega arith

big_endian-word_bytes : (v : ℕ) → v < 2 ^ 16 → big_endian 0 (word_bytes v) ≡ v
unfolding big_endian
big_endian-word_bytes v h = omega (arith, bit_and_mask 8 (v % 2 ^ 16))

-- On the header of a packet and its payload `parse` finds the segment that was sent: the conversation,
-- the numbers, the flags, the window as it is scaled, the two timestamps and the payload, if each of
-- them is in its range.
pub segment_of-header :
    (s : Socket) (seq flags now : ℕ) (bytes : List ℕ)
    → s.conv < 2 ^ 32
    → seq < 2 ^ 32
    → s.rcv_nxt < 2 ^ 32
    → flags < 2 ^ 8
    → s.rcv_wnd / 2 ^ s.rwnd_scale < 2 ^ 16
    → now < 2 ^ 32
    → s.ts_recent < 2 ^ 32
    → length bytes < 2 ^ 32
    → segment_of (header s seq flags now) bytes
      ≡ some (record {
        conv = s.conv;
        seq = seq;
        ack = s.rcv_nxt;
        flags = flags;
        wnd = s.rcv_wnd / 2 ^ s.rwnd_scale;
        bytes = bytes;
        len = length bytes;
        tsval = now;
        tsecr = s.ts_recent;
      })
unfolding segment_of header read big_endian bytes32
segment_of-header s seq flags now bytes h1 h2 h3 h4 h5 h6 h7 h8 =
    let e1 = big_endian-bytes32 s.conv h1 in
    let e2 = big_endian-bytes32 seq h2 in
    let e3 = big_endian-bytes32 s.rcv_nxt h3 in
    let e4 : flags % 256 ≡ flags = omega arith in
    let e5 = big_endian-word_bytes (s.rcv_wnd / 2 ^ s.rwnd_scale) h5 in
    let e6 = big_endian-bytes32 now h6 in
    let e7 = big_endian-bytes32 s.ts_recent h7 in
    let e8 : length bytes % 2 ^ 32 ≡ length bytes = omega arith in
    λ i. some (record {
      conv = e1 i;
      seq = e2 i;
      ack = e3 i;
      flags = e4 i;
      wnd = e5 i;
      bytes = bytes;
      len = e8 i;
      tsval = e6 i;
      tsecr = e7 i;
    })
