-- ===== src/Agent/Tcp/Packet/Stream.antt =====
-- What `packet` hands to WritePacket.
use libnice4android.Prelude.{
  ℕ, ◌+◌, ◌-◌, ◌≤◌, ◌≡◌, refl, arith, true, false, some, List, ◌∷◌, ◌++◌, ltb, ◌==◌, inl, inr,
  Bool-cases, ==_iff, length, take, drop, length-take, length-drop,
}
use libnice4android.Agent.Fifo.Ring.{IsFifo, contents}
use libnice4android.Agent.Fifo.Queue.{length-contents, read_offset-contents}
use libnice4android.Agent.Tcp.{
  Socket, wrote, WriteResult, write_success, write_too_large, write_fail, max_packet, header_size,
}
use libnice4android.Agent.Tcp.Packet.{header, payload, after_write, packet}

payload_lem :
    (s : Socket) (offset len : ℕ)
    → IsFifo s.sbuf
    → offset + len ≤ s.sbuf.data_length
    → payload s offset len ≡ some (take len (drop offset (contents s.sbuf)))
unfolding payload
payload_lem s offset len v h = elim (Bool-cases (len == 0)) [
  | inl e ↦ rw ((==_iff len 0).0 e) refl
  | inr e ↦ rw (e, read_offset-contents len offset v (omega (arith, v.filled, v.small)), whole) refl
]
  where
    whole : (length (take len (drop offset (contents s.sbuf))) == len) ≡ true
    whole = (==_iff _ _).1 (
        omega (
          arith,
          h,
          length-take len (drop offset (contents s.sbuf)),
          length-drop offset (contents s.sbuf),
          length-contents s.sbuf,
        ))

-- What stays of a socket when a packet is written.
pub record KeepsQueue (s t : Socket) : Type 0 where
  pub same_buffer : t.sbuf ≡ s.sbuf
  pub same_una : t.snd_una ≡ s.snd_una
  pub same_level : t.msslevel ≡ s.msslevel

after_write_lem :
    (w : WriteResult) (s' : Socket) (len now : ℕ)
    → ((after_write w s' len now).1.events ≡ s'.events) × KeepsQueue s' (after_write w s' len now).1
unfolding after_write
after_write_lem write_success s' len now =
    (refl, record { same_buffer = refl; same_una = refl; same_level = refl })
after_write_lem write_too_large s' len now = elim (Bool-cases (len == 0)) [
  | inl e ↦ (rw e refl, rw e (record { same_buffer = refl; same_una = refl; same_level = refl }))
  | inr e ↦ (rw e refl, rw e (record { same_buffer = refl; same_una = refl; same_level = refl }))
]
after_write_lem write_fail s' len now = elim (Bool-cases (len == 0)) [
  | inl e ↦ (rw e refl, rw e (record { same_buffer = refl; same_una = refl; same_level = refl }))
  | inr e ↦ (rw e refl, rw e (record { same_buffer = refl; same_una = refl; same_level = refl }))
]

-- For bytes of the send queue that fit into a packet no assertion fails: one packet is written, which
-- is the header and these bytes of the stream, whatever the result of WritePacket, and the queue stays.
pub packet_stream :
    (s : Socket) (seq flags offset len now : ℕ)
    → IsFifo s.sbuf
    → offset + len ≤ s.sbuf.data_length
    → len ≤ max_packet - header_size
    → (r : WriteResult × Socket) × (packet s seq flags offset len now ≡ some r)
      × (r.1.events
          ≡ wrote (header s seq flags now ++ take len (drop offset (contents s.sbuf))) ∷ s.events)
      × KeepsQueue s r.1
unfolding packet
packet_stream s seq flags offset len now v h fits =
    let (a, b) = after_write_lem result s' len now in
    (
      after_write result s' len now,
      rw (small, payload_lem s offset len v h) refl,
      a,
      record { same_buffer = b.same_buffer; same_una = b.same_una; same_level = b.same_level },
    )
  where
    bytes : List ℕ
    bytes = header s seq flags now ++ take len (drop offset (contents s.sbuf))

    s' : Socket
    s' = record s { ts_lastack = s.rcv_nxt; events = wrote bytes ∷ s.events }

    result : WriteResult
    result = s.write_packet s.events bytes

    small : ltb max_packet (header_size + len) ≡ false
    small = ground arith
