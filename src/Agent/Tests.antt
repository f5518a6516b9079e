-- ===== src/Agent/Tests.antt =====
-- Runs of the ICE code on some candidates and addresses, and the theorems at them.
use libnice4android.Prelude.{◌^◌, ◌<◌, ◌≡◌, refl, arith, false, some, [], ◌∷◌, ◌↔◌, ◌++◌}
use Prim.Native.Nat.{max}
use libnice4android.Agent.Candidate.{
  Candidate, host, relayed, udp, tcp_active, ice_priority, ice_priority_full, ice_type_preference,
  ice_local_preference, pair_priority,
}
use libnice4android.Agent.Candidate.Pairs.{specified_priority, pair_priority_iff}
use libnice4android.Prelude.{take, drop}
use libnice4android.Agent.Fifo.{Fifo, lesser, read_offset, read_fifo, write_fifo}
use libnice4android.Agent.Fifo.Ring.{IsFifo, contents}
use libnice4android.Agent.Fifo.Queue.{read_offset-contents, read_fifo-contents}
use libnice4android.Agent.Fifo.Write.{write_fifo-contents}

abbrev host_udp : Candidate
host_udp = record { type = host; transport = udp; component_id = 1 }

abbrev host_tcp : Candidate
host_tcp = record { type = host; transport = tcp_active; component_id = 2 }

abbrev relayed_udp : Candidate
relayed_udp = record { type = relayed; transport = udp; component_id = 1 }

host_udp_priority : ice_priority host_udp false false ≡ 0x780001FF
unfolding ice_priority ice_priority_full ice_type_preference ice_local_preference
host_udp_priority = refl

pair_priority_iff_example :
    (pair_priority 0x780001FF 0x80000000 ≡ specified_priority 0x780001FF 0x80000000)
    ↔ (max 0x780001FF 0x80000000 < 2 ^ 31)
pair_priority_iff_example = pair_priority_iff 0x780001FF 0x80000000 (omega arith) (omega arith)

-- A ring of four bytes that holds 7 and 8, the 8 at its start.
abbrev ring : Fifo
ring = record { buffer = 8 ∷ 0 ∷ 0 ∷ 7 ∷ []; buffer_length = 4; data_length = 2; read_position = 3 }

ring-IsFifo : IsFifo ring
ring-IsFifo = record {
  sized = refl;
  some_room = omega arith;
  small = omega arith;
  filled = omega arith;
  inside = omega arith;
}

ring-contents : contents ring ≡ 7 ∷ 8 ∷ []
unfolding contents
ring-contents = refl

read_offset-contents_example : read_offset ring 5 1 ≡ some (take 5 (drop 1 (contents ring)))
read_offset-contents_example = read_offset-contents 5 1 ring-IsFifo (omega arith)

read_fifo-contents_example :
    (b' : Fifo) × (read_fifo ring 1 ≡ some (take 1 (contents ring), b'))
    × IsFifo b'
    × (contents b' ≡ drop 1 (contents ring))
read_fifo-contents_example = read_fifo-contents 1 ring-IsFifo

write_fifo-contents_example :
    (b' : Fifo) × (write_fifo ring (1 ∷ 2 ∷ 3 ∷ []) ≡ some (lesser 3 2, b'))
    × IsFifo b'
    × (b'.buffer_length ≡ 4)
    × (contents b' ≡ contents ring ++ take 2 (1 ∷ 2 ∷ 3 ∷ []))
write_fifo-contents_example = write_fifo-contents (1 ∷ 2 ∷ 3 ∷ []) ring-IsFifo (omega arith)
