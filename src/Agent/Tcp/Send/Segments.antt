-- ===== src/Agent/Tcp/Send/Segments.antt =====
-- GQueues of segments, which are found by their addresses.
use libnice4android.Prelude.{ℕ, Option, none, some, List, [], ◌∷◌, ◌==◌, if◌then◌else◌, ◌>>=◌}
use libnice4android.Agent.Tcp.{SSegment}

-- `g_queue_peek_tail`
unfoldable pub last_segment : List SSegment → Option SSegment
last_segment [] = none
last_segment (s ∷ []) = some s
last_segment (s ∷ t ∷ more) = last_segment (t ∷ more)

-- An access through a pointer; `none` is a segment that was freed.
unfoldable pub find_segment : List SSegment → ℕ → Option SSegment
find_segment [] address = none
find_segment (s ∷ more) address =
    let rest = find_segment more address in if s.address == address then some s else rest

-- A store through a pointer, of a whole segment.
unfoldable pub set_segment : List SSegment → SSegment → List SSegment
set_segment [] segment = []
set_segment (s ∷ more) segment =
    let rest = set_segment more segment in
    if s.address == segment.address then segment ∷ more else s ∷ rest

-- `g_queue_insert_after` behind the segment at an address; `none` is a segment that is not there.
unfoldable pub insert_segment : List SSegment → ℕ → SSegment → Option (List SSegment)
insert_segment [] address segment = none
insert_segment (s ∷ more) address segment =
    let rest = insert_segment more address segment in
    if s.address == address then some (s ∷ segment ∷ more) else (do r ← rest; some (s ∷ r))

unfoldable pub insert_address : List ℕ → ℕ → ℕ → Option (List ℕ)
insert_address [] address new_address = none
insert_address (a ∷ more) address new_address =
    let rest = insert_address more address new_address in
    if a == address then some (a ∷ new_address ∷ more) else (do r ← rest; some (a ∷ r))
