-- ===== src/Stun/Unknowns.antt =====
-- stun/stunagent.c: the attributes of a message that an agent must understand and does not know.
pub mod Laws
use libnice4android.Prelude.{
  ℕ, zero, suc, ◌+◌, ◌-◌, ◌/◌, ◌%◌, ◌^◌, Bool, true, false, not, ◌&&◌, Option, none, some, List, [],
  ◌∷◌, ltb, ◌==◌, if◌then◌else◌, ◌>>=◌,
}
use libnice4android.Stun.Types.{Config}
use libnice4android.Stun.Bytes.{getw}
use libnice4android.Stun.Message.{Message, message_length, is_aligned, skip}

-- `stun_optional`; its argument is a `uint16_t`.
unfoldable pub optional : ℕ → Bool
optional t = t / 2 ^ 15 == 1

-- `known_attributes` is an array that ends with a 0; `none` is a read behind an array that does not.
unfoldable pub is_unknown : List ℕ → ℕ → Option Bool
is_unknown [] type = none
is_unknown (known_attr ∷ more) type =
    let rest = is_unknown more type in
    if known_attr == 0 then some true else (if known_attr == type then some false else rest)

-- The `while` loop of `stun_agent_find_unknowns`; `left` is `max - count`. The entries of the result
-- are stored with `htons`.
unfoldable pub unknowns_loop : ℕ → List ℕ → Bool → List ℕ → ℕ → ℕ → ℕ → Option (List ℕ)
unknowns_loop zero buffer aligned known len left offset = none
unknowns_loop (suc fuel) buffer aligned known len left offset =
    if ltb offset len && not (left == 0)
    then (do
      alen ← getw buffer (offset + 2)
      atype ← getw buffer offset
      unknown ← if optional atype then some false else is_unknown known atype
      let next = offset + 4 + skip aligned alen
      let rest = unknowns_loop fuel buffer aligned known len left next
      let fewer = unknowns_loop fuel buffer aligned known len (left - 1) next
      if unknown then (do more ← fewer; some (atype ∷ more)) else rest)
    else some []

-- `len` is a `uint16_t`.
unfoldable pub find_unknowns : Config → List ℕ → Message → ℕ → Option (List ℕ)
find_unknowns agent known msg max = do
  length ← message_length msg
  let len = length % 2 ^ 16
  unknowns_loop (suc len) msg.buffer (is_aligned (some agent)) known len max 20
