-- ===== src/Agent/Checks/Usernames.antt =====
-- agent/conncheck.c: the user names of the checks, as bytes. `decode` is g_base64_decode of GLib.
pub mod Bounds
use libnice4android.Prelude.{
  ℕ, zero, suc, ◌+◌, ◌-◌, ◌*◌, ◌/◌, ◌%◌, ◌≤◌, ◌<◌, Bool, true, false, not, ◌&&◌, Option, none, some,
  List, [], ◌∷◌, ◌++◌, take, length, replicate, ltb, leb, ◌==◌, if◌then◌else◌, ◌≡◌, refl, arith,
  length-append, length-replicate,
}
use libnice4android.Agent.Checks.{Compatibility, rfc5245, google, msn, wlm2009, oc2007, oc2007r2}

-- "%d", for a number that fits an `int`: at most ten digits.
unfoldable pub decimal : ℕ → ℕ → List ℕ
decimal zero n = []
decimal (suc digits) n =
    let rest = decimal digits (n / 10) in
    if ltb n 10 then (b'0' + n) ∷ [] else rest ++ (b'0' + n % 10) ∷ []

-- The bytes of a name, if they fit with their padding.
unfoldable pub fitting : ℕ → ℕ → List ℕ → List ℕ
fitting dest_len padding name =
    if leb (length name + padding) dest_len then name ++ replicate padding 0 else []

unfoldable pub msn_name : (List ℕ → List ℕ) → List ℕ → List ℕ → List ℕ → List ℕ
msn_name decode component_str remote local =
    decode remote ++ b':' ∷ component_str ++ b':' ∷ decode local ++ b':' ∷ component_str

unfoldable pub padded_name : List ℕ → List ℕ → ℕ → List ℕ
padded_name remote local dest_len =
    let name = remote ++ b':' ∷ local in
    if leb (length remote + length local + 4) dest_len
    then (if length name % 4 == 0 then name else name ++ replicate (4 - length name % 4) 0)
    else []

-- The name by the compatibility, of two texts that are not empty.
unfoldable pub name_for : (List ℕ → List ℕ) → Compatibility → ℕ → List ℕ → List ℕ → ℕ → List ℕ
name_for decode rfc5245 component_id remote local dest_len =
    fitting dest_len 0 (remote ++ b':' ∷ local)
name_for decode wlm2009 component_id remote local dest_len = padded_name remote local dest_len
name_for decode oc2007r2 component_id remote local dest_len = padded_name remote local dest_len
name_for decode google component_id remote local dest_len = fitting dest_len 0 (remote ++ local)
name_for decode msn component_id remote local dest_len =
    let name = msn_name decode (take 9 (decimal 10 component_id)) remote local in
    fitting dest_len (4 - length name % 4) name
name_for decode oc2007 component_id remote local dest_len =
    let name = msn_name decode (take 9 (decimal 10 component_id)) remote local in
    fitting dest_len (4 - length name % 4) name

-- `priv_gen_username`
unfoldable pub gen_username : (List ℕ → List ℕ) → Compatibility → ℕ → List ℕ → List ℕ → ℕ → List ℕ
gen_username decode compatibility component_id remote local dest_len =
    if ltb 0 (length remote) && ltb 0 (length local)
    then name_for decode compatibility component_id remote local dest_len
    else []

-- The text of a candidate, or else that of the stream.
unfoldable pub own_or : Option (List ℕ) → Option (List ℕ) → Option (List ℕ)
own_or none ufrag = ufrag
own_or (some name) ufrag = some name

unfoldable pub join :
    (List ℕ → List ℕ) → Compatibility → ℕ → Option (List ℕ) → Option (List ℕ) → ℕ → List ℕ
join decode compatibility component_id none local dest_len = []
join decode compatibility component_id (some remote) none dest_len = []
join decode compatibility component_id (some remote) (some local) dest_len =
    gen_username decode compatibility component_id remote local dest_len

-- `priv_create_username`, of the user names of the two candidates and the two fragments of the stream, each
-- `none` for NULL.
unfoldable pub create_username :
    (List ℕ → List ℕ)
    → Compatibility
    → ℕ
    → Option (List ℕ)
    → Option (List ℕ)
    → Option (List ℕ)
    → Option (List ℕ)
    → ℕ
    → Bool
    → List ℕ
create_username decode compatibility component_id remote local remote_ufrag local_ufrag dest_len
      inbound =
    let remote_username = own_or remote remote_ufrag in
    let local_username = own_or local local_ufrag in
    if inbound
    then join decode compatibility component_id local_username remote_username dest_len
    else join decode compatibility component_id remote_username local_username dest_len
