-- ===== src/Agent/Checks/Usernames/Bounds.antt =====
-- The user names of the checks stay inside their buffer.
use libnice4android.Prelude.{
  ℕ, ◌-◌, ◌%◌, ◌≤◌, Bool, true, false, Option, none, some, List, ◌∷◌, ◌++◌, length, replicate,
  arith, length-append, length-replicate,
}
use libnice4android.Agent.Checks.{Compatibility, rfc5245, google, msn, wlm2009, oc2007, oc2007r2}
use libnice4android.Agent.Checks.Usernames.{
  fitting, padded_name, name_for, gen_username, own_or, join, create_username,
}

fitting-le :
    (dest_len padding : ℕ) (name : List ℕ) → length (fitting dest_len padding name) ≤ dest_len
unfolding fitting
fitting-le dest_len padding name =
    ground (arith, length-append name (replicate padding 0), length-replicate {A = ℕ} padding 0)

padded_name-le :
    (remote local : List ℕ) (dest_len : ℕ) → length (padded_name remote local dest_len) ≤ dest_len
unfolding padded_name
padded_name-le remote local dest_len =
    let name = remote ++ b':' ∷ local in
    ground (
      arith,
      length-append remote (b':' ∷ local),
      length-append name (replicate (4 - length name % 4) 0),
      length-replicate {A = ℕ} (4 - length name % 4) 0,
    )

name_for-le :
    (decode : List ℕ → List ℕ) (compatibility : Compatibility) (id : ℕ) (remote local : List ℕ)
    (dest_len : ℕ)
    → length (name_for decode compatibility id remote local dest_len) ≤ dest_len
unfolding name_for
name_for-le decode rfc5245 id remote local dest_len = fitting-le dest_len 0 _
name_for-le decode wlm2009 id remote local dest_len = padded_name-le remote local dest_len
name_for-le decode oc2007r2 id remote local dest_len = padded_name-le remote local dest_len
name_for-le decode google id remote local dest_len = fitting-le dest_len 0 _
name_for-le decode msn id remote local dest_len = fitting-le dest_len _ _
name_for-le decode oc2007 id remote local dest_len = fitting-le dest_len _ _

gen_username-le :
    (decode : List ℕ → List ℕ) (compatibility : Compatibility) (id : ℕ) (remote local : List ℕ)
    (dest_len : ℕ)
    → length (gen_username decode compatibility id remote local dest_len) ≤ dest_len
unfolding gen_username
gen_username-le decode compatibility id remote local dest_len =
    ground (arith, name_for-le decode compatibility id remote local dest_len)

join-le :
    (decode : List ℕ → List ℕ) (compatibility : Compatibility) (id : ℕ)
    (remote local : Option (List ℕ)) (dest_len : ℕ)
    → length (join decode compatibility id remote local dest_len) ≤ dest_len
unfolding join
join-le decode compatibility id none local dest_len = omega arith
join-le decode compatibility id (some remote) none dest_len = omega arith
join-le decode compatibility id (some remote) (some local) dest_len =
    gen_username-le decode compatibility id remote local dest_len

-- `priv_create_username` writes no more than `dest_len` bytes, whatever the compatibility, the names, the
-- direction and the decoding of base 64 are.
pub create_username-le :
    (decode : List ℕ → List ℕ) (compatibility : Compatibility) (id : ℕ)
    (remote local remote_ufrag local_ufrag : Option (List ℕ)) (dest_len : ℕ) (inbound : Bool)
    → length (
        create_username decode compatibility id remote local remote_ufrag local_ufrag dest_len
          inbound)
      ≤ dest_len
unfolding create_username
create_username-le decode compatibility id remote local remote_ufrag local_ufrag dest_len true =
    join-le decode compatibility id (own_or local local_ufrag) (own_or remote remote_ufrag) dest_len
create_username-le decode compatibility id remote local remote_ufrag local_ufrag dest_len false =
    join-le decode compatibility id (own_or remote remote_ufrag) (own_or local local_ufrag) dest_len
