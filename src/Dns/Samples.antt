-- ===== src/Dns/Samples.antt =====
-- Runs of the mesh's resolver, and its theorems at concrete inputs.
use mutiauk.Base.{◌≡◌, none, some, List, [], ◌∷◌, Text, bytes, All, refl}
use mutiauk.Dns.Names.{canon_name, matches_any_suffix, normalize_suffixes}
use mutiauk.Dns.SafeBytes.{SafeName, normalize_suffixes-Safe}
use mutiauk.Dns.SameName.{same_name}
use mutiauk.Dns.Server.{Host, Server, new, set_state, lookup, Query, handle}
use mutiauk.Dns.Answers.{
  last_same, expected_for, expected_reply, lookup-set_state, handle-set_state,
}

abbrev offered : List Text
offered = bytes " .Mesh. " ∷ bytes "alt.net" ∷ bytes "mesh" ∷ bytes "../etc" ∷ []

offered_active : normalize_suffixes offered ≡ bytes "alt.net" ∷ bytes "mesh" ∷ []
unfolding normalize_suffixes
offered_active = refl

normalize_suffixes-Safe_example : All SafeName (normalize_suffixes offered)
normalize_suffixes-Safe_example = normalize_suffixes-Safe offered

abbrev target : Host
target = record {
  name = bytes "Target.Mesh.";
  ipv4 = some (10 ∷ 0 ∷ 0 ∷ 5 ∷ []);
  ipv6 = none;
  comment = [];
}

abbrev server : Server
server = new 0

lookup-set_state_example :
    lookup (bytes "target.mesh.") (set_state offered (target ∷ []) server).1
    ≡ last_same (normalize_suffixes offered) (bytes "target.mesh.") (target ∷ []) none
lookup-set_state_example = lookup-set_state offered (target ∷ []) server (bytes "target.mesh.")

abbrev query : Query
query = record { opcode = 0; questions = record { qname = bytes "TARGET.mesh."; qtype = 1 } ∷ [] }

handle-set_state_example :
    handle (set_state offered (target ∷ []) server).1 query
    ≡ expected_reply
        (normalize_suffixes offered)
        (target ∷ [])
        server.ttl
        0
        (record { qname = bytes "TARGET.mesh."; qtype = 1 } ∷ [])
handle-set_state_example = handle-set_state offered (target ∷ []) server query

-- Both sides of that equation on the target's address.
answered :
    expected_reply (normalize_suffixes offered) (target ∷ []) server.ttl 0 query.questions
    ≡ expected_for
        (record { qname = bytes "TARGET.mesh."; qtype = 1 })
        60
        (some (record target { name = bytes "target.mesh" }))
unfolding normalize_suffixes new same_name canon_name matches_any_suffix
answered = refl
