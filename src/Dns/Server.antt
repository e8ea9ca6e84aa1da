-- ===== src/Dns/Server.antt =====
-- The server of internal/dns/server.go: its state, what SetState makes of it, and the answers of
-- handle. A message of the DNS library is the part of it that handle reads or sets; sockets and logs
-- are left out.
use mutiauk.Base.{
  ℕ, Bool, true, false, not, Option, none, some, Bytes, List, [], ◌∷◌, Text, text_discrete, ◌==◌,
  if◌then◌else◌, length,
}
use mutiauk.Base.GoMap.{find, put, values}
use mutiauk.Dns.Names.{is_empty, canon_name, name_matches_any, normalize_suffixes}

pub record Host : Type 0 where
  pub name : Text
  pub ipv4 : Option Bytes
  pub ipv6 : Option Bytes
  pub comment : Text

pub record Server : Type 0 where
  pub ttl : ℕ
  pub suffixes : List Text
  pub hosts : List (Text × Host)

-- New, with a logger.
unfoldable pub new : ℕ → Server
new ttl = record { ttl = if ttl == 0 then 60 else ttl; suffixes = []; hosts = [] }

-- One round of the loop of SetState, for a host and its canonical name.
unfoldable pub place_host : List Text → Text → Host → List (Text × Host) → List (Text × Host)
unfolding name_matches_any
place_host clean name h next =
    if is_empty name
    then next
    else (if not (name_matches_any name clean)
        then next
        else put text_discrete name (record h { name = name }) next)

unfoldable pub add_hosts : List Text → List Host → List (Text × Host) → List (Text × Host)
unfolding place_host canon_name
add_hosts clean [] next = next
add_hosts clean (h ∷ hs) next = add_hosts clean hs (place_host clean (canon_name h.name) h next)

unfoldable pub set_state : List Text → List Host → Server → List Text × Server
unfolding normalize_suffixes add_hosts
set_state suffixes hosts s =
    let clean = normalize_suffixes suffixes in
    (clean, record s { suffixes = clean; hosts = add_hosts clean hosts [] })

unfoldable pub host_count : Server → ℕ
host_count s = length s.hosts

unfoldable pub lookup : Text → Server → Option Host
unfolding canon_name find
lookup name s = find text_discrete (canon_name name) s.hosts

unfoldable pub hosts_of : Server → List Host
hosts_of s = values s.hosts

abbrev pub opcode_query : ℕ
opcode_query = 0

abbrev pub rcode_success : ℕ
rcode_success = 0

abbrev pub rcode_format_error : ℕ
rcode_format_error = 1

abbrev pub rcode_name_error : ℕ
rcode_name_error = 3

abbrev pub rcode_refused : ℕ
rcode_refused = 5

abbrev pub type_a : ℕ
type_a = 1

abbrev pub type_aaaa : ℕ
type_aaaa = 28

pub record Question : Type 0 where
  pub qname : Text
  pub qtype : ℕ

pub record Query : Type 0 where
  pub opcode : ℕ
  pub questions : List Question

-- A record of class IN.
pub record Record : Type 0 where
  pub rr_name : Text
  pub rr_type : ℕ
  pub rr_ttl : ℕ
  pub address : Bytes

pub record Reply : Type 0 where
  pub authoritative : Bool
  pub recursion_available : Bool
  pub rcode : ℕ
  pub answer : List Record

abbrev pub reply : ℕ → List Record → Reply
reply rcode answer = record {
  authoritative = true;
  recursion_available = false;
  rcode = rcode;
  answer = answer;
}

abbrev pub record_of : Question → ℕ → Option Bytes → List Record
record_of q ttl none = []
record_of q ttl (some ip) =
    record { rr_name = q.qname; rr_type = q.qtype; rr_ttl = ttl; address = ip } ∷ []

-- The switch over the type of the question.
unfoldable pub answer_host : Question → ℕ → Host → List Record
answer_host q ttl host =
    if q.qtype == type_a
    then record_of q ttl host.ipv4
    else (if q.qtype == type_aaaa then record_of q ttl host.ipv6 else [])

unfoldable pub answer_found : Question → ℕ → Option Host → Reply
unfolding answer_host
answer_found q ttl none = reply rcode_name_error []
answer_found q ttl (some host) = reply rcode_success (answer_host q ttl host)

unfoldable pub answer_question : Server → List Question → Reply
unfolding canon_name name_matches_any find answer_found
answer_question s [] = reply rcode_format_error []
answer_question s (q ∷ qs) =
    let name = canon_name q.qname in
    if not (name_matches_any name s.suffixes)
    then reply rcode_name_error []
    else answer_found q s.ttl (find text_discrete name s.hosts)

unfoldable pub handle : Server → Query → Reply
unfolding answer_question
handle s req =
    if not (req.opcode == opcode_query)
    then reply rcode_refused []
    else answer_question s req.questions
