-- ===== src/Dns/Answers.antt =====
-- What the server of internal/dns/server.go holds after SetState, and what it answers.
use mutiauk.Base.{
  ◌≡◌, refl, ap, ◌∙◌, not, ◌&&◌, Option, none, some, List, [], ◌∷◌, Text, Bytes, text_discrete,
  arith, if◌then◌else◌, ◌==◌, ℕ, true, false,
}
use mutiauk.Base.GoMap.{find}
use mutiauk.Dns.Names.{canon_name, name_matches_any, matches_any_suffix, normalize_suffixes}
use mutiauk.Dns.SameName.{same_name, same_name-canon_name}
use mutiauk.Dns.Server.{
  Host, Server, set_state, lookup, Question, Query, Reply, reply, answer_found, answer_host,
  answer_question, handle, opcode_query, rcode_name_error, rcode_refused, rcode_format_error,
}
use mutiauk.Dns.Placed.{Placed, Sound, named, last_named, find-add_hosts, set_state-Sound}

-- The last host that was given for a name in any case, with or without a dot at its end, if the name
-- is under a suffix.
abbrev pub last_same : List Text → Text → List Host → Option Host → Option Host
last_same clean name [] o = o
last_same clean name (h ∷ hs) o = last_same clean name hs (
    if same_name h.name name && matches_any_suffix name clean
    then some (record h { name = canon_name name })
    else o)

named_same :
    (clean : List Text) (name : Text) (h : Host) (o : Option Host)
    → named clean (canon_name name) (canon_name h.name) h o ≡ (
        if same_name h.name name && matches_any_suffix name clean
        then some (record h { name = canon_name name })
        else o)
unfolding matches_any_suffix name_matches_any
named_same clean name h o = ground (arith, same_name-canon_name h.name name)

last_named_same :
    (clean : List Text) (name : Text) (hs : List Host) (o : Option Host)
    → last_named clean (canon_name name) hs o ≡ last_same clean name hs o
last_named_same clean name [] o = refl
last_named_same clean name (h ∷ hs) o =
    last_named_same clean name hs (named clean (canon_name name) (canon_name h.name) h o)
    ∙ ap (last_same clean name hs) (named_same clean name h o)

-- With names of ASCII, after SetState a name finds the last host that was given under the same name
-- up to the case of letters and one dot at the end of either, if the name is under an active suffix.
pub lookup-set_state :
    (suffixes : List Text) (hosts : List Host) (s : Server) (name : Text)
    → lookup name (set_state suffixes hosts s).1
      ≡ last_same (normalize_suffixes suffixes) name hosts none
unfolding lookup set_state find
lookup-set_state suffixes hosts s name =
    find-add_hosts (normalize_suffixes suffixes) (canon_name name) hosts []
    ∙ last_named_same (normalize_suffixes suffixes) name hosts none

-- What the name of the first question gets.
abbrev pub first_answer : Server → List Question → Reply
first_answer s [] = reply rcode_format_error []
first_answer s (q ∷ qs) = answer_found q s.ttl (lookup q.qname s)

-- A name that is found is under a suffix, so that the test of the suffixes changes nothing.
suffix_test :
    (k : Text) (suffixes : List Text) (o : Option Host) (q : Question) (ttl : ℕ)
    → Placed suffixes k o
    → (if not (name_matches_any k suffixes)
        then reply rcode_name_error []
        else answer_found q ttl o)
      ≡ answer_found q ttl o
unfolding answer_found
suffix_test k suffixes none q ttl p = ground arith
suffix_test k suffixes (some h) q ttl p = ground arith

answer_question_exact :
    (s : Server) (qs : List Question) → Sound s → answer_question s qs ≡ first_answer s qs
unfolding answer_question lookup
answer_question_exact s [] h = refl
answer_question_exact s (q ∷ qs) h =
    suffix_test (canon_name q.qname) s.suffixes (find text_discrete (canon_name q.qname) s.hosts) q
      s.ttl (h.1 (canon_name q.qname))

-- The address of a host that a question asks for: A has type 1 and AAAA has type 28.
abbrev pub address_asked : ℕ → Host → Option Bytes
address_asked qtype h = if qtype == 1 then h.ipv4 else (if qtype == 28 then h.ipv6 else none)

abbrev pub reply_with : ℕ → Question → ℕ → Option Bytes → Reply
reply_with rcode q ttl none = record {
  authoritative = true;
  recursion_available = false;
  rcode = rcode;
  answer = [];
}
reply_with rcode q ttl (some ip) = record {
  authoritative = true;
  recursion_available = false;
  rcode = rcode;
  answer = record { rr_name = q.qname; rr_type = q.qtype; rr_ttl = ttl; address = ip } ∷ [];
}

-- What the host of its name makes of a question: NOERROR, or NXDOMAIN without one.
abbrev pub expected_for : Question → ℕ → Option Host → Reply
expected_for q ttl none = reply_with 3 q ttl none
expected_for q ttl (some h) = reply_with 0 q ttl (address_asked q.qtype h)

-- What a query is to get: REFUSED if it is no standard query, FORMERR if it asks nothing, and else
-- the answer to its first question.
abbrev pub expected_reply : List Text → List Host → ℕ → ℕ → List Question → Reply
expected_reply clean hosts ttl opcode [] = reply (if opcode == 0 then 1 else 5) []
expected_reply clean hosts ttl opcode (q ∷ qs) =
    if opcode == 0 then expected_for q ttl (last_same clean q.qname hosts none) else reply 5 []

expected_found :
    (q : Question) (ttl : ℕ) (o : Option Host) → answer_found q ttl o ≡ expected_for q ttl o
unfolding answer_found answer_host
expected_found q ttl none = refl
expected_found q ttl (some h) = ground arith

first_expected :
    (suffixes : List Text) (hosts : List Host) (s : Server) (opcode : ℕ) (qs : List Question)
    → (if not (opcode == opcode_query)
        then reply rcode_refused []
        else first_answer (set_state suffixes hosts s).1 qs)
      ≡ expected_reply (normalize_suffixes suffixes) hosts s.ttl opcode qs
unfolding set_state
first_expected suffixes hosts s opcode [] = ground arith
first_expected suffixes hosts s opcode (q ∷ qs) =
    let found =
      expected_found q s.ttl (lookup q.qname (set_state suffixes hosts s).1)
      ∙ ap (expected_for q s.ttl) (lookup-set_state suffixes hosts s q.qname) in
    ground (arith, found)

-- With names of ASCII, after SetState a query other than a standard one is refused, one without a
-- question is a format error, and otherwise the first question decides: a name for which SetState was
-- given no host (up to case and one dot at the end), or that is under no active suffix, gets
-- NXDOMAIN; any other gets NOERROR with the IPv4 address of its last host for type A, the IPv6
-- address for type AAAA, if the host has one, and no answer for another type.
pub handle-set_state :
    (suffixes : List Text) (hosts : List Host) (s : Server) (req : Query)
    → handle (set_state suffixes hosts s).1 req
      ≡ expected_reply (normalize_suffixes suffixes) hosts s.ttl req.opcode req.questions
unfolding handle
handle-set_state suffixes hosts s req =
    let next = (set_state suffixes hosts s).1 in
    ap (λ r. if not (req.opcode == opcode_query) then reply rcode_refused [] else r)
      (answer_question_exact next req.questions (set_state-Sound suffixes hosts s))
    ∙ first_expected suffixes hosts s req.opcode req.questions
