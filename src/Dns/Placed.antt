-- ===== src/Dns/Placed.antt =====
-- Where the loop of SetState (internal/dns/server.go) puts the hosts.
use mutiauk.Base.{
  ◌≡◌, refl, ap, ◌∙◌, not, ◌&&◌, Option, none, some, List, [], ◌∷◌, Text, text_discrete, does,
  arith, if_cases, if◌then◌else◌, true,
}
use mutiauk.Base.GoMap.{find, Unique, find-put, put-Unique}
use mutiauk.Dns.Names.{is_empty, canon_name, name_matches_any, normalize_suffixes}
use mutiauk.Dns.Server.{Host, Server, place_host, add_hosts, set_state}

-- A host under its own name, which is under a suffix.
abbrev pub Placed : List Text → Text → Option Host → Type 0
Placed suffixes k none = Unit
Placed suffixes k (some h) = (h.name ≡ k) × (name_matches_any k suffixes ≡ true)

-- Each key of the map has a host of that name under an active suffix.
abbrev pub Sound : Server → Type 0
Sound s =
    Unique text_discrete s.hosts × ((k : Text) → Placed s.suffixes k (find text_discrete k s.hosts))

module _ (clean : List Text) where
  place_host-Unique :
      (name : Text) (h : Host) (next : List (Text × Host))
      → Unique text_discrete next
      → Unique text_discrete (place_host clean name h next)
  unfolding place_host
  place_host-Unique name h next u =
      if_cases (Unique text_discrete) (is_empty name) (λ _. u)
        (λ _.
          if_cases (Unique text_discrete) (not (name_matches_any name clean)) (λ _. u)
            (λ _. put-Unique text_discrete name (record h { name = name }) next u))

  add_hosts-Unique :
      (hs : List Host) (next : List (Text × Host))
      → Unique text_discrete next
      → Unique text_discrete (add_hosts clean hs next)
  unfolding add_hosts
  add_hosts-Unique [] next u = u
  add_hosts-Unique (h ∷ hs) next u =
      add_hosts-Unique hs (place_host clean (canon_name h.name) h next)
        (place_host-Unique (canon_name h.name) h next u)

  -- A host with a canonical name is looked up under k.
  abbrev pub named : Text → Text → Host → Option Host → Option Host
  named k name h o =
      if does (text_discrete name k) && (not (is_empty k) && name_matches_any k clean)
      then some (record h { name = k })
      else o

  -- The last host of a name, among those under a suffix.
  abbrev pub last_named : Text → List Host → Option Host → Option Host
  last_named k [] o = o
  last_named k (h ∷ hs) o = last_named k hs (named k (canon_name h.name) h o)

  find-place_host :
      (k name : Text) (h : Host) (next : List (Text × Host))
      → find text_discrete k (place_host clean name h next)
        ≡ named k name h (find text_discrete k next)
  unfolding place_host
  find-place_host k name h next =
      ground (arith, find-put text_discrete k name (record h { name = name }) next)

  named-Placed :
      (k name : Text) (h : Host) (o : Option Host)
      → Placed clean k o
      → Placed clean k (named k name h o)
  named-Placed k name h o p = ground arith

  pub find-add_hosts :
      (k : Text) (hs : List Host) (next : List (Text × Host))
      → find text_discrete k (add_hosts clean hs next) ≡ last_named k hs (find text_discrete k next)
  unfolding add_hosts
  find-add_hosts k [] next = refl
  find-add_hosts k (h ∷ hs) next =
      find-add_hosts k hs (place_host clean (canon_name h.name) h next)
      ∙ ap (last_named k hs) (find-place_host k (canon_name h.name) h next)

  last_named-Placed :
      (k : Text) (hs : List Host) (o : Option Host)
      → Placed clean k o
      → Placed clean k (last_named k hs o)
  last_named-Placed k [] o p = p
  last_named-Placed k (h ∷ hs) o p =
      last_named-Placed k hs _ (named-Placed k (canon_name h.name) h o p)

pub set_state-Sound :
    (suffixes : List Text) (hosts : List Host) (s : Server) → Sound (set_state suffixes hosts s).1
unfolding set_state find
set_state-Sound suffixes hosts s =
    let clean = normalize_suffixes suffixes in
    (
      add_hosts-Unique clean hosts [] tt,
      λ k. rw (find-add_hosts clean k hosts []) (last_named-Placed clean k hosts none tt),
    )
