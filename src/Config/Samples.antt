-- ===== src/Config/Samples.antt =====
-- A configuration of forwards, and what its validation gives.
use mutiauk.Base.{ℕ, ◌/◌, arith, ◌≡◌, ◌≤◌, refl, true, false, none, some, [], ◌∷◌, bytes, All}
use mutiauk.Route.Types.{pos}
use mutiauk.Expose.Manager.{ForwardConfig}
use mutiauk.Config.Forwards.{
  Host, ExposeConfig, set_expose_defaults, validate_expose, validate_forward,
}
use mutiauk.Config.Waits.{waits, RandDocumented, Paced, Distinct, validate_expose-Within}

-- A host on which every path is an absolute one to a folder, and every target is complete.
abbrev host : Host
host = record {
  is_abs = λ p. true;
  is_dir = λ p. some true;
  split_host_port = λ t. some (t, bytes "80");
}

abbrev docs : ForwardConfig
docs = record {
  key = bytes "docs";
  type = bytes "folder";
  path = bytes "/srv";
  target = [];
  comment = [];
}

abbrev site : ForwardConfig
site = record {
  key = bytes "site";
  type = bytes "tcp";
  path = [];
  target = bytes "127.0.0.1:80";
  comment = [];
}

abbrev section : ExposeConfig
section = set_expose_defaults (record {
  enabled = true;
  reconnect_min = pos 0;
  reconnect_max = pos 0;
  keepalive_period = pos 0;
  max_streams_per_key = pos 0;
  max_buffered_bytes = pos 0;
  forwards = docs ∷ site ∷ [];
})

section_min : section.reconnect_min ≡ pos 1000000000
unfolding set_expose_defaults
section_min = refl

section_max : section.reconnect_max ≡ pos 30000000000
unfolding set_expose_defaults
section_max = refl

section_enabled : section.enabled ≡ true
unfolding set_expose_defaults
section_enabled = refl

section_accepted : validate_expose host (bytes "10.0.0.1:1080") section ≡ none
unfolding set_expose_defaults validate_expose
section_accepted = refl

-- Answers of rand.Int63n: the middle of its range.
abbrev middle : ℕ → ℕ → ℕ
middle i n = n / 2

middle-documented : RandDocumented middle
middle-documented i n h = omega arith

validate_expose-Within_example :
    (100000000 ≤ 1000000000)
    × All
        (Paced 1000000000 30000000000)
        (waits middle 0 1000000000 30000000000 (true ∷ true ∷ false ∷ []) 1000000000)
    × Distinct [] section.forwards
    × All (λ f. validate_forward host f ≡ none) section.forwards
validate_expose-Within_example =
    validate_expose-Within host middle middle-documented (bytes "10.0.0.1:1080") section 1000000000
      30000000000 (true ∷ true ∷ false ∷ []) section_enabled section_min section_max (omega arith)
      section_accepted

waited :
    waits middle 0 1000000000 30000000000 (true ∷ true ∷ []) 1000000000
    ≡ (1000000000, 1000000000) ∷ (2000000000, 2000000000) ∷ []
unfolding waits
waited = refl
