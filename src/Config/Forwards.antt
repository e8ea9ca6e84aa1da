-- ===== src/Config/Forwards.antt =====
-- The expose section of internal/config/config.go: its defaults and its validation. Durations are
-- nanoseconds. The answers of filepath.IsAbs, os.Stat and net.SplitHostPort are arguments.
use mutiauk.Base.{
  ℕ, suc, Bool, true, false, not, ◌&&◌, ◌||◌, Option, none, some, List, [], ◌∷◌, Text,
  text_discrete, bytes, does, leb, ltb, if◌then◌else◌, ◌==◌,
}
use mutiauk.Base.GoMap.{contains}
use mutiauk.Route.Types.{ℤ, pos, negsuc}
use mutiauk.Expose.Manager.{ForwardConfig}

pub record Host : Type 0 where
  pub is_abs : Text → Bool
  pub is_dir : Text → Option Bool
  pub split_host_port : Text → Option (Text × Text)

pub record ExposeConfig : Type 0 where
  pub enabled : Bool
  pub reconnect_min : ℤ
  pub reconnect_max : ℤ
  pub keepalive_period : ℤ
  pub max_streams_per_key : ℤ
  pub max_buffered_bytes : ℤ
  pub forwards : List ForwardConfig

abbrev pub or_default : ℤ → ℕ → ℤ
or_default (pos n) d = if n == 0 then pos d else pos n
or_default (negsuc n) d = negsuc n

-- The expose part of setDefaults.
unfoldable pub set_expose_defaults : ExposeConfig → ExposeConfig
set_expose_defaults c = record c {
  reconnect_min = or_default c.reconnect_min 1000000000;
  reconnect_max = or_default c.reconnect_max 30000000000;
  keepalive_period = or_default c.keepalive_period 25000000000;
  max_streams_per_key = or_default c.max_streams_per_key 256;
  max_buffered_bytes = or_default c.max_buffered_bytes 16777216;
}

pub data ConfigError : Type 0 where
  no_server reconnect_min_low reconnect_max_low keepalive_low streams_low buffer_low : ConfigError
  key_required bad_key path_required path_relative path_missing not_directory : ConfigError
  target_given target_required bad_target incomplete_target path_given bad_type : ConfigError
  duplicate_forward : ℕ → ConfigError

-- `a < n` and `a < b`
abbrev pub below : ℤ → ℕ → Bool
below (pos a) n = ltb a n
below (negsuc a) n = true

abbrev pub less : ℤ → ℤ → Bool
less (pos a) (pos b) = ltb a b
less (pos a) (negsuc b) = false
less (negsuc a) (pos b) = true
less (negsuc a) (negsuc b) = ltb b a

abbrev pub is_empty : Text → Bool
is_empty [] = true
is_empty (c ∷ s) = false

abbrev pub key_byte : ℕ → Bool
key_byte c =
    (leb 97 c && leb c 122)
    || ((leb 65 c && leb c 90) || ((leb 48 c && leb c 57) || (c == 46 || (c == 95 || c == 45))))

abbrev pub matches_key_pattern : Text → Bool
matches_key_pattern [] = true
matches_key_pattern (c ∷ s) = key_byte c && matches_key_pattern s

abbrev pub folder_checked : Option Bool → Text → Option ConfigError
folder_checked none target = some path_missing
folder_checked (some dir) target =
    if not dir
    then some not_directory
    else (if not (is_empty target) then some target_given else none)

abbrev pub target_checked : Option (Text × Text) → Text → Option ConfigError
target_checked none path = some bad_target
target_checked (some (host, port)) path =
    if is_empty host || is_empty port
    then some incomplete_target
    else (if not (is_empty path) then some path_given else none)

module _ (h : Host) where
  unfoldable pub validate_type : ForwardConfig → Option ConfigError
  unfolding text_discrete
  validate_type f =
      if does (text_discrete f.type (bytes "folder"))
      then (if is_empty f.path
          then some path_required
          else (if not (h.is_abs f.path)
              then some path_relative
              else folder_checked (h.is_dir f.path) f.target))
      else (if does (text_discrete f.type (bytes "tcp"))
          then (if is_empty f.target
              then some target_required
              else target_checked (h.split_host_port f.target) f.path)
          else some bad_type)

  unfoldable pub validate_forward : ForwardConfig → Option ConfigError
  unfolding validate_type
  validate_forward f =
      if is_empty f.key
      then some key_required
      else (if not (matches_key_pattern f.key) then some bad_key else validate_type f)

  -- The answer for one forward, or for those after it.
  abbrev pub or_later : Option ConfigError → Option ConfigError → Option ConfigError
  or_later none later = later
  or_later (some e) later = some e

  unfoldable pub validate_forwards : ℕ → List Text → List ForwardConfig → Option ConfigError
  unfolding validate_forward contains text_discrete
  validate_forwards i seen [] = none
  validate_forwards i seen (f ∷ fs) =
      let later = validate_forwards (suc i) (f.key ∷ seen) fs in
      or_later (validate_forward f)
        (if contains text_discrete f.key seen then some (duplicate_forward i) else later)

  -- validateExpose, with socks5.server.
  unfoldable pub validate_expose : Text → ExposeConfig → Option ConfigError
  unfolding validate_forwards
  validate_expose server c =
      if not c.enabled
      then none
      else (if is_empty server
          then some no_server
          else (if below c.reconnect_min 100000000
              then some reconnect_min_low
              else (if less c.reconnect_max c.reconnect_min
                  then some reconnect_max_low
                  else (if below c.keepalive_period 1000000000
                      then some keepalive_low
                      else (if below c.max_streams_per_key 1
                          then some streams_low
                          else (if below c.max_buffered_bytes 65536
                              then some buffer_low
                              else validate_forwards 0 [] c.forwards))))))
