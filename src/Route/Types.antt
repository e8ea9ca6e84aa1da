-- ===== src/Route/Types.antt =====
-- Routes and networks (internal/route/manager.go), and the code outside the repository that the
-- package calls: netlink, encoding/json and the text of a network, which are arguments in `Env`.
use mutiauk.Base.{ℕ, Bool, false, ◌||◌, Option, List, [], ◌∷◌, Bytes, Text, text_discrete, does}

-- Go's int.
pub data ℤ : Type 0 where
  pos : ℕ → ℤ
  negsuc : ℕ → ℤ

pub record IpNet : Type 0 where
  pub ip : Bytes
  pub mask : Bytes

-- A nil destination is `none`, a nil gateway is empty.
pub record Route : Type 0 where
  pub destination : Option IpNet
  pub gateway : Bytes
  pub interface : Text
  pub metric : ℤ
  pub comment : Text
  pub enabled : Bool

abbrev pub State : Type 0
State = List (Text × Route)

-- netlink.Route
pub record NlRoute : Type 0 where
  pub link_index : ℕ
  pub dst : Option IpNet
  pub gw : Bytes
  pub scope : ℕ
  pub priority : ℤ

-- What netlink answers: success, the error that the code takes for a duplicate or a missing route,
-- or another one.
pub data AddAnswer : Type 0 where
  installed already_there add_refused : AddAnswer

pub data DelAnswer : Type 0 where
  deleted not_there del_refused : DelAnswer

-- The tunnel's name, IPNet.String (total on nil), the JSON of a state, and netlink on a kernel of
-- type K.
pub record Env (K : Type 0) : Type 0 where
  pub tun_name : Text
  pub net_string : Option IpNet → Text
  pub marshal : State → Bytes
  pub unmarshal : Bytes → Option State
  pub link_by_name : K → Option ℕ
  pub route_list : ℕ → K → Option (List NlRoute)
  pub route_add : NlRoute → K → AddAnswer × K
  pub route_del : NlRoute → K → DelAnswer × K

pub data RouteError : Type 0 where
  link_not_found link_not_available nil_link_panic list_failed kernel_add_failed : RouteError
  kernel_remove_failed read_state_failed parse_state_failed write_state_failed : RouteError
  apply_errors : ℕ → RouteError

module _ {K : Type 0} (env : Env K) where
  -- The map key of a route.
  abbrev pub key_of : Route → Text
  key_of r = env.net_string r.destination

  -- Whether a route has the key, and whether one of a list does.
  abbrev pub has_key : Text → Route → Bool
  has_key key r = does (text_discrete (key_of r) key)

  abbrev pub any_key : Text → List Route → Bool
  any_key key [] = false
  any_key key (r ∷ rs) = has_key key r || any_key key rs
