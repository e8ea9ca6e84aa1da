-- ===== src/Expose/Manager.antt =====
-- The manager of the forwards (internal/expose/expose.go). A session is what it was asked to send,
-- newest first; every send is taken to succeed. The handlers, which depend on the file system, are
-- what a function builds. The order of a map's list stands for the order of `range`.
use mutiauk.Base.{
  ℕ, ◌*◌, Bool, true, false, not, ◌&&◌, Option, none, some, List, [], ◌∷◌, ◌++◌, Text,
  text_discrete, does, is_some, ltb, if◌then◌else◌, filterb,
}
use mutiauk.Base.Conn.{Result, ok, err}
use mutiauk.Base.GoMap.{find, put, delete, delete_all, keys}

pub record ForwardConfig : Type 0 where
  pub key : Text
  pub type : Text
  pub path : Text
  pub target : Text
  pub comment : Text

pub data Source : Type 0 where
  from_config from_runtime : Source

pub record ForwardState (H : Type 0) : Type 0 where
  pub cfg : ForwardConfig
  pub source : Source
  pub handler : H
  pub registered : Bool
  pub error : Text

-- SendRegister, with keys and comments, and SendUnregister.
pub data Sent : Type 0 where
  register : List (Text × Text) → Sent
  unregister : List Text → Sent

pub record Manager (H : Type 0) : Type 0 where
  pub forwards : List (Text × ForwardState H)
  pub connected : Bool
  pub sent : List Sent

pub data ManagerError : Type 0 where
  duplicate_key not_found config_defined bad_forward bad_handler : ManagerError

abbrev pub same_config : ForwardConfig → ForwardConfig → Bool
same_config a b =
    does (text_discrete a.key b.key)
    && (does (text_discrete a.type b.type)
        && (does (text_discrete a.path b.path)
            && (does (text_discrete a.target b.target)
                && does (text_discrete a.comment b.comment))))

abbrev pub is_config : Source → Bool
is_config from_config = true
is_config from_runtime = false

-- A send of the live session, if there is one and there is something to send.
unfoldable pub send_register : {H : Type 0} → List (Text × Text) → Manager H → Manager H
send_register [] m = m
send_register (e ∷ es) m = if m.connected then record m { sent = register (e ∷ es) ∷ m.sent } else m

unfoldable pub send_unregister : {H : Type 0} → List Text → Manager H → Manager H
send_unregister [] m = m
send_unregister (k ∷ ks) m =
    if m.connected then record m { sent = unregister (k ∷ ks) ∷ m.sent } else m

-- `newKeys` of Reload.
unfoldable pub new_keys :
    List ForwardConfig → List (Text × ForwardConfig) → List (Text × ForwardConfig)
unfolding put text_discrete
new_keys [] m = m
new_keys (f ∷ fs) m = new_keys fs (put text_discrete f.key f m)

module _ {H : Type 0} where
  -- What Reload drops: the config's keys that the new config does not have.
  abbrev pub is_dropped : List (Text × ForwardConfig) → Text × ForwardState H → Bool
  is_dropped wanted (k, fs) = is_config fs.source && not (is_some (find text_discrete k wanted))

  -- An entry that need not be replaced.
  abbrev pub is_current : ForwardConfig → Option (ForwardState H) → Bool
  is_current f none = false
  is_current f (some fs) = same_config fs.cfg f && is_config fs.source

  abbrev pub installed : ForwardConfig → Source → H → ForwardState H
  installed f source h = record {
    cfg = f;
    source = source;
    handler = h;
    registered = false;
    error = [];
  }

  unfoldable pub built :
      ForwardConfig
      → Source
      → Option H
      → List (Text × ForwardState H)
      → Result ManagerError (Unit {0}) × List (Text × ForwardState H)
  unfolding put text_discrete
  built f source none m = (err bad_handler, m)
  built f source (some h) m = (ok tt, put text_discrete f.key (installed f source h) m)

  -- The keys to register, and the forwards.
  unfoldable pub installed_or_failed :
      List (Text × Text)
      → ForwardConfig
      → Result ManagerError (Unit {0}) × List (Text × ForwardState H)
      → Result ManagerError (List (Text × Text)) × List (Text × ForwardState H)
  installed_or_failed added f (ok _, m) = (ok (added ++ (f.key, f.comment) ∷ []), m)
  installed_or_failed added f (err e, m) = (err e, m)

  -- `step` goes on with the next keys.
  unfoldable pub reload_next :
      (List (Text × Text)
        → List (Text × ForwardState H)
        → Result ManagerError (List (Text × Text)) × List (Text × ForwardState H))
      → Result ManagerError (List (Text × Text)) × List (Text × ForwardState H)
      → Result ManagerError (List (Text × Text)) × List (Text × ForwardState H)
  reload_next step (ok added, m) = step added m
  reload_next step (err e, m) = (err e, m)

  unfoldable pub reloaded :
      List Text
      → Manager H
      → Result ManagerError (List (Text × Text)) × List (Text × ForwardState H)
      → Result ManagerError (Unit {0}) × Manager H
  unfolding send_register send_unregister
  reloaded removed m (err e, fwd) = (err e, record m { forwards = fwd })
  reloaded removed m (ok added, fwd) =
      (ok tt, send_register added (send_unregister removed (record m { forwards = fwd })))

  unfoldable pub added_forward :
      ForwardConfig
      → Manager H
      → Result ManagerError (Unit {0}) × List (Text × ForwardState H)
      → Result ManagerError (Unit {0}) × Manager H
  unfolding send_register
  added_forward f m (err e, fwd) = (err e, m)
  added_forward f m (ok _, fwd) =
      (ok tt, send_register ((f.key, f.comment) ∷ []) (record m { forwards = fwd }))

module _ {H : Type 0} (build_handler : ForwardConfig → Option H) where
  unfoldable pub install_forward_locked :
      ForwardConfig
      → Source
      → List (Text × ForwardState H)
      → Result ManagerError (Unit {0}) × List (Text × ForwardState H)
  unfolding find text_discrete built
  install_forward_locked f source m =
      if is_some (find text_discrete f.key m)
      then (err duplicate_key, m)
      else built f source (build_handler f) m

  -- One round of the second loop of Reload.
  unfoldable pub reload_one :
      Text
      → ForwardConfig
      → List (Text × Text)
      → List (Text × ForwardState H)
      → Result ManagerError (List (Text × Text)) × List (Text × ForwardState H)
  unfolding find delete text_discrete install_forward_locked installed_or_failed
  reload_one k f added m =
      if is_current f (find text_discrete k m)
      then (ok added, m)
      else installed_or_failed added f
          (install_forward_locked f from_config (delete text_discrete k m))

  unfoldable pub reload_all :
      List (Text × ForwardConfig)
      → List (Text × Text)
      → List (Text × ForwardState H)
      → Result ManagerError (List (Text × Text)) × List (Text × ForwardState H)
  unfolding reload_one reload_next
  reload_all [] added m = (ok added, m)
  reload_all ((k, f) ∷ fs) added m = reload_next (reload_all fs) (reload_one k f added m)

  unfoldable pub reload :
      List ForwardConfig → Manager H → Result ManagerError (Unit {0}) × Manager H
  unfolding new_keys find delete_all text_discrete reload_all reloaded
  reload fs m =
      let wanted = new_keys fs [] in
      let removed = keys (filterb (is_dropped wanted) m.forwards) in
      reloaded removed m (reload_all wanted [] (delete_all text_discrete removed m.forwards))

  -- Add, with the answer of ValidateForward.
  unfoldable pub add : Bool → ForwardConfig → Manager H → Result ManagerError (Unit {0}) × Manager H
  unfolding install_forward_locked added_forward
  add valid f m =
      if not valid
      then (err bad_forward, m)
      else added_forward f m (install_forward_locked f from_runtime m.forwards)

module _ {H : Type 0} where
  unfoldable pub remove_found :
      Text → Option (ForwardState H) → Manager H → Result ManagerError (Unit {0}) × Manager H
  unfolding delete text_discrete send_unregister
  remove_found k none m = (err not_found, m)
  remove_found k (some fs) m = if is_config fs.source then (err config_defined, m) else (
    ok tt,
    send_unregister (k ∷ []) (record m { forwards = delete text_discrete k m.forwards }),
  )

  unfoldable pub remove : Text → Manager H → Result ManagerError (Unit {0}) × Manager H
  unfolding find text_discrete remove_found
  remove k m = remove_found k (find text_discrete k m.forwards) m

  abbrev pub entries : List (Text × ForwardState H) → List (Text × Text)
  entries [] = []
  entries ((k, fs) ∷ m) = (fs.cfg.key, fs.cfg.comment) ∷ entries m

  -- What runOnce does under its lock with a new session: it lists the keys and publishes the session.
  unfoldable pub publish : Manager H → List (Text × Text) × Manager H
  publish m = (entries m.forwards, record m { connected = true; sent = [] })

  -- runOnce with a new session, up to the registration. The source sends the registration after it
  -- has released the lock: connect is the run in which no other call comes in between.
  unfoldable pub connect : Manager H → Manager H
  unfolding publish send_register
  connect m = let (es, next) = publish m in send_register es next

  abbrev pub unregistered : List (Text × ForwardState H) → List (Text × ForwardState H)
  unregistered [] = []
  unregistered ((k, fs) ∷ m) = (k, record fs { registered = false }) ∷ unregistered m

  unfoldable pub clear_session : Manager H → Manager H
  clear_session m = record m { connected = false; sent = []; forwards = unregistered m.forwards }

  unfoldable pub acked : Bool → Bool → Text → ForwardState H → ForwardState H
  acked is_register accepted msg fs =
      if is_register
      then record fs { registered = accepted; error = if accepted then [] else msg }
      else record fs { registered = false }

  unfoldable pub ack_found :
      Bool → Bool → Text → Text → Option (ForwardState H) → Manager H → Manager H
  unfolding put text_discrete acked
  ack_found is_register accepted k msg none m = m
  ack_found is_register accepted k msg (some fs) m = record m {
    forwards = put text_discrete k (acked is_register accepted msg fs) m.forwards;
  }

  -- The callback that makeAckCallback makes.
  unfoldable pub ack : Bool → Bool → Text → Text → Manager H → Manager H
  unfolding find text_discrete ack_found
  ack is_register accepted k msg m =
      ack_found is_register accepted k msg (find text_discrete k m.forwards) m

-- The escalation of run: doubled after a failed attempt, up to the maximum.
unfoldable pub next_backoff : ℕ → ℕ → Bool → ℕ → ℕ
next_backoff min_backoff max_backoff failed duration =
    if failed
    then (if ltb max_backoff (duration * 2) then max_backoff else duration * 2)
    else min_backoff
