-- ===== src/Expose/Reloads.antt =====
-- Add and Reload of the manager (internal/expose/expose.go).
use mutiauk.Base.{
  ◌≡◌, refl, ◌∙◌, Bool, false, not, ◌||◌, Option, none, some, List, [], ◌∷◌, ◌++◌, Text,
  text_discrete, does, arith, All, filterb, if_cases,
}
use mathlib.Core.Path.{subst}
use mutiauk.Base.Conn.{Result, ok, err}
use mutiauk.Base.GoMap.{
  find, put, delete, delete_all, keys, contains, find-put, find-delete, find-delete_all,
}
use mutiauk.Expose.Manager.{
  ForwardConfig, ForwardState, Source, from_config, from_runtime, Manager, ManagerError, is_current,
  is_dropped, installed, built, install_forward_locked, installed_or_failed, reload_one,
  reload_next, reload_all, reloaded, reload, added_forward, add, send_unregister, new_keys,
}
use mutiauk.Expose.Synced.{
  has_forward, Keyed, Synced, put-Keyed, delete-Keyed, delete_all-Keyed, send_register-Synced,
  send_register-agent, send_unregister-agent, send_register_keeps, send_unregister_keeps,
}

abbrev Forwards : Type 0 → Type 0
Forwards H = List (Text × ForwardState H)

has_key : Text → List (Text × Text) → Bool
has_key k es = contains text_discrete k (keys es)

has_key-append :
    (k : Text) (es : List (Text × Text)) (e : Text × Text)
    → has_key k (es ++ e ∷ []) ≡ has_key k (e ∷ es)
unfolding has_key contains
has_key-append k [] e = refl
has_key-append k (d ∷ es) e = ground (arith, has_key-append k es e)

put-own :
    (f : ForwardConfig) (m : List (Text × ForwardConfig))
    → All (λ e. e.1.key ≡ e.0) m
    → All (λ e. e.1.key ≡ e.0) (put text_discrete f.key f m)
unfolding put
put-own f [] h = (refl, tt)
put-own f ((j, g) ∷ m) h = ground (arith, put-own f m)

module _ {H : Type 0} where
  -- What an installation leaves: the forwards and the one installed, if it succeeded.
  abbrev Grown : Text → Forwards H → Result ManagerError (Unit {0}) × Forwards H → Type 0
  Grown j m (err e, m') = Unit
  Grown j m (ok _, m') =
      Keyed m' × ((k : Text) → has_forward k m' ≡ does (text_discrete j k) || has_forward k m)

  built-Grown :
      (f : ForwardConfig) (source : Source) (o : Option H) (m : Forwards H)
      → Keyed m
      → Grown f.key m (built f source o m)
  unfolding built
  built-Grown f source none m h = tt
  built-Grown f source (some h') m h = (
    put-Keyed f.key (installed f source h') m refl h,
    λ k. ground (arith, find-put text_discrete k f.key (installed f source h') m),
  )

  added_forward-Synced :
      (f : ForwardConfig) (m : Manager H) (p : Result ManagerError (Unit {0}) × Forwards H)
      → Grown f.key m.forwards p
      → Synced m
      → Synced (added_forward f m p).1
  unfolding added_forward contains
  added_forward-Synced f m (err e, m') g s = s
  added_forward-Synced f m (ok _, m') g s =
      send_register-Synced ((f.key, f.comment) ∷ []) m' m g.0 (λ k. ground (arith, g.1 k)) s

  -- More forwards, the same that more keys to register tell of.
  abbrev Told :
      List (Text × Text)
      → Forwards H
      → Result ManagerError (List (Text × Text)) × Forwards H
      → Type 0
  Told added m (err e, m') = Unit
  Told added m (ok added', m') =
      Keyed m'
      × (new : Text → Bool) × ((k : Text) → has_forward k m' ≡ has_forward k m || new k)
      × ((k : Text) → has_key k added' ≡ has_key k added || new k)

  installed_or_failed-Told :
      (added : List (Text × Text)) (f : ForwardConfig) (m : Forwards H)
      (p : Result ManagerError (Unit {0}) × Forwards H)
      → Grown f.key (delete text_discrete f.key m) p
      → Told added m (installed_or_failed added f p)
  unfolding installed_or_failed has_key contains
  installed_or_failed-Told added f m (err e, m') g = tt
  installed_or_failed-Told added f m (ok _, m') g = (
    g.0,
    λ k. does (text_discrete f.key k),
    λ k. ground (arith, g.1 k, find-delete text_discrete k f.key m),
    λ k. ground (arith, has_key-append k added (f.key, f.comment)),
  )

  then_Told :
      (added es : List (Text × Text)) (m m' : Forwards H)
      (p : Result ManagerError (List (Text × Text)) × Forwards H)
      → Told added m (ok es, m')
      → Told es m' p
      → Told added m p
  then_Told added es m m' (err e, m'') t u = tt
  then_Told added es m m' (ok es', m'') t u = (
    u.0,
    λ k. t.1 k || u.1 k,
    λ k. ground (arith, t.2 k, u.2 k),
    λ k. ground (arith, t.3 k, u.3 k),
  )

  -- Going on with more keys.
  next-Told :
      (added : List (Text × Text)) (m : Forwards H)
      (step : List (Text × Text)
        → Forwards H
        → Result ManagerError (List (Text × Text)) × Forwards H)
      → ((es : List (Text × Text)) (m' : Forwards H) → Keyed m' → Told es m' (step es m'))
      → (p : Result ManagerError (List (Text × Text)) × Forwards H) → Told added m p
      → Told added m (reload_next step p)
  unfolding reload_next
  next-Told added m step f (err e, m') t = tt
  next-Told added m step f (ok es, m') t = then_Told added es m m' (step es m') t (f es m' t.0)

module _ {H : Type 0} (build_handler : ForwardConfig → Option H) where
  install-Grown :
      (f : ForwardConfig) (source : Source) (m : Forwards H)
      → Keyed m
      → Grown f.key m (install_forward_locked build_handler f source m)
  unfolding install_forward_locked
  install-Grown f source m h =
      if_cases (Grown f.key m) (has_forward f.key m) (λ _. tt)
        (λ _. built-Grown f source (build_handler f) m h)

  pub add-Synced :
      (valid : Bool) (f : ForwardConfig) (m : Manager H)
      → Synced m
      → Synced (add build_handler valid f m).1
  unfolding add
  add-Synced valid f m s =
      if_cases (λ (r : Result ManagerError (Unit {0}) × Manager H). Synced r.1) (not valid) (λ _. s)
        (λ _.
          added_forward-Synced f m (install_forward_locked build_handler f from_runtime m.forwards)
            (install-Grown f from_runtime m.forwards s.0) s)

  reload_one-Told :
      (f : ForwardConfig) (added : List (Text × Text)) (m : Forwards H)
      → Keyed m
      → Told added m (reload_one build_handler f.key f added m)
  unfolding reload_one
  reload_one-Told f added m h =
      if_cases (Told added m) (is_current f (find text_discrete f.key m))
        (λ _. (h, λ k. false, λ k. ground arith, λ k. ground arith))
        (λ _.
          installed_or_failed-Told added f m _
            (install-Grown f from_config (delete text_discrete f.key m) (delete-Keyed f.key m h)))

  reload_all-Told :
      (fs : List (Text × ForwardConfig)) (added : List (Text × Text)) (m : Forwards H)
      → All (λ e. e.1.key ≡ e.0) fs
      → Keyed m
      → Told added m (reload_all build_handler fs added m)
  unfolding reload_all
  reload_all-Told [] added m hk h = (h, λ k. false, λ k. ground arith, λ k. ground arith)
  reload_all-Told ((j, f) ∷ fs) added m hk h =
      next-Told added m (reload_all build_handler fs) (λ es m' h'. reload_all-Told fs es m' hk.1 h')
        (reload_one build_handler j f added m)
        (subst (λ i. Told added m (reload_one build_handler i f added m)) hk.0
          (reload_one-Told f added m h))

  new_keys-own :
      (fs : List ForwardConfig) (m : List (Text × ForwardConfig))
      → All (λ e. e.1.key ≡ e.0) m
      → All (λ e. e.1.key ≡ e.0) (new_keys fs m)
  unfolding new_keys
  new_keys-own [] m h = h
  new_keys-own (f ∷ fs) m h = new_keys-own fs (put text_discrete f.key f m) (put-own f m h)

  reloaded-Synced :
      (removed : List Text) (m : Manager H)
      (p : Result ManagerError (List (Text × Text)) × Forwards H)
      → Told [] (delete_all text_discrete removed m.forwards) p
      → (reloaded removed m p).0 ≡ ok tt
      → Synced m
      → Synced (reloaded removed m p).1
  unfolding reloaded has_key contains
  reloaded-Synced removed m (err e, m') t h s = absurd (cc)
  reloaded-Synced removed m (ok added, m') t h s =
      let told : Manager H = record m { forwards = m' } in
      let gone = send_unregister removed told in
      let one = send_unregister_keeps removed told in
      let two = send_register_keeps added gone in
      (
        rw (two.0 ∙ one.0) t.0,
        λ k. rw (two.0 ∙ one.0) (
            rw (two.1 ∙ one.1) (
              ground (
                arith,
                send_register-agent k added gone,
                one.1,
                send_unregister-agent k removed told,
                s.1 k,
                t.2 k,
                t.3 k,
                find-delete_all text_discrete k removed m.forwards,
              ))),
      )

  pub reload-Synced :
      (fs : List ForwardConfig) (m : Manager H)
      → (reload build_handler fs m).0 ≡ ok tt
      → Synced m
      → Synced (reload build_handler fs m).1
  unfolding reload
  reload-Synced fs m h s =
      let removed = keys (filterb (is_dropped (new_keys fs [])) m.forwards) in
      reloaded-Synced removed m _
        (reload_all-Told (new_keys fs []) [] (delete_all text_discrete removed m.forwards)
          (new_keys-own fs [] tt) (delete_all-Keyed removed m.forwards s.0))
        h s
