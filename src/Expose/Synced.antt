-- ===== src/Expose/Synced.antt =====
-- The forwards of the manager and what the agent was told (internal/expose/expose.go).
use mutiauk.Base.{
  ◌≡◌, refl, ap, ◌∙◌, Bool, true, false, not, ◌&&◌, ◌||◌, Option, none, some, List, [], ◌∷◌, Text,
  text_discrete, is_some, arith, if_cases,
}
use mutiauk.Base.Conn.{Result}
use mutiauk.Base.GoMap.{find, put, delete, delete_all, keys, contains, find-put, find-delete}
use mutiauk.Expose.Manager.{
  ForwardState, Sent, register, unregister, Manager, ManagerError, is_config, remove_found, remove,
  entries, publish, connect, unregistered, clear_session, acked, ack_found, ack, send_register,
  send_unregister,
}

-- Whether the agent has a key, after what it was told in this session.
abbrev pub agent_has : Text → List Sent → Bool
agent_has k [] = false
agent_has k (register es ∷ older) = contains text_discrete k (keys es) || agent_has k older
agent_has k (unregister ks ∷ older) = not (contains text_discrete k ks) && agent_has k older

module _ {H : Type 0} where
  abbrev pub has_forward : Text → List (Text × ForwardState H) → Bool
  has_forward k m = is_some (find text_discrete k m)

  -- Each forward stands under its own key.
  abbrev pub Keyed : List (Text × ForwardState H) → Type 0
  Keyed [] = Unit
  Keyed ((k, fs) ∷ m) = (fs.cfg.key ≡ k) × Keyed m

  -- The agent has exactly the keys of the forwards, and none without a session.
  abbrev pub Synced : Manager H → Type 0
  Synced m =
      Keyed m.forwards × ((k : Text) → agent_has k m.sent ≡ m.connected && has_forward k m.forwards)

  pub put-Keyed :
      (k : Text) (fs : ForwardState H) (m : List (Text × ForwardState H))
      → fs.cfg.key ≡ k
      → Keyed m
      → Keyed (put text_discrete k fs m)
  unfolding put
  put-Keyed k fs [] e h = (e, tt)
  put-Keyed k fs ((j, g) ∷ m) e h = ground (arith, put-Keyed k fs m)

  pub delete-Keyed :
      (k : Text) (m : List (Text × ForwardState H)) → Keyed m → Keyed (delete text_discrete k m)
  unfolding delete
  delete-Keyed k [] h = tt
  delete-Keyed k ((j, g) ∷ m) h = ground (arith, delete-Keyed k m)

  pub delete_all-Keyed :
      (ks : List Text) (m : List (Text × ForwardState H))
      → Keyed m
      → Keyed (delete_all text_discrete ks m)
  unfolding delete_all
  delete_all-Keyed [] m h = h
  delete_all-Keyed (k ∷ ks) m h =
      delete_all-Keyed ks (delete text_discrete k m) (delete-Keyed k m h)

  unregistered-Keyed : (m : List (Text × ForwardState H)) → Keyed m → Keyed (unregistered m)
  unregistered-Keyed [] h = tt
  unregistered-Keyed ((j, g) ∷ m) h = (h.0, unregistered-Keyed m h.1)

  find-Keyed :
      (k : Text) (fs : ForwardState H) (m : List (Text × ForwardState H))
      → find text_discrete k m ≡ some fs
      → Keyed m
      → fs.cfg.key ≡ k
  unfolding find
  find-Keyed k fs [] e h = cc
  find-Keyed k fs ((j, g) ∷ m) e h = ground (arith, find-Keyed k fs m)

  acked_key :
      (is_register accepted : Bool) (msg : Text) (fs : ForwardState H)
      → (acked is_register accepted msg fs).cfg.key ≡ fs.cfg.key
  unfolding acked
  acked_key true accepted msg fs = refl
  acked_key false accepted msg fs = refl

  pub contains-entries :
      (k : Text) (m : List (Text × ForwardState H))
      → Keyed m
      → contains text_discrete k (keys (entries m)) ≡ has_forward k m
  unfolding contains find
  contains-entries k [] h = refl
  contains-entries k ((j, g) ∷ m) h = ground (arith, contains-entries k m)

  pub send_register-agent :
      (k : Text) (es : List (Text × Text)) (m : Manager H)
      → agent_has k (send_register es m).sent
        ≡ (m.connected && contains text_discrete k (keys es)) || agent_has k m.sent
  unfolding send_register contains
  send_register-agent k [] m = ground arith
  send_register-agent k (e ∷ es) m = ground arith

  pub send_register_keeps :
      (es : List (Text × Text)) (m : Manager H)
      → ((send_register es m).forwards ≡ m.forwards)
        × ((send_register es m).connected ≡ m.connected)
  unfolding send_register
  send_register_keeps [] m = (refl, refl)
  send_register_keeps (e ∷ es) m = ground arith

  pub send_unregister-agent :
      (k : Text) (ks : List Text) (m : Manager H)
      → agent_has k (send_unregister ks m).sent
        ≡ not (m.connected && contains text_discrete k ks) && agent_has k m.sent
  unfolding send_unregister contains
  send_unregister-agent k [] m = ground arith
  send_unregister-agent k (e ∷ es) m = ground arith

  pub send_unregister_keeps :
      (ks : List Text) (m : Manager H)
      → ((send_unregister ks m).forwards ≡ m.forwards)
        × ((send_unregister ks m).connected ≡ m.connected)
  unfolding send_unregister
  send_unregister_keeps [] m = (refl, refl)
  send_unregister_keeps (e ∷ es) m = ground arith

  -- More forwards, of which the agent is told.
  pub send_register-Synced :
      (es : List (Text × Text)) (fwd : List (Text × ForwardState H)) (m : Manager H)
      → Keyed fwd
      → ((k : Text)
          → has_forward k fwd ≡ has_forward k m.forwards || contains text_discrete k (keys es))
      → Synced m
      → Synced (send_register es (record m { forwards = fwd }))
  send_register-Synced es fwd m h grown s =
      let m' : Manager H = record m { forwards = fwd } in
      let kept = send_register_keeps es m' in
      (
        rw kept.0 h,
        λ k. rw kept.0 (rw kept.1 (ground (arith, send_register-agent k es m', grown k, s.1 k))),
      )

  -- Fewer forwards, of which the agent is told.
  pub send_unregister-Synced :
      (ks : List Text) (fwd : List (Text × ForwardState H)) (m : Manager H)
      → Keyed fwd
      → ((k : Text)
          → has_forward k fwd ≡ not (contains text_discrete k ks) && has_forward k m.forwards)
      → Synced m
      → Synced (send_unregister ks (record m { forwards = fwd }))
  send_unregister-Synced ks fwd m h fewer s =
      let m' : Manager H = record m { forwards = fwd } in
      let kept = send_unregister_keeps ks m' in
      (
        rw kept.0 h,
        λ k. rw kept.0 (rw kept.1 (ground (arith, send_unregister-agent k ks m', fewer k, s.1 k))),
      )

  remove_found-Synced :
      (k : Text) (o : Option (ForwardState H)) (m : Manager H)
      → Synced m
      → Synced (remove_found k o m).1
  unfolding remove_found contains
  remove_found-Synced k none m s = s
  remove_found-Synced k (some fs) m s =
      if_cases (λ (r : Result ManagerError (Unit {0}) × Manager H). Synced r.1)
        (is_config fs.source) (λ _. s)
        (λ _.
          send_unregister-Synced (k ∷ []) (delete text_discrete k m.forwards) m
            (delete-Keyed k m.forwards s.0)
            (λ j. ground (arith, find-delete text_discrete j k m.forwards)) s)

  pub remove-Synced : (k : Text) (m : Manager H) → Synced m → Synced (remove k m).1
  unfolding remove
  remove-Synced k m s = remove_found-Synced k (find text_discrete k m.forwards) m s

  pub connect-Synced : (m : Manager H) → Synced m → Synced (connect m)
  unfolding connect publish
  connect-Synced m s =
      let m' : Manager H = record m { connected = true; sent = [] } in
      let kept = send_register_keeps (entries m.forwards) m' in
      (
        rw kept.0 s.0,
        λ k. rw kept.0 (
            rw kept.1 (
              ground (
                arith,
                send_register-agent k (entries m.forwards) m',
                contains-entries k m.forwards s.0,
              ))),
      )

  pub clear_session-Synced : (m : Manager H) → Synced m → Synced (clear_session m)
  unfolding clear_session
  clear_session-Synced m s = (unregistered-Keyed m.forwards s.0, λ k. refl)

  ack_found-Synced :
      (is_register accepted : Bool) (k msg : Text) (o : Option (ForwardState H)) (m : Manager H)
      → find text_discrete k m.forwards ≡ o
      → Synced m
      → Synced (ack_found is_register accepted k msg o m)
  unfolding ack_found
  ack_found-Synced is_register accepted k msg none m e s = s
  ack_found-Synced is_register accepted k msg (some fs) m e s =
      let fs' = acked is_register accepted msg fs in
      (
        put-Keyed k fs' m.forwards
            (acked_key is_register accepted msg fs ∙ find-Keyed k fs m.forwards e s.0) s.0,
        λ j.
            s.1 j
            ∙ ap (λ b. m.connected && b)
                (ground (arith, find-put text_discrete j k fs' m.forwards)),
      )

  pub ack-Synced :
      (is_register accepted : Bool) (k msg : Text) (m : Manager H)
      → Synced m
      → Synced (ack is_register accepted k msg m)
  unfolding ack
  ack-Synced is_register accepted k msg m s =
      ack_found-Synced is_register accepted k msg (find text_discrete k m.forwards) m refl s
