-- ===== src/Expose/Agent.antt =====
-- The calls of the manager in any order, and what the agent knows (internal/expose/expose.go).
use mutiauk.Base.{
  ◌≡◌, refl, ap, ◌∙◌, Bool, true, false, Option, some, [], ◌∷◌, List, Text, text_discrete, is_some,
  arith,
}
use mutiauk.Base.Conn.{ok}
use mutiauk.Base.GoMap.{find, delete, keys, contains, find-delete}
use mutiauk.Expose.Manager.{
  ForwardConfig, ForwardState, from_runtime, Manager, reload, add, remove_found, remove, entries,
  connect, clear_session, ack, send_register, send_unregister,
}
use mutiauk.Expose.Synced.{
  has_forward, Synced, remove-Synced, connect-Synced, clear_session-Synced, ack-Synced, agent_has,
  send_register-agent, send_unregister_keeps, contains-entries,
}
use mutiauk.Expose.Reloads.{add-Synced, reload-Synced}

module _ {H : Type 0} (build_handler : ForwardConfig → Option H) where
  -- The calls of a manager whose reloads succeed.
  pub data Step (m : Manager H) : Manager H → Type 0 where
    adds : (valid : Bool) (f : ForwardConfig) → Step m (add build_handler valid f m).1
    removes : (k : Text) → Step m (remove k m).1
    reloads :
        (fs : List ForwardConfig)
        → (reload build_handler fs m).0 ≡ ok tt
        → Step m (reload build_handler fs m).1
    connects : Step m (connect m)
    disconnects : Step m (clear_session m)
    acks : (is_register accepted : Bool) (k msg : Text) → Step m (ack is_register accepted k msg m)

  pub data Reach (m : Manager H) : Manager H → Type 0 where
    here : Reach m m
    next : {n p : Manager H} → Reach m n → Step n p → Reach m p

  step-Synced : {m n : Manager H} → Step m n → Synced m → Synced n
  step-Synced {m} (adds valid f) s = add-Synced build_handler valid f m s
  step-Synced {m} (removes k) s = remove-Synced k m s
  step-Synced {m} (reloads fs h) s = reload-Synced build_handler fs m h s
  step-Synced {m} connects s = connect-Synced m s
  step-Synced {m} disconnects s = clear_session-Synced m s
  step-Synced {m} (acks is_register accepted k msg) s = ack-Synced is_register accepted k msg m s

  Reach-Synced : {m n : Manager H} → Reach m n → Synced m → Synced n
  Reach-Synced here s = s
  Reach-Synced (next r st) s = step-Synced st (Reach-Synced r s)

  abbrev pub idle : Manager H
  idle = record { forwards = []; connected = false; sent = [] }

  -- Whatever is added, removed, reloaded without an error, connected, lost and acknowledged, one call
  -- after the other: the agent was told of exactly the keys that the manager has while there is a
  -- session, and of none without one, if every send succeeds.
  pub Reach_idle-Synced : (m : Manager H) → Reach idle m → Synced m
  Reach_idle-Synced m r = Reach-Synced r (tt, λ k. refl)

  remove_runtime :
      (k : Text) (fs : ForwardState H) (m : Manager H)
      → find text_discrete k m.forwards ≡ some fs
      → fs.source ≡ from_runtime
      → remove k m ≡ (
        ok tt,
        send_unregister (k ∷ []) (record m { forwards = delete text_discrete k m.forwards }),
      )
  unfolding remove remove_found
  remove_runtime k fs m e hs = rw e (rw hs refl)

  -- A forward that is removed while a new session is between the list of the keys that it will
  -- register and their registration is registered at the agent all the same, and the manager does
  -- not have it any more.
  pub late_registration :
      (k : Text) (fs : ForwardState H) (m : Manager H)
      → Synced m
      → find text_discrete k m.forwards ≡ some fs
      → fs.source ≡ from_runtime
      → let late = entries m.forwards in
        let removed = (remove k (record m { connected = true; sent = [] })).1 in
        (has_forward k removed.forwards ≡ false)
        × (agent_has k (send_register late removed).sent ≡ true)
  late_registration k fs m s e hs =
      let start : Manager H = record m { connected = true; sent = [] } in
      let fewer : Manager H = record start { forwards = delete text_discrete k m.forwards } in
      let gone = send_unregister (k ∷ []) fewer in
      let kept = send_unregister_keeps (k ∷ []) fewer in
      let listed : contains text_discrete k (keys (entries m.forwards)) ≡ true =
        contains-entries k m.forwards s.0 ∙ ap is_some e in
      let registered = send_register-agent k (entries m.forwards) gone in
      rw (remove_runtime k fs start e hs) (
        rw kept.0 (ground (arith, find-delete text_discrete k k m.forwards)),
        ground (arith, registered, listed, kept.1),
      )
