-- ===== src/Expose/ManagerSamples.antt =====
-- Runs of the manager, and its theorems at concrete inputs.
use mutiauk.Base.{◌≡◌, refl, true, false, Option, some, [], ◌∷◌, bytes, text_discrete, ℕ}
use mutiauk.Base.Conn.{ok}
use mutiauk.Base.GoMap.{find, put, delete, delete_all}
use mutiauk.Expose.Manager.{
  ForwardConfig, from_runtime, Manager, add, remove, reload, connect, ack, entries, send_register,
  new_keys,
}
use mutiauk.Expose.Synced.{Synced, has_forward, agent_has}
use mutiauk.Expose.Agent.{Step, Reach, idle, Reach_idle-Synced, late_registration}

abbrev folder : ForwardConfig
folder = record {
  key = bytes "docs";
  type = bytes "folder";
  path = bytes "/srv/docs";
  target = [];
  comment = [];
}

abbrev web : ForwardConfig
web = record {
  key = bytes "web";
  type = bytes "tcp";
  path = [];
  target = bytes "127.0.0.1:80";
  comment = bytes "site";
}

-- Every forward gets a handler.
abbrev build : ForwardConfig → Option ℕ
build f = some 0

abbrev added : Manager ℕ
added = (add build true web (idle build)).1

abbrev online : Manager ℕ
online = connect added

abbrev configured : Manager ℕ
configured = (reload build (folder ∷ []) online).1

reload_runs : (reload build (folder ∷ []) online).0 ≡ ok tt
unfolding reload new_keys find put delete delete_all text_discrete connect add
reload_runs = refl

Reach_idle-Synced_example : Synced (ack true true (bytes "docs") [] configured)
Reach_idle-Synced_example = Reach_idle-Synced build (ack true true (bytes "docs") [] configured) (
    Reach.next
      (Reach.next (Reach.next (Reach.next Reach.here (Step.adds true web)) Step.connects)
        (Step.reloads (folder ∷ []) reload_runs))
      (Step.acks true true (bytes "docs") []))

added_found :
    find text_discrete (bytes "web") added.forwards
    ≡ some
        (record { cfg = web; source = from_runtime; handler = 0; registered = false; error = [] })
unfolding find put text_discrete add
added_found = refl

late_registration_example :
    let late = entries added.forwards in
    let removed = (remove (bytes "web") (record added { connected = true; sent = [] })).1 in
    (has_forward (bytes "web") removed.forwards ≡ false)
    × (agent_has (bytes "web") (send_register late removed).sent ≡ true)
late_registration_example =
    late_registration build (bytes "web")
      (record { cfg = web; source = from_runtime; handler = 0; registered = false; error = [] })
      added (Reach_idle-Synced build added (Reach.next Reach.here (Step.adds true web))) added_found
      refl
