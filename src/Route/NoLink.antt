-- ===== src/Route/NoLink.antt =====
-- Apply when the tunnel's interface is gone (internal/route/plan.go).
use mutiauk.Base.{
  ◌≡◌, refl, sym, true, false, none, List, [], ◌∷◌, ◌++◌, arith, if_cases, length, append_assoc,
  append-nil, length_zero, length-append, ◌+◌,
}
use mutiauk.Base.Conn.{ok, err}
use mutiauk.Route.Types.{Route, Env, link_not_found}
use mutiauk.Route.Store.{load}
use mutiauk.Route.Plan.{
  Plan, is_empty, System, Work, note_removed, remove_all, note_added, add_all, loaded, no_result,
  apply_work, apply, refresh_link,
}
use mutiauk.Route.ApplyExact.{Outcome, persisted_same}

module _ {K : Type 0} (env : Env K) where
  remove_all_no_link :
      (rs : List Route) (w : Work K)
      → ((remove_all env none rs w).kernel ≡ w.kernel)
        × ((remove_all env none rs w).result.added ≡ w.result.added)
        × ((remove_all env none rs w).result.failed ≡ w.result.failed)
        × ((remove_all env none rs w).result.removed ≡ w.result.removed ++ rs)
  unfolding remove_all note_removed
  remove_all_no_link [] w = (refl, refl, refl, sym (append-nil w.result.removed))
  remove_all_no_link (r ∷ rs) w = ground (
    arith,
    remove_all_no_link rs (note_removed env r w (ok true, w.kernel)),
    append_assoc w.result.removed (r ∷ []) rs,
  )

  add_all_no_link :
      (rs : List Route) (w : Work K)
      → ((add_all env none rs w).kernel ≡ w.kernel)
        × ((add_all env none rs w).result.added ≡ w.result.added)
        × (length (add_all env none rs w).result.failed ≡ length w.result.failed + length rs)
        × ((add_all env none rs w).result.removed ≡ w.result.removed)
  unfolding add_all note_added
  add_all_no_link [] w = (refl, refl, omega arith, refl)
  add_all_no_link (r ∷ rs) w = ground (
    arith,
    add_all_no_link rs (note_added env r w (err link_not_found, w.kernel)),
    length-append w.result.failed
        (record { route = r; removal = false; cause = link_not_found } ∷ []),
  )

  -- After Apply with no link: the table is as it was, every removal is
  -- reported as done and every addition as failed.
  pub apply_no_link :
      (plan : Plan) (s : System K)
      → env.link_by_name s.kernel ≡ none
      → ((apply env plan s).1.kernel ≡ s.kernel)
        × ((apply env plan s).0.0.added ≡ [])
        × ((apply env plan s).0.0.removed ≡ plan.to_remove)
        × (length (apply env plan s).0.0.failed ≡ length plan.to_add)
  unfolding apply apply_work
  apply_no_link plan s l =
      if_cases {A = Outcome env}
        (λ out.
          (out.1.kernel ≡ s.kernel)
          × (out.0.0.added ≡ [])
          × (out.0.0.removed ≡ plan.to_remove)
          × (length out.0.0.failed ≡ length plan.to_add))
        (is_empty plan) (λ e. ground (arith, length_zero plan.to_remove))
        (λ _. ground (
          arith,
          persisted_same env (load env s.disk)
              (apply_work env (env.link_by_name s.kernel) plan s.kernel (loaded (load env s.disk)))
              (refresh_link env s),
          remove_all_no_link plan.to_remove start,
          add_all_no_link plan.to_add (remove_all env none plan.to_remove start),
          l,
        ))
    where
      start : Work K
      start = record {
        kernel = s.kernel;
        result = no_result;
        state = loaded (load env s.disk);
        dirty = false;
      }
