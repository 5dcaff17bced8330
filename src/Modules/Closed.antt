-- ===== src/Modules/Closed.antt =====
-- Modules that are programs on `SessionModuleAPI` (backend/src/modules/runtime_api.py), as the modules
-- that the services take: `UsesModuleApi` and `OnlyAdds` of them.
use watari.Base.{String, ap, subst, sym, ◌⊎◌, Option-cases, inl, inr, refl, suc, zero, ℕ, ◌∙◌, ◌≡◌}
use watari.Modules.Adds.{OnlyAdds}
use watari.Modules.Confined.{
  HasObservable, Spares, api_add_observable-Has, api_add_observable-kept, api_add_task-Spares,
  api_add_timeline_entry-Spares, api_update_asset-Spares,
}
use watari.Modules.Dispatch.{EventPayload, Installed, raised, unregistered}
use watari.Modules.Keeps.{UsesModuleApi}
use watari.Modules.Programs.{
  finish, get_case, get_observables, get_assets, get_timeline, add_observable, add_timeline_entry,
  add_task, update_asset, Program, Registry, installed_to, run_class, run_program,
}
use watari.Modules.RuntimeApi.{
  api_add_observable, api_add_task, api_add_timeline_entry, api_get_assets, api_get_case,
  api_get_observables, api_get_timeline, api_update_asset,
}
use watari.Store.{Observable, Session, kept}

module _ (installed : Installed) (actor : ℕ) where
  run_program-kept :
      UsesModuleApi installed
      → (m : Program) (s : Session) → kept (run_program installed actor m s).1 ≡ kept s
  unfolding run_program api_get_timeline
  run_program-kept api (finish o) s = refl
  run_program-kept api (get_case case_id k) s = run_program-kept api (k (api_get_case case_id s)) s
  run_program-kept api (get_observables case_id k) s =
      run_program-kept api (k (api_get_observables case_id s)) s
  run_program-kept api (get_assets case_id k) s =
      run_program-kept api (k (api_get_assets case_id s)) s
  run_program-kept api (get_timeline case_id k) s =
      run_program-kept api (k (api_get_timeline case_id s).0) s
  run_program-kept api (add_observable case_id p k) s =
      let (r, s') = api_add_observable installed actor case_id p s in
      run_program-kept api (k r) s' ∙ api_add_observable-kept installed api actor case_id p s
  run_program-kept api (add_timeline_entry case_id e k) s =
      let (r, s') = api_add_timeline_entry actor case_id e s in
      run_program-kept api (k r) s' ∙ (api_add_timeline_entry-Spares actor case_id e s).0
  run_program-kept api (add_task case_id t k) s =
      let (r, s') = api_add_task actor case_id t s in
      run_program-kept api (k r) s' ∙ (api_add_task-Spares actor case_id t s).0
  run_program-kept api (update_asset case_id asset_id u k) s =
      let (r, s') = api_update_asset actor case_id asset_id u s in
      run_program-kept api (k r) s' ∙ (api_update_asset-Spares actor case_id asset_id u s).0

  module _ (id : ℕ) (o : Observable) where
    stays :
        (s s' : Session)
        → Spares s s'
        → HasObservable installed id o s
        → HasObservable installed id o s'
    stays s s' (same, rows) h = rw rows h

    run_program-Has :
        OnlyAdds installed
        → (m : Program) (s : Session) → HasObservable installed id o s
        → HasObservable installed id o (run_program installed actor m s).1
    unfolding run_program api_get_timeline
    run_program-Has adds (finish r) s h = h
    run_program-Has adds (get_case case_id k) s h =
        run_program-Has adds (k (api_get_case case_id s)) s h
    run_program-Has adds (get_observables case_id k) s h =
        run_program-Has adds (k (api_get_observables case_id s)) s h
    run_program-Has adds (get_assets case_id k) s h =
        run_program-Has adds (k (api_get_assets case_id s)) s h
    run_program-Has adds (get_timeline case_id k) s h =
        run_program-Has adds (k (api_get_timeline case_id s).0) s h
    run_program-Has adds (add_observable case_id p k) s h =
        let (r, s') = api_add_observable installed actor case_id p s in
        run_program-Has adds (k r) s'
          (api_add_observable-Has installed adds id o actor case_id p s h)
    run_program-Has adds (add_timeline_entry case_id e k) s h =
        let (r, s') = api_add_timeline_entry actor case_id e s in
        run_program-Has adds (k r) s'
          (stays s s' (api_add_timeline_entry-Spares actor case_id e s) h)
    run_program-Has adds (add_task case_id t k) s h =
        let (r, s') = api_add_task actor case_id t s in
        run_program-Has adds (k r) s' (stays s s' (api_add_task-Spares actor case_id t s) h)
    run_program-Has adds (update_asset case_id asset_id u k) s h =
        let (r, s') = api_update_asset actor case_id asset_id u s in
        run_program-Has adds (k r) s'
          (stays s s' (api_update_asset-Spares actor case_id asset_id u s) h)

module _ (registry : Registry) (actor : ℕ) where
  -- An entry point that the registry does not hold raises, and one that it holds runs its program.
  run_class_lem :
      (lower : Installed) (ep : String) (p : EventPayload) (s : Session)
      → (run_class registry actor lower ep p s ≡ (raised (unregistered ep), s))
        ⊎ ((m : Program) × (run_class registry actor lower ep p s ≡ run_program lower actor m s))
  unfolding run_class
  run_class_lem lower ep p s = elim (Option-cases (registry ep)) [
    | inl e ↦ inl (rw (e, run_class) refl)
    | inr (module_class, e) ↦ inr (module_class p, rw (e, run_class) refl)
  ]

  installed_to-UsesModuleApi : (depth : ℕ) → UsesModuleApi (installed_to registry actor depth)
  installed_to-UsesModuleApi zero ep p s = refl
  installed_to-UsesModuleApi (suc depth) ep p s =
      let lower = installed_to registry actor depth in
      elim (run_class_lem lower ep p s) [
        | inl e ↦ ap (λ x. kept x.1) e
        | inr (m, e) ↦
            ap (λ x. kept x.1) e
            ∙ run_program-kept lower actor (installed_to-UsesModuleApi depth) m s
      ]

  installed_to-OnlyAdds : (depth : ℕ) → OnlyAdds (installed_to registry actor depth)
  installed_to-OnlyAdds zero ep p k o s h = h
  installed_to-OnlyAdds (suc depth) ep p k o s h =
      let lower = installed_to registry actor depth in
      elim (run_class_lem lower ep p s) [
        | inl e ↦ subst (λ x. HasObservable lower k o x.1) (sym e) h
        | inr (m, e) ↦
            subst (λ x. HasObservable lower k o x.1) (sym e)
              (run_program-Has lower actor k o (installed_to-OnlyAdds depth) m s h)
      ]

  -- Modules that act through the operations of `SessionModuleAPI` alone, whatever they do with the
  -- results and the exceptions and however deep they run one another through the events of their
  -- writes, leave every table alone but those of observables, tasks, timeline entries, assets,
  -- their links and executions, and delete or change no observable.
  pub installed_to_confined :
      (depth : ℕ)
      → UsesModuleApi (installed_to registry actor depth)
        × OnlyAdds (installed_to registry actor depth)
  installed_to_confined depth = (installed_to-UsesModuleApi depth, installed_to-OnlyAdds depth)
