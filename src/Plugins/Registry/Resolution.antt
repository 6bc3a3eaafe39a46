-- ===== src/Plugins/Registry/Resolution.antt =====
-- Resolution in plugins/registry.py, after registrations that succeeded.
use cobalt_wren.Prelude.{Option, none, some, List, [], ◌∷◌, ◌++◌, ◌≡◌, ◌∙◌, refl, sym, ap}
use mathlib.Core.List.{append_assoc, append-nil}
use cobalt_wren.Prelude.Dict.{Dict, get, values}
use cobalt_wren.Prelude.Equality.{Eq, beq_refl, nat_eq, list_eq, pair_eq}
use cobalt_wren.Prelude.Result.{Result, ok, err, on_ok, ok-injective}
use cobalt_wren.Prelude.Text.{Text}
use cobalt_wren.Plugins.Registry.{
  Plugin, PluginRegistry, PluginError, resolve, register, register_all, get_plugin, get_tool,
  get_workflow, get_provider, get_store, get_event_sink, list_plugins, unknown_plugin, unknown_tool,
  unknown_workflow, unknown_provider, unknown_store, unknown_event_sink,
}
use cobalt_wren.Plugins.Registry.Registration.{
  IsFresh, get-append_old, get-append_new, get-IsFresh, register_sound,
}

module _ {K V : Type 0} ⦃e : Eq K⦄ where
  resolve_found :
      (unknown : K → PluginError) (d : Dict K V) (k : K) (v : V)
      → get d k ≡ some v
      → resolve unknown d k ≡ ok v
  unfolding resolve
  resolve_found unknown d k v h = ap (λ o. elim o [ none ↦ err (unknown k) | some w ↦ ok w ]) h

  found-resolve :
      (unknown : K → PluginError) (d : Dict K V) (k : K) (v : V)
      → resolve unknown d k ≡ ok v
      → get d k ≡ some v
  unfolding resolve
  found-resolve unknown d k v h = by_entry (get d k) h
    where
      by_entry :
          (o : Option V)
          → ◌≡◌ {A = Result PluginError V}
              (elim o [ none ↦ err (unknown k) | some w ↦ ok w ])
              (ok v)
          → o ≡ some v
      by_entry none g = absurd (cc)
      by_entry (some w) g = ap some (ok-injective g)

  resolve_new :
      (unknown : K → PluginError) (d cs : Dict K V) (k : K) (v : V)
      → IsFresh d [] cs
      → get cs k ≡ some v
      → resolve unknown (d ++ cs) k ≡ ok v
  resolve_new unknown d cs k v f h =
      resolve_found unknown (d ++ cs) k v (get-append_new d cs k (get-IsFresh d [] cs f k v h) ∙ h)

  resolve_old :
      (unknown : K → PluginError) (d cs : Dict K V) (k : K) (v : V)
      → resolve unknown d k ≡ ok v
      → resolve unknown (d ++ cs) k ≡ ok v
  resolve_old unknown d cs k v h =
      resolve_found unknown (d ++ cs) k v (get-append_old d cs k v (found-resolve unknown d k v h))

values-append : {K V : Type 0} (d cs : Dict K V) → values (d ++ cs) ≡ values d ++ values cs
values-append [] cs = refl
values-append ((k, v) ∷ d) cs = ap (λ vs. v ∷ vs) (values-append d cs)

module _ {O : Type 0} (self : PluginRegistry O) (plugin : Plugin O) (next : PluginRegistry O)
    (accepted : register self plugin ≡ ok next) where
  pub register_resolves :
      ((k : Text) (v : O) → get plugin.workflows k ≡ some v → get_workflow next k ≡ ok v)
      × ((k : Text) (v : O) → get plugin.tools k ≡ some v → get_tool next k ≡ ok v)
      × ((k : Text) (v : O) → get plugin.providers k ≡ some v → get_provider next k ≡ ok v)
      × ((t b : Text) (v : O) → get plugin.stores (t, b) ≡ some v → get_store next t b ≡ ok v)
      × ((k : Text) (v : O) → get plugin.event_sinks k ≡ some v → get_event_sink next k ≡ ok v)
      × (get_plugin next plugin.name ≡ ok plugin)
  unfolding get_workflow get_tool get_provider get_store get_event_sink get_plugin
  register_resolves =
      let ((n, w, t, p, s, x), e) = register_sound self plugin accepted in
      rw e (
        (λ k v. resolve_new unknown_workflow self.workflows plugin.workflows k v w),
        (λ k v. resolve_new unknown_tool self.tools plugin.tools k v t),
        (λ k v. resolve_new unknown_provider self.providers plugin.providers k v p),
        (λ t b v. resolve_new unknown_store self.stores plugin.stores (t, b) v s),
        (λ k v. resolve_new unknown_event_sink self.event_sinks plugin.event_sinks k v x),
        resolve_new unknown_plugin self.plugins ((plugin.name, plugin) ∷ []) plugin.name plugin
            (refl, n, tt) (rw (beq_refl plugin.name) refl),
      )

  pub register_keeps :
      ((k : Text) (v : O) → get_workflow self k ≡ ok v → get_workflow next k ≡ ok v)
      × ((k : Text) (v : O) → get_tool self k ≡ ok v → get_tool next k ≡ ok v)
      × ((k : Text) (v : O) → get_provider self k ≡ ok v → get_provider next k ≡ ok v)
      × ((t b : Text) (v : O) → get_store self t b ≡ ok v → get_store next t b ≡ ok v)
      × ((k : Text) (v : O) → get_event_sink self k ≡ ok v → get_event_sink next k ≡ ok v)
      × ((k : Text) (v : Plugin O) → get_plugin self k ≡ ok v → get_plugin next k ≡ ok v)
  unfolding get_workflow get_tool get_provider get_store get_event_sink get_plugin
  register_keeps = rw (register_sound self plugin accepted).1 (
    resolve_old unknown_workflow self.workflows plugin.workflows,
    resolve_old unknown_tool self.tools plugin.tools,
    resolve_old unknown_provider self.providers plugin.providers,
    (λ t b. resolve_old unknown_store self.stores plugin.stores (t, b)),
    resolve_old unknown_event_sink self.event_sinks plugin.event_sinks,
    resolve_old unknown_plugin self.plugins ((plugin.name, plugin) ∷ []),
  )

  list_plugins-register : list_plugins next ≡ list_plugins self ++ plugin ∷ []
  unfolding list_plugins
  list_plugins-register =
      rw (register_sound self plugin accepted).1
        (values-append self.plugins ((plugin.name, plugin) ∷ []))

module _ {O : Type 0} where
  -- Registering plugins one after the other lists them after those the registry had, in order.
  pub list_plugins-register_all :
      (self : PluginRegistry O) (plugins : List (Plugin O)) {next : PluginRegistry O}
      → register_all self plugins ≡ ok next
      → list_plugins next ≡ list_plugins self ++ plugins
  unfolding register_all
  list_plugins-register_all self [] h =
      rw (sym (ok-injective h)) (sym (append-nil (list_plugins self)))
  list_plugins-register_all self (plugin ∷ plugins) h = on_ok (register self plugin) _ h λ mid e k.
      list_plugins-register_all mid plugins k
      ∙ rw (list_plugins-register self plugin mid e)
          (append_assoc (list_plugins self) (plugin ∷ []) plugins)
