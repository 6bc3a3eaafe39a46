-- ===== src/Plugins/Registry/Registration.antt =====
-- Registration in plugins/registry.py: what it accepts, and what it leaves in the tables.
use cobalt_wren.Prelude.{
  Bool, true, false, not, ◌||◌, Option, none, some, List, [], ◌∷◌, ◌++◌, ◌≡◌, ◌∙◌, refl, sym, ap,
  arith, if◌then◌else◌,
}
use mathlib.Core.List.{append_assoc, append-nil}
use cobalt_wren.Prelude.Dict.{Dict, get, put, has, get-put, put_fresh, has-get}
use cobalt_wren.Prelude.Equality.{Eq, nat_eq, list_eq, pair_eq}
use cobalt_wren.Prelude.Result.{Result, ok, err, guard, on_ok, ok-injective}
use cobalt_wren.Prelude.Text.{Text}
use cobalt_wren.Plugins.Registry.{
  Plugin, PluginRegistry, PluginError, member, check_contributions, write_contributions, register,
  duplicate_plugin, duplicate_workflow, duplicate_tool, duplicate_provider, duplicate_store,
  duplicate_event_sink,
}

test_passed :
    {V E : Type 0} (seen : Bool) (o : Option V) (x : E) {rest : Result E (Unit {0})} {u : Unit {0}}
    → (if seen || (elim o [ none ↦ false | some _ ↦ true ]) then err x else rest) ≡ ok u
    → (seen ≡ false) × (o ≡ none) × (rest ≡ ok u)
test_passed true o x h = ground (arith, h)
test_passed false none x h = (refl, refl, h)
test_passed false (some _) x h = ground (arith, h)

module _ {K V : Type 0} ⦃e : Eq K⦄ where
  -- No key is taken, and no key comes twice.
  abbrev pub IsFresh : Dict K V → List K → List (K × V) → Type 0
  IsFresh registered seen [] = Unit
  IsFresh registered seen ((k, v) ∷ cs) =
      (member seen k ≡ false) × (get registered k ≡ none) × IsFresh registered (k ∷ seen) cs

  check_contributions-IsFresh :
      (conflict : K → PluginError) (registered : Dict K V) (seen : List K) (cs : List (K × V))
      {u : Unit {0}}
      → check_contributions conflict registered seen cs ≡ ok u
      → IsFresh registered seen cs
  unfolding check_contributions
  check_contributions-IsFresh conflict registered seen [] h = tt
  check_contributions-IsFresh conflict registered seen ((k, v) ∷ cs) h =
      let t =
        test_passed (member seen k) (get registered k) (conflict k)
          (rw (has-get registered k) at h) in
      (t.0, t.1, check_contributions-IsFresh conflict registered (k ∷ seen) cs t.2)

  IsFresh-check_contributions :
      (conflict : K → PluginError) (registered : Dict K V) (seen : List K) (cs : List (K × V))
      → IsFresh registered seen cs
      → check_contributions conflict registered seen cs ≡ ok tt
  unfolding check_contributions
  IsFresh-check_contributions conflict registered seen [] h = refl
  IsFresh-check_contributions conflict registered seen ((k, v) ∷ cs) h = rw h.0 (
      rw (has-get registered k)
        (rw h.1 (IsFresh-check_contributions conflict registered (k ∷ seen) cs h.2)))

  -- `written` has what was registered, and keys that were seen.
  write_contributions_lem :
      (registered written : Dict K V) (seen : List K) (cs : List (K × V))
      → ((k : K) → member seen k ≡ false → get registered k ≡ none → get written k ≡ none)
      → IsFresh registered seen cs
      → write_contributions written cs ≡ written ++ cs
  unfolding write_contributions
  write_contributions_lem registered written seen [] h f = sym (append-nil written)
  write_contributions_lem registered written seen ((k, v) ∷ cs) h f =
      write_contributions_lem registered (put written k v) (k ∷ seen) cs
        (λ j s r. rw (get-put written k j v) (ground (arith, h j))) f.2
      ∙ rw (put_fresh written k v (h k f.0 f.1)) (append_assoc written ((k, v) ∷ []) cs)

  pub write_fresh :
      (registered : Dict K V) (cs : List (K × V))
      → IsFresh registered [] cs
      → write_contributions registered cs ≡ registered ++ cs
  write_fresh registered cs f = write_contributions_lem registered registered [] cs (λ k s r. r) f

  pub get-append_old :
      (d cs : Dict K V) (k : K) (v : V) → get d k ≡ some v → get (d ++ cs) k ≡ some v
  get-append_old [] cs k v h = absurd (cc)
  get-append_old ((j, w) ∷ d) cs k v h = ground (arith, get-append_old d cs k v)

  pub get-append_new : (d cs : Dict K V) (k : K) → get d k ≡ none → get (d ++ cs) k ≡ get cs k
  get-append_new [] cs k h = refl
  get-append_new ((j, w) ∷ d) cs k h = ground (arith, get-append_new d cs k)

  -- The key of a new contribution is free.
  pub get-IsFresh :
      (registered : Dict K V) (seen : List K) (cs : List (K × V))
      → IsFresh registered seen cs
      → (k : K) (v : V) → get cs k ≡ some v
      → get registered k ≡ none
  get-IsFresh registered seen [] f k v h = absurd (cc)
  get-IsFresh registered seen ((j, w) ∷ cs) f k v h =
      let free = f.1 in
      ground (arith, h, e.beq_iff j k, free, get-IsFresh registered (j ∷ seen) cs f.2 k v)

module _ {O : Type 0} where
  -- What a registry must lack for a plugin to be accepted.
  abbrev pub CanRegister : PluginRegistry O → Plugin O → Type 0
  CanRegister self plugin =
      (get self.plugins plugin.name ≡ none)
      × IsFresh self.workflows [] plugin.workflows
      × IsFresh self.tools [] plugin.tools
      × IsFresh self.providers [] plugin.providers
      × IsFresh self.stores [] plugin.stores
      × IsFresh self.event_sinks [] plugin.event_sinks

  -- The registry with a plugin after those it has.
  abbrev pub extended : PluginRegistry O → Plugin O → PluginRegistry O
  extended self plugin = record {
    plugins = self.plugins ++ (plugin.name, plugin) ∷ [];
    workflows = self.workflows ++ plugin.workflows;
    tools = self.tools ++ plugin.tools;
    providers = self.providers ++ plugin.providers;
    stores = self.stores ++ plugin.stores;
    event_sinks = self.event_sinks ++ plugin.event_sinks;
  }

  written-extended :
      (self : PluginRegistry O) (plugin : Plugin O)
      → CanRegister self plugin
      → ◌≡◌ {A = PluginRegistry O}
          (record {
            plugins = put self.plugins plugin.name plugin;
            workflows = write_contributions self.workflows plugin.workflows;
            tools = write_contributions self.tools plugin.tools;
            providers = write_contributions self.providers plugin.providers;
            stores = write_contributions self.stores plugin.stores;
            event_sinks = write_contributions self.event_sinks plugin.event_sinks;
          })
          (extended self plugin)
  written-extended self plugin (n, w, t, p, s, x) =
      rw (put_fresh self.plugins plugin.name plugin n) (
        rw (write_fresh self.workflows plugin.workflows w) (
          rw (write_fresh self.tools plugin.tools t) (
            rw (write_fresh self.providers plugin.providers p) (
              rw (write_fresh self.stores plugin.stores s)
                (rw (write_fresh self.event_sinks plugin.event_sinks x) refl)))))

  name_free :
      (d : Dict Text (Plugin O)) (k : Text) (x : PluginError) {u : Unit {0}}
      → guard (not (has d k)) x ≡ ok u
      → get d k ≡ none
  name_free d k x h = by_entry (get d k) (rw (has-get d k) at h)
    where
      by_entry :
          (o : Option (Plugin O)) {u : Unit {0}}
          → guard (not (elim o [ none ↦ false | some v ↦ true ])) x ≡ ok u
          → o ≡ none
      by_entry none h = refl
      by_entry (some v) h = ground (arith, h)

  -- A registration that succeeds had no name and no key taken, and adds the plugin and its
  -- contributions at the end of the six tables, in order.
  pub register_sound :
      (self : PluginRegistry O) (plugin : Plugin O) {next : PluginRegistry O}
      → register self plugin ≡ ok next
      → CanRegister self plugin × (next ≡ extended self plugin)
  unfolding register
  register_sound self plugin h =
      on_ok (guard (not (has self.plugins plugin.name)) (duplicate_plugin plugin.name)) _ h
        λ _ n h1.
          on_ok (check_contributions duplicate_workflow self.workflows [] plugin.workflows) _ h1
            λ _ w h2.
              on_ok (check_contributions duplicate_tool self.tools [] plugin.tools) _ h2 λ _ t h3.
                on_ok (check_contributions duplicate_provider self.providers [] plugin.providers) _
                  h3
                  λ _ p h4.
                    on_ok (check_contributions duplicate_store self.stores [] plugin.stores) _ h4
                      λ _ s h5.
                        on_ok
                          (check_contributions duplicate_event_sink self.event_sinks []
                            plugin.event_sinks)
                          _ h5
                          λ _ x h6.
                            let free : CanRegister self plugin = (
                              name_free self.plugins plugin.name (duplicate_plugin plugin.name) n,
                              check_contributions-IsFresh duplicate_workflow self.workflows []
                                  plugin.workflows w,
                              check_contributions-IsFresh duplicate_tool self.tools [] plugin.tools
                                  t,
                              check_contributions-IsFresh duplicate_provider self.providers []
                                  plugin.providers p,
                              check_contributions-IsFresh duplicate_store self.stores []
                                  plugin.stores s,
                              check_contributions-IsFresh duplicate_event_sink self.event_sinks []
                                  plugin.event_sinks x,
                            ) in
                            (free, sym (ok-injective h6) ∙ written-extended self plugin free)

  -- A plugin whose name and keys are all free is accepted.
  pub register_complete :
      (self : PluginRegistry O) (plugin : Plugin O)
      → CanRegister self plugin
      → register self plugin ≡ ok (extended self plugin)
  unfolding register
  register_complete self plugin (n, w, t, p, s, x) = rw (has-get self.plugins plugin.name) (
      rw n (
        rw (IsFresh-check_contributions duplicate_workflow self.workflows [] plugin.workflows w) (
          rw (IsFresh-check_contributions duplicate_tool self.tools [] plugin.tools t) (
            rw (IsFresh-check_contributions duplicate_provider self.providers [] plugin.providers p)
              (rw (IsFresh-check_contributions duplicate_store self.stores [] plugin.stores s) (
                rw
                  (IsFresh-check_contributions duplicate_event_sink self.event_sinks []
                    plugin.event_sinks x)
                  (ap ok (written-extended self plugin (n, w, t, p, s, x)))))))))
