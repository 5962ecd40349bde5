-- ===== src/Controller/Startup/FirstRender.antt =====
-- About `Start` of internal/controller/render_loop.go up to its loop.
use gatus_sidecar.Prelude.{
  String, ◌≡◌, refl, sym, subst, inl, inr, Bool, true, false, Option, none, some, List, [],
}
use gatus_sidecar.Value.{Object}
use gatus_sidecar.Config.Endpoint.{Endpoint}
use gatus_sidecar.Config.Render.{Warning}
use gatus_sidecar.Config.Template.{Template, Decoded}
use gatus_sidecar.Config.Writer.{LoadResult, loaded, read_failed, parse_failed, Files, Faults}
use gatus_sidecar.Registry.{Registry, returned, snapshot, collect}
use gatus_sidecar.Controller.Primer.{
  Request, Primer, Primed, primed, not_listed, prime_crashed, prime_stuck, prime,
}
use gatus_sidecar.Controller.Primer.Complete.{
  IsComplete, IsPartial, IsUnlisted, PrimeCrashes, PrimeEnds, prime-Ends,
}
use gatus_sidecar.Controller.Primer.Sweep.{InSync}
use gatus_sidecar.Controller.RenderLoop.{Loop, LoopReport, render_loop, with_templates}
use gatus_sidecar.Controller.RenderLoop.Publishing.{Publishes, render_loop-Publishes}
use gatus_sidecar.Controller.Startup.{
  Hooks, Started, not_synced, looping, start_crashed, start_stuck, drain, with_snapshot,
  with_inputs, first_render, after_prime, with_primer, with_sync, start_up,
}

-- What the registry holds as the first render begins: all that priming is to bring, or, where `Prime`
-- could not list the objects of a kind, nothing new of that kind.
abbrev pub Filled : Option Primer → Registry → Option String → Registry → Type 0
Filled none r none r' = r'.entries ≡ r.entries
Filled none r (some kind) r' = ⊥
Filled (some p) r none r' = IsComplete p r r'
Filled (some p) r (some kind) r' = IsPartial p kind r r'

abbrev pub IsSynced : Option Bool → Type 0
IsSynced (some false) = ⊥
IsSynced _ = Unit

-- `Start` has waited for the caches and has primed.
abbrev pub Reached : Hooks → Registry → Option String → Registry → Type 0
Reached hooks r unlisted r' = IsSynced hooks.synced × Filled hooks.primer r unlisted r'

-- A sweep is in line also when the signal has been drained.
drained-InSync :
    (kind : String) (wanted : String → String → Option (List Endpoint)) (requests : List Request)
    (r r' : Registry)
    → InSync kind wanted requests r r'
    → InSync kind wanted requests r (drain r')
unfolding drain
drained-InSync kind wanted requests r r' i = record {
  unlocked = i.unlocked;
  contributed = i.contributed;
  others = i.others;
}

drained-IsUnlisted :
    (p : Primer) (kind : String) (r r' : Registry)
    → IsUnlisted p kind r r'
    → IsUnlisted p kind r (drain r')
unfolding drain
drained-IsUnlisted p kind r r' (inl (k, on, n, same)) = inl (k, on, n, same)
drained-IsUnlisted p kind r r' (inr (inl (k, on, n, i))) =
    inr (inl (k, on, n, drained-InSync _ _ _ r r' i))
drained-IsUnlisted p kind r r' (inr (inr (k, on, n, (r₁, i, j)))) =
    inr (inr (k, on, n, (r₁, i, drained-InSync _ _ _ r₁ r' j)))

-- Only priming can crash.
abbrev pub Crashed : Option Primer → Registry → Registry → Type 0
Crashed none r r' = ⊥
Crashed (some p) r r' = PrimeCrashes p r r'

module _ (unmarshal : String → Decoded) (default : String) (marshal : Object → Option String)
    (describe : Warning → String) (faults : Faults) (l : Loop) (fs : Files) (base : LoadResult)
    (items : Option (List Template)) where
  -- The first render is of the registry as it stands, and no signal is left.
  pub record StartsLoop (hooks : Hooks) (r : Registry) (unlisted : Option String) (r' : Registry)
      (report : LoopReport) : Type 0 where
    pub reached : Reached hooks r unlisted r'
    pub drained : r'.changed ≡ false
    pub published : Publishes unmarshal default marshal l fs base items (collect r'.entries) report

  abbrev pub StartsUp : Hooks → Registry → Started → Type 0
  StartsUp hooks r not_synced = hooks.synced ≡ some false
  StartsUp hooks r (looping unlisted r' report) = StartsLoop hooks r unlisted r' report
  StartsUp hooks r (start_crashed r') = IsSynced hooks.synced × Crashed hooks.primer r r'
  StartsUp hooks r start_stuck = ⊥

  abbrev report_of : List Endpoint → LoopReport
  report_of eps = render_loop unmarshal default marshal describe faults l fs base items eps

  snapshot-StartsUp :
      (hooks : Hooks) (r r' : Registry) (unlisted : Option String)
      → Reached hooks r unlisted r'
      → r'.changed ≡ false
      → r'.locked ≡ false
      → StartsUp hooks r (
          with_snapshot unmarshal default marshal describe faults l fs base items unlisted r'
            (snapshot r'))
  unfolding with_snapshot snapshot
  snapshot-StartsUp hooks r r' unlisted f c u =
      let unlocked : snapshot r' ≡ returned (collect r'.entries) r' = rw u in
      subst
        (λ o.
          StartsUp hooks r
            (with_snapshot unmarshal default marshal describe faults l fs base items unlisted r' o))
        (sym unlocked)
        (record {
          reached = f;
          drained = c;
          published =
              render_loop-Publishes unmarshal default marshal describe faults l fs base items
                (collect r'.entries);
        })

  -- A render that fails before it takes the snapshot is the same for all endpoints.
  early-StartsUp :
      (hooks : Hooks) (r r' : Registry) (unlisted : Option String)
      → Reached hooks r unlisted r'
      → r'.changed ≡ false
      → report_of [] ≡ report_of (collect r'.entries)
      → StartsUp hooks r (looping unlisted r' (report_of []))
  early-StartsUp hooks r r' unlisted f c e = record {
    reached = f;
    drained = c;
    published =
        subst (Publishes unmarshal default marshal l fs base items (collect r'.entries)) (sym e) (
          render_loop-Publishes unmarshal default marshal describe faults l fs base items
            (collect r'.entries));
  }

  inputs-StartsUp :
      (hooks : Hooks) (r r' : Registry) (unlisted : Option String)
      → Reached hooks r unlisted r'
      → r'.changed ≡ false
      → r'.locked ≡ false
      → (b : LoadResult) (ts : Option (List Template)) → base ≡ b
      → items ≡ ts
      → StartsUp hooks r
          (with_inputs unmarshal default marshal describe faults l fs base items unlisted r' b ts)
  unfolding with_inputs render_loop with_templates
  inputs-StartsUp hooks r r' unlisted f c u (loaded b) (some ts) p q =
      snapshot-StartsUp hooks r r' unlisted f c u
  inputs-StartsUp hooks r r' unlisted f c u (loaded b) none p q =
      early-StartsUp hooks r r' unlisted f c (rw (p, q))
  inputs-StartsUp hooks r r' unlisted f c u read_failed ts p q =
      early-StartsUp hooks r r' unlisted f c (rw p)
  inputs-StartsUp hooks r r' unlisted f c u (parse_failed path) ts p q =
      early-StartsUp hooks r r' unlisted f c (rw p)

  first_render-StartsUp :
      (hooks : Hooks) (r r' : Registry) (unlisted : Option String)
      → Reached hooks r unlisted (drain r')
      → r'.locked ≡ false
      → StartsUp hooks r
          (first_render unmarshal default marshal describe faults l fs base items unlisted r')
  unfolding first_render drain
  first_render-StartsUp hooks r r' unlisted f u =
      inputs-StartsUp hooks r (drain r') unlisted f refl u base items refl refl

  after_prime-StartsUp :
      (synced : Option Bool) (p : Primer) (r : Registry) (o : Primed)
      → IsSynced synced
      → PrimeEnds p r o
      → StartsUp
          (record { synced = synced; primer = some p })
          r
          (after_prime unmarshal default marshal describe faults l fs base items o)
  unfolding after_prime drain
  after_prime-StartsUp synced p r (primed services routes tcp_routes r') w e =
      first_render-StartsUp _ r r' none
        (
          w,
          record {
            unlocked = e.unlocked;
            services = e.services;
            routes = e.routes;
            tcp_routes = e.tcp_routes;
            others = e.others;
          },
        )
        e.unlocked
  after_prime-StartsUp synced p r (not_listed kind r') w e =
      first_render-StartsUp _ r r' (some kind)
        (
          w,
          record {
            unlocked = e.unlocked;
            unlisted = drained-IsUnlisted p kind r r' e.unlisted;
            untouched = e.untouched;
          },
        )
        e.unlocked
  after_prime-StartsUp synced p r (prime_crashed r') w e = (w, e)
  after_prime-StartsUp synced p r prime_stuck w e = e

  with_primer-StartsUp :
      (synced : Option Bool) (r : Registry)
      → IsSynced synced
      → r.locked ≡ false
      → (primer : Option Primer)
      → StartsUp
          (record { synced = synced; primer = primer })
          r
          (with_primer unmarshal default marshal describe faults l fs base items r primer)
  unfolding with_primer drain
  with_primer-StartsUp synced r w u none =
      first_render-StartsUp (record { synced = synced; primer = none }) r r none (w, refl) u
  with_primer-StartsUp synced r w u (some p) =
      after_prime-StartsUp synced p r (prime p r) w (prime-Ends p r u)

  -- `Start` on an unlocked registry returns an error just where the caches did not sync, and else comes
  -- to its loop, unless priming panics at a listed object whose endpoints cannot be compared with those
  -- that are stored under its key: no signal is left, and the first render, of the registry as it
  -- stands, has published or failed. The registry has all that priming brings, or nothing new of the
  -- kind that `Prime` could not list.
  pub start_up-StartsUp :
      (hooks : Hooks) (r : Registry)
      → r.locked ≡ false
      → StartsUp hooks r
          (start_up unmarshal default marshal describe faults l fs base items hooks r)
  unfolding start_up with_sync
  start_up-StartsUp hooks r u = by_sync hooks.synced refl
    where
      by_sync :
          (s : Option Bool)
          → hooks.synced ≡ s
          → StartsUp hooks r
              (with_sync unmarshal default marshal describe faults l fs base items hooks r s)
      by_sync none e =
          with_primer-StartsUp hooks.synced r (subst IsSynced (sym e) tt) u hooks.primer
      by_sync (some true) e =
          with_primer-StartsUp hooks.synced r (subst IsSynced (sym e) tt) u hooks.primer
      by_sync (some false) e = e

  inputs_looping :
      (unlisted : Option String) (r' : Registry)
      → r'.locked ≡ false
      → (b : LoadResult) (ts : Option (List Template))
      → (report : LoopReport) × (with_inputs unmarshal default marshal describe faults l fs base
            items unlisted r' b ts
          ≡ looping unlisted r' report)
  unfolding with_inputs with_snapshot snapshot
  inputs_looping unlisted r' u (loaded b) (some ts) = (report_of (collect r'.entries), rw u)
  inputs_looping unlisted r' u (loaded b) none = (report_of [], refl)
  inputs_looping unlisted r' u read_failed ts = (report_of [], refl)
  inputs_looping unlisted r' u (parse_failed path) ts = (report_of [], refl)

  -- Where the caches have synced and `Prime`, on an unlocked registry, cannot list the objects of a kind,
  -- `Start` renders at once all the same, from a registry in which nothing of that kind is new.
  pub unlisted-renders :
      (p : Primer) (r r₁ : Registry) (kind : String)
      → r.locked ≡ false
      → prime p r ≡ not_listed kind r₁
      → (r' : Registry) × (report : LoopReport) × (start_up unmarshal default marshal describe
            faults l fs base items
            (record { synced = some true; primer = some p })
            r
          ≡ looping (some kind) r' report)
        × StartsLoop (record { synced = some true; primer = some p }) r (some kind) r' report
  unfolding start_up with_sync with_primer after_prime first_render drain
  unlisted-renders p r r₁ kind u e =
      let partial : IsPartial p kind r r₁ = subst (PrimeEnds p r) e (prime-Ends p r u) in
      let (report, looped) = inputs_looping (some kind) (drain r₁) partial.unlocked base items in
      let hooks : Hooks = record { synced = some true; primer = some p } in
      let same : start_up unmarshal default marshal describe faults l fs base items hooks r
          ≡ looping (some kind) (drain r₁) report =
        rw e looped in
      (drain r₁, report, same, subst (StartsUp hooks r) same (start_up-StartsUp hooks r u))
