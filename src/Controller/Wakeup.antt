-- ===== src/Controller/Wakeup.antt =====
-- How the goroutines of the program meet: reconcilers that call `Set` and `Touch` of
-- internal/registry/registry.go, and the loop of `Start` in internal/controller/render_loop.go.
-- One step is one action that another goroutine can see. A call of `Set` that changes the entries is
-- two of them, under the lock and after it; a render is two as well, up to `Snapshot`, and the rest.
pub mod Settling
use gatus_sidecar.Prelude.{ℕ, suc, ◌≡◌, refl, sym, ap, ◌∙◌, ◌≢◌, Bool, true, false, List, [], arith}
use mathlib.Core.Bool.{false≢true}
use gatus_sidecar.Prelude.Assoc
use gatus_sidecar.Config.Endpoint.{Endpoint}
use gatus_sidecar.Registry.Order.{Key, key_eq}
use gatus_sidecar.Registry.{Registry, returned, notify, store, touch}
use gatus_sidecar.Registry.Laws.{Entries}

-- Where the loop is: at its `select`, in a render that has yet to take its snapshot, or behind that.
pub data Phase : Type 0 where
  waiting : Phase
  rendering : Phase
  publishing : Phase

-- `rendered` is what the last snapshot saw, `in_flight` the calls of `Set` between the lock and the
-- signal, `pending` that the timer runs, `failed` that the last render ended with an error.
pub record World : Type 0 where
  pub registry : Registry
  pub in_flight : ℕ
  pub pending : Bool
  pub phase : Phase
  pub failed : Bool
  pub rendered : Entries

pub data Step : World → World → Type 0 where
  -- `Set` changes the entries and unlocks.
  stored :
      (w : World) (key : Key) (endpoints : List Endpoint) (r : Registry)
      → store w.registry key endpoints (Assoc.lookup key w.registry.entries) ≡ returned true r
      → Step w (record w { registry = r; in_flight = suc w.in_flight })
  -- `Set` signals.
  signalled :
      (w : World) (n : ℕ)
      → w.in_flight ≡ suc n
      → Step w (record w { registry = notify w.registry; in_flight = n })
  touched : (w : World) → Step w (record w { registry = touch w.registry })
  -- `case <-l.Registry.Changed()`
  received :
      (w : World)
      → w.phase ≡ waiting
      → w.registry.changed ≡ true
      → Step w (record w { registry = record w.registry { changed = false }; pending = true })
  -- `case <-timer.C`
  fired :
      (w : World)
      → w.phase ≡ waiting
      → w.pending ≡ true
      → Step w (record w { pending = false; phase = rendering })
  -- `render` fails before it takes the snapshot.
  gave_up : (w : World) → w.phase ≡ rendering → Step w (record w { phase = waiting; failed = true })
  snapshot :
      (w : World)
      → w.phase ≡ rendering
      → Step w (record w { phase = publishing; rendered = w.registry.entries })
  -- The rest of `render`, with or without an error.
  ended :
      (w : World) (error : Bool)
      → w.phase ≡ publishing
      → Step w (record w { phase = waiting; failed = error })

pub data Steps : World → World → Type 0 where
  done : (w : World) → Steps w w
  next : (u v w : World) → Steps u v → Step v w → Steps u w

-- As `Start` calls `render` for the first time: the registry may hold anything, and calls of `Set`
-- may be under way.
abbrev pub started : Registry → ℕ → World
started r in_flight = record {
  registry = r;
  in_flight = in_flight;
  pending = false;
  phase = rendering;
  failed = false;
  rendered = [];
}

-- The entries that the last snapshot has not seen will be rendered: a signal is on its way or there,
-- the timer runs, or a render is about to take its snapshot; or the last render failed.
pub data IsTended (w : World) : Type 0 where
  current : w.registry.entries ≡ w.rendered → IsTended w
  on_its_way : (n : ℕ) → w.in_flight ≡ suc n → IsTended w
  there : w.registry.changed ≡ true → IsTended w
  timed : w.pending ≡ true → IsTended w
  about_to : w.phase ≡ rendering → IsTended w
  after_failure : w.failed ≡ true → w.phase ≢ publishing → IsTended w

is_publishing : Phase → Bool
is_publishing publishing = true
is_publishing _ = false

apart : {p q : Phase} → p ≡ publishing → p ≡ q → is_publishing q ≡ true
unfolding is_publishing
apart h k = ap is_publishing (sym k ∙ h)

step-IsTended : (v w : World) → Step v w → IsTended v → IsTended w
unfolding notify touch is_publishing
step-IsTended _ _ (stored w key endpoints r h) t = on_its_way w.in_flight refl
step-IsTended _ _ (signalled w n h) t = there refl
step-IsTended _ _ (touched w) t = there refl
step-IsTended _ _ (received w h k) t = timed refl
step-IsTended _ _ (fired w h k) t = about_to refl
step-IsTended _ _ (gave_up w h) t = after_failure refl (λ k. false≢true (apart k refl))
step-IsTended _ _ (snapshot w h) t = current refl
step-IsTended _ _ (ended w error h) (current e) = current e
step-IsTended _ _ (ended w error h) (on_its_way n e) = on_its_way n e
step-IsTended _ _ (ended w error h) (there e) = there e
step-IsTended _ _ (ended w error h) (timed e) = timed e
step-IsTended _ _ (ended w error h) (about_to e) = absurd (false≢true (apart h e))
step-IsTended _ _ (ended w error h) (after_failure e n) = absurd (n h)

pub steps-IsTended : (u w : World) → Steps u w → IsTended u → IsTended w
steps-IsTended _ _ (done w) t = t
steps-IsTended _ _ (next u v w s k) t = step-IsTended v w k (steps-IsTended u v s t)

-- No change is lost: in every order of steps from the first render on, when no call of `Set` is under
-- way, no signal is there, no timer runs and no render is going on, the last render has seen the
-- entries as they are, unless it failed.
pub quiet-is_current :
    (r : Registry) (n : ℕ) (w : World)
    → Steps (started r n) w
    → w.in_flight ≡ 0
    → w.registry.changed ≡ false
    → w.pending ≡ false
    → w.phase ≡ waiting
    → w.failed ≡ false
    → w.registry.entries ≡ w.rendered
quiet-is_current r n w s f c p h e = conclude (steps-IsTended (started r n) w s (about_to refl))
  where
    is_rendering : Phase → Bool
    is_rendering rendering = true
    is_rendering _ = false

    conclude : IsTended w → w.registry.entries ≡ w.rendered
    conclude (current k) = k
    conclude (on_its_way m k) = let same : 0 ≡ suc m = sym f ∙ k in absurd (omega arith)
    conclude (there k) = absurd (false≢true (sym c ∙ k))
    conclude (timed k) = absurd (false≢true (sym p ∙ k))
    conclude (about_to k) = absurd (false≢true (ap is_rendering (sym h ∙ k)))
    conclude (after_failure k m) = absurd (false≢true (sym e ∙ k))
