-- ===== src/Controller/Wakeup/Settling.antt =====
-- That the loop of `Start` in internal/controller/render_loop.go comes to rest when the cluster does.
use gatus_sidecar.Prelude.{
  ℕ, zero, suc, ◌+◌, ◌*◌, ◌≤◌, ◌<◌, ◌≡◌, refl, sym, ◌∙◌, ◌⊎◌, inl, inr, Bool, true, false, arith,
  Bool-cases,
}
use gatus_sidecar.Registry.{Registry, notify}
use gatus_sidecar.Controller.Wakeup.{
  Phase, waiting, rendering, publishing, World, Step, stored, signalled, touched, received, fired,
  gave_up, snapshot, ended, Steps, started, quiet-is_current,
}

-- A step that no change of the cluster is needed for: of the loop, or the signal that a call of `Set`
-- still owes.
abbrev pub IsOwn : {v w : World} → Step v w → Type 0
IsOwn (stored w key endpoints r h) = ⊥
IsOwn (signalled w n h) = Unit
IsOwn (touched w) = ⊥
IsOwn (received w h k) = Unit
IsOwn (fired w h k) = Unit
IsOwn (gave_up w h) = Unit
IsOwn (snapshot w h) = Unit
IsOwn (ended w error h) = Unit

pub data OwnSteps (u : World) : ℕ → World → Type 0 where
  none_yet : OwnSteps u zero u
  one_more :
      {n : ℕ} {v w : World} → OwnSteps u n v → (s : Step v w) → IsOwn s → OwnSteps u (suc n) w

pub record IsQuiet (w : World) : Type 0 where
  pub none_in_flight : w.in_flight ≡ 0
  pub no_signal : w.registry.changed ≡ false
  pub no_timer : w.pending ≡ false
  pub at_select : w.phase ≡ waiting

abbrev phase_weight : Phase → ℕ
phase_weight waiting = 0
phase_weight publishing = 1
phase_weight rendering = 2

abbrev weight : Bool → ℕ → ℕ
weight true n = n
weight false n = 0

-- How many own steps there can be.
abbrev pub work_left : World → ℕ
work_left w =
    5 * w.in_flight + weight w.registry.changed 4 + weight w.pending 3 + phase_weight w.phase

own_step-lt : {v w : World} (s : Step v w) → IsOwn s → work_left w < work_left v
unfolding notify
own_step-lt (stored w key endpoints r h) o = absurd o
own_step-lt (signalled w n h) o = ground arith
own_step-lt (touched w) o = absurd o
own_step-lt (received w h k) o = ground arith
own_step-lt (fired w h k) o = ground arith
own_step-lt (gave_up w h) o = ground arith
own_step-lt (snapshot w h) o = ground arith
own_step-lt (ended w error h) o = ground arith

own_step-entries : {v w : World} (s : Step v w) → IsOwn s → w.registry.entries ≡ v.registry.entries
unfolding notify
own_step-entries (stored w key endpoints r h) o = absurd o
own_step-entries (signalled w n h) o = refl
own_step-entries (touched w) o = absurd o
own_step-entries (received w h k) o = refl
own_step-entries (fired w h k) o = refl
own_step-entries (gave_up w h) o = refl
own_step-entries (snapshot w h) o = refl
own_step-entries (ended w error h) o = refl

OwnSteps-le : {u w : World} {n : ℕ} → OwnSteps u n w → n + work_left w ≤ work_left u
OwnSteps-le none_yet = omega arith
OwnSteps-le (one_more r s o) = omega (arith, OwnSteps-le r, own_step-lt s o)

OwnSteps-entries : {u w : World} {n : ℕ} → OwnSteps u n w → w.registry.entries ≡ u.registry.entries
OwnSteps-entries none_yet = refl
OwnSteps-entries (one_more r s o) = own_step-entries s o ∙ OwnSteps-entries r

OwnSteps-Steps : {t u w : World} {n : ℕ} → Steps t u → OwnSteps u n w → Steps t w
OwnSteps-Steps h none_yet = h
OwnSteps-Steps h (one_more r s o) = Steps.next _ _ _ (OwnSteps-Steps h r) s

-- Where there is work, some own step can be taken.
progress : (w : World) → IsQuiet w ⊎ ((w' : World) × (s : Step w w') × IsOwn s)
progress w = by_state w.in_flight w.phase w.registry.changed w.pending refl refl refl refl
  where
    by_state :
        (n : ℕ) (p : Phase) (c t : Bool)
        → w.in_flight ≡ n
        → w.phase ≡ p
        → w.registry.changed ≡ c
        → w.pending ≡ t
        → IsQuiet w ⊎ ((w' : World) × (s : Step w w') × IsOwn s)
    by_state (suc n) p c t e f g h = inr (_, signalled w n e, tt)
    by_state zero rendering c t e f g h = inr (_, snapshot w f, tt)
    by_state zero publishing c t e f g h = inr (_, ended w false f, tt)
    by_state zero waiting true t e f g h = inr (_, received w f g, tt)
    by_state zero waiting false true e f g h = inr (_, fired w f h, tt)
    by_state zero waiting false false e f g h =
        inl (record { none_in_flight = e; no_signal = g; no_timer = h; at_select = f })

-- Every change comes to be rendered: in every order of steps, once the cluster does not change, there
-- are no more own steps than `work_left` counts; and as long as one can be taken there is work, while
-- at rest the last render has failed, or has seen the entries as the cluster left them.
pub settles :
    (r : Registry) (in_flight : ℕ) (u w : World) (n : ℕ)
    → Steps (started r in_flight) u
    → OwnSteps u n w
    → (n ≤ work_left u)
      × (((w' : World) × (s : Step w w') × IsOwn s)
          ⊎ (IsQuiet w × ((w.failed ≡ true) ⊎ (w.rendered ≡ u.registry.entries))))
settles r in_flight u w n before own =
    (omega (arith, OwnSteps-le own), rests (progress w) (Bool-cases w.failed))
  where
    rests :
        IsQuiet w ⊎ ((w' : World) × (s : Step w w') × IsOwn s)
        → (w.failed ≡ true) ⊎ (w.failed ≡ false)
        → ((w' : World) × (s : Step w w') × IsOwn s)
          ⊎ (IsQuiet w × ((w.failed ≡ true) ⊎ (w.rendered ≡ u.registry.entries)))
    rests (inr more) f = inl more
    rests (inl q) (inl f) = inr (q, inl f)
    rests (inl q) (inr e) = inr (
      q,
      inr (
          sym (
            quiet-is_current r in_flight w (OwnSteps-Steps before own) q.none_in_flight q.no_signal
              q.no_timer q.at_select e)
          ∙ OwnSteps-entries own),
    )
