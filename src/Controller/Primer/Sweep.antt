-- ===== src/Controller/Primer/Sweep.antt =====
-- About the loop of `Prime` in internal/controller/primer.go over the listing of one kind.
use gatus_sidecar.Prelude.{
  ℕ, suc, String, ◌≡◌, refl, sym, ap, ◌∙◌, subst, ◌≢◌, ◌⊎◌, inl, inr, Bool, true, false, Option,
  none, some, List, [], ◌∷◌, ◌++◌, string_eq, none≢some, some_inj, eq_or_ne, All, pair_eq,
}
use gatus_sidecar.Prelude.Assoc
use gatus_sidecar.Config.Endpoint.{Endpoint}
use gatus_sidecar.Registry.Compare.{equal_endpoints}
use gatus_sidecar.Registry.Laws.{SetEffect, Stored}
use gatus_sidecar.Registry.Order.{Key, key_eq}
use gatus_sidecar.Registry.{Registry, returned, panicked, blocked}
use gatus_sidecar.Controller.Reconcile.{Reconciled, retried, called}
use gatus_sidecar.Controller.Reconcile.Contribution.{InLine, key_of}
use gatus_sidecar.Controller.Primer.{Swept, swept, crashed, stuck, Request, after_one, sweep}

-- A Reconcile brings an unlocked registry in line with what is wanted of an object.
abbrev pub BringsInLine :
    String
    → (String → String → Option (List Endpoint))
    → (Registry → String → String → Reconciled)
    → Type 0
BringsInLine kind wanted reconcile =
    (r : Registry) (namespace name : String)
    → r.locked ≡ false
    → InLine r (key_of kind namespace name) (wanted namespace name) (reconcile r namespace name)

module _ (kind : String) (wanted : String → String → Option (List Endpoint)) where
  abbrev pub request_key : Request → Key
  request_key q = key_of kind q.0 q.1

  -- The registry has what each listed object contributes.
  abbrev pub Contributed : List Request → Registry → Type 0
  Contributed requests r =
      All
        (λ q.
          (eps : List Endpoint)
          → wanted q.0 q.1 ≡ some eps
          → Stored eps (Assoc.lookup (request_key q) r.entries))
        requests

  -- No listed object that could be read has the key.
  abbrev pub IsApart : Key → List Request → Type 0
  IsApart k requests = All (λ q. (request_key q ≢ k) ⊎ (wanted q.0 q.1 ≡ none)) requests

  -- The registry has what each listed object contributes, and is as it was under all other keys,
  -- those of objects that could not be read included.
  pub record InSync (requests : List Request) (r r' : Registry) : Type 0 where
    pub unlocked : r'.locked ≡ false
    pub contributed : Contributed requests r'
    pub others :
        (k : Key) → IsApart k requests → Assoc.lookup k r'.entries ≡ Assoc.lookup k r.entries

  -- A call of `Set` has panicked: all objects before this one are in line, its endpoints cannot be
  -- compared with those that are stored under its key, and the mutex is left locked.
  pub record CrashesAt (requests : List Request) (r r' : Registry) : Type 0 where
    pub before : List Request
    pub request : Request
    pub later : List Request
    pub listed : requests ≡ before ++ request ∷ later
    pub reached : Registry
    pub in_sync : InSync before r reached
    pub endpoints : List Endpoint
    pub contributes : wanted request.0 request.1 ≡ some endpoints
    pub old : List Endpoint
    pub stored : Assoc.lookup (request_key request) reached.entries ≡ some old
    pub not_compared : equal_endpoints old endpoints ≡ none
    pub left : r' ≡ record reached { locked = true }

  -- A sweep ends, unless it crashes at an object whose endpoints cannot be compared.
  abbrev pub Ends : List Request → Registry → Swept → Type 0
  Ends requests r (swept n r') = InSync requests r r'
  Ends requests r (crashed r') = CrashesAt requests r r'
  Ends requests r stuck = ⊥

  pub same_request : (x y : Request) → request_key x ≡ request_key y → x ≡ y
  same_request x y e = ap (λ (k : Key). (k.namespace, k.name)) e

  in_or_IsApart :
      (P : Request → Type 0) (q : Request) (requests : List Request)
      → All P requests
      → P q ⊎ IsApart (request_key q) requests
  in_or_IsApart P q [] h = inr tt
  in_or_IsApart P q (x ∷ requests) h = elim (eq_or_ne x q) [
    | inl same ↦ inl (subst P same h.0)
    | inr other ↦ elim (in_or_IsApart P q requests h.1) [
      | inl p ↦ inl p
      | inr rest ↦ inr (inl (λ e. other (same_request x q e)), rest)
    ]
  ]

  module _ (reconcile : Registry → String → String → Reconciled)
      (in_line : BringsInLine kind wanted reconcile) where
    -- Once it is there, what an object contributes stays to the end of the sweep.
    stays :
        (q : Request) (requests : List Request) (eps : List Endpoint) (r r' : Registry)
        → wanted q.0 q.1 ≡ some eps
        → Stored eps (Assoc.lookup (request_key q) r.entries)
        → InSync requests r r'
        → Stored eps (Assoc.lookup (request_key q) r'.entries)
    stays q requests eps r r' w s i = elim (in_or_IsApart _ q requests i.contributed) [
      | inl p ↦ p eps w
      | inr apart ↦ subst (Stored eps) (sym (i.others (request_key q) apart)) s
    ]

    after_set-InSync :
        (q : Request) (requests : List Request) (eps : List Endpoint) (changed : Bool)
        (r r₁ r' : Registry)
        → wanted q.0 q.1 ≡ some eps
        → SetEffect r (request_key q) eps changed r₁
        → InSync requests r₁ r'
        → InSync (q ∷ requests) r r'
    after_set-InSync q requests eps changed r r₁ r' w e i = record {
      unlocked = i.unlocked;
      contributed = (
        (λ eps' w'.
            subst (λ x. Stored x (Assoc.lookup (request_key q) r'.entries)) (some_inj (sym w ∙ w'))
              (stays q requests eps r₁ r' w e.own i)),
        i.contributed,
      );
      others = λ k h.
          i.others k h.1
          ∙ e.others k (elim h.0 [ inl p ↦ p | inr n ↦ absurd (none≢some (sym n ∙ w)) ]);
    }

    passed_over-InSync :
        (q : Request) (requests : List Request) (r r' : Registry)
        → wanted q.0 q.1 ≡ none
        → InSync requests r r'
        → InSync (q ∷ requests) r r'
    passed_over-InSync q requests r r' w i = record {
      unlocked = i.unlocked;
      contributed = ((λ eps w'. absurd (none≢some (sym w ∙ w'))), i.contributed);
      others = λ k h. i.others k h.1;
    }

    -- One object more before the rest of a sweep, given that it keeps `InSync`.
    one_before :
        (q : Request) (requests : List Request) (r r₁ : Registry)
        → ((before : List Request) (r' : Registry) → InSync before r₁ r' → InSync (q ∷ before) r r')
        → (s : Swept) → Ends requests r₁ s
        → Ends (q ∷ requests) r s
    one_before q requests r r₁ f (swept n r') i = f requests r' i
    one_before q requests r r₁ f (crashed r') i = record {
      before = q ∷ i.before;
      request = i.request;
      later = i.later;
      listed = ap (◌∷◌ q) i.listed;
      reached = i.reached;
      in_sync = f i.before i.reached i.in_sync;
      endpoints = i.endpoints;
      contributes = i.contributes;
      old = i.old;
      stored = i.stored;
      not_compared = i.not_compared;
      left = i.left;
    }
    one_before q requests r r₁ f stuck i = i

    after_one-Ends :
        (q : Request) (requests : List Request) (next : ℕ → Registry → Swept) (n : ℕ) (r : Registry)
        (found : Option (List Endpoint)) (answer : Reconciled)
        → wanted q.0 q.1 ≡ found
        → InLine r (request_key q) found answer
        → r.locked ≡ false
        → ((m : ℕ) (r₁ : Registry) → r₁.locked ≡ false → Ends requests r₁ (next m r₁))
        → Ends (q ∷ requests) r (after_one next n r answer)
    unfolding after_one
    after_one-Ends q requests next n r none retried w l u f =
        one_before q requests r r (λ before r'. passed_over-InSync q before r r' w) _ (f n r u)
    after_one-Ends q requests next n r none (called o) w l u f = absurd l
    after_one-Ends q requests next n r (some eps) retried w l u f = absurd l
    after_one-Ends q requests next n r (some eps) (called (returned c r₁)) w l u f =
        one_before q requests r r₁ (λ before r'. after_set-InSync q before eps c r r₁ r' w l) _
          (f (suc n) r₁ l.unlocked)
    after_one-Ends q requests next n r (some eps) (called (panicked r₁)) w l u f = record {
      before = [];
      request = q;
      later = requests;
      listed = refl;
      reached = r;
      in_sync = record { unlocked = u; contributed = tt; others = λ k h. refl };
      endpoints = eps;
      contributes = w;
      old = l.1.0;
      stored = l.1.1;
      not_compared = l.1.2;
      left = l.0;
    }
    after_one-Ends q requests next n r (some eps) (called blocked) w l u f = l

    pub sweep-Ends :
        (requests : List Request) (n : ℕ) (r : Registry)
        → r.locked ≡ false
        → Ends requests r (sweep reconcile requests n r)
    unfolding sweep
    sweep-Ends [] n r u = record { unlocked = u; contributed = tt; others = λ k h. refl }
    sweep-Ends ((namespace, name) ∷ requests) n r u =
        after_one-Ends (namespace, name) requests (sweep reconcile requests) n r
          (wanted namespace name) (reconcile r namespace name) refl (in_line r namespace name u) u
          (λ m r₁ u'. sweep-Ends requests m r₁ u')
