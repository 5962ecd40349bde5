-- ===== src/Registry/Snapshot.antt =====
-- About `Snapshot` of internal/registry/registry.go.
use mathlib.Core.Logic.{∥∥₁_elim}
use mathlib.Core.Logic.Or
use mathlib.Core.HLevel.{⊥_prop}
use mathlib.Core.List.{
  Mem, Perm, Permᴰ, Perm-prop, Nodup, Nodup-cons, Nodup-nil, mem-cons, mem-cons_self,
  mem-cons_of_mem, not-mem-nil, perm_ext_iff_of_Nodup, append_assoc, perm_append_comm,
}
use mathlib.Core.List.Perm
use gatus_sidecar.Prelude.{
  ◌≡◌, refl, sym, ◌∙◌, subst, ◌≢◌, ◌↔◌, inl, inr, none, List, [], ◌∷◌, ◌++◌, ◌==◌, Bool-cases,
  none≢some, beq_refl, beq_of_ne, ne_of_beq,
}
use gatus_sidecar.Prelude.Assoc
use gatus_sidecar.Prelude.Assoc.{Assoc, HasUniqueKeys}
use gatus_sidecar.Prelude.Order.{stable_sort, stable_sort-perm, stable_sort-eq_of_perm}
use gatus_sidecar.Config.Endpoint.{Endpoint}
use gatus_sidecar.Registry.Order.{Key, key_eq, key_less, key_less-IsOrder, key_less_antisym}
use gatus_sidecar.Registry.{or_empty, keys, gather, collect}
use gatus_sidecar.Registry.Laws.{Entries}

-- A key is listed just where it has a value.
not-mem-keys : (k : Key) (m : Entries) → Assoc.lookup k m ≡ none → ¬ Mem k (keys m)
unfolding keys Assoc.lookup
not-mem-keys k [] h i = not-mem-nil i
not-mem-keys k ((j, v) ∷ m) h i = elim (Bool-cases (j == k)) [
  | inl same ↦ none≢some {a = v} (sym h ∙ rw same)
  | inr other ↦
      Or.elim ⊥_prop (mem-cons.0 i) (λ e. ne_of_beq j k other (sym e))
        (not-mem-keys k m (rw other at h))
]

listed : (k : Key) (m : Entries) → Assoc.lookup k m ≢ none → Mem k (keys m)
unfolding keys Assoc.lookup
listed k [] h = absurd (h refl)
listed k ((j, v) ∷ m) h = elim (Bool-cases (j == k)) [
  | inl same ↦ subst (λ x. Mem x (j ∷ keys m)) ((key_eq.beq_iff j k).0 same) mem-cons_self
  | inr other ↦ mem-cons_of_mem j (listed k m (λ e. h (rw other e)))
]

mem-keys : (k : Key) (m : Entries) → Mem k (keys m) ↔ (Assoc.lookup k m ≢ none)
mem-keys k m = ((λ i h. not-mem-keys k m h i), listed k m)

keys-Nodup : (m : Entries) → HasUniqueKeys m → Nodup (keys m)
unfolding keys
keys-Nodup [] u = Nodup-nil
keys-Nodup ((k, v) ∷ m) u = Nodup-cons.1 (not-mem-keys k m u.0, keys-Nodup m u.1)

gather_congr :
    (m n : Entries)
    → ((k : Key) → Assoc.lookup k m ≡ Assoc.lookup k n)
    → (ks : List Key) → gather m ks ≡ gather n ks
unfolding gather
gather_congr m n h [] = refl
gather_congr m n h (k ∷ ks) = rw (h k, gather_congr m n h ks)

-- Two registries in which every object has the same endpoints have the same snapshot, whatever
-- history and order of iteration led to them.
pub collect-eq_of_lookup :
    (m n : Entries)
    → HasUniqueKeys m
    → HasUniqueKeys n
    → ((k : Key) → Assoc.lookup k m ≡ Assoc.lookup k n)
    → collect m ≡ collect n
unfolding collect
collect-eq_of_lookup m n u v h =
    let same : Perm (keys m) (keys n) =
      (perm_ext_iff_of_Nodup (keys-Nodup m u) (keys-Nodup n v)).1 (λ k. (
        (λ i. (mem-keys k n).1 (λ e. (mem-keys k m).0 i (h k ∙ e))),
        λ i. (mem-keys k m).1 (λ e. (mem-keys k n).0 i (sym (h k) ∙ e)),
      )) in
    rw (stable_sort-eq_of_perm key_less-IsOrder key_less_antisym (keys m) (keys n) same)
      (gather_congr m n h (stable_sort key_less (keys n)))

-- The lists of all entries, one behind the other.
abbrev pub values : Entries → List Endpoint
values [] = []
values ((k, es) ∷ m) = es ++ values m

swap_lists : (xs ys zs : List Endpoint) → Perm (xs ++ (ys ++ zs)) (ys ++ (xs ++ zs))
swap_lists xs ys zs =
    rw (← append_assoc xs ys zs, ← append_assoc ys xs zs)
      (Perm.append_right zs (perm_append_comm xs ys))

gather-permᴰ : (m : Entries) {ks ls : List Key} → Permᴰ ks ls → Perm (gather m ks) (gather m ls)
unfolding gather
gather-permᴰ m Permᴰ.nil = Perm.refl []
gather-permᴰ m (Permᴰ.cons {a} {l₁ = l} {l₂ = r} e p) =
    subst (λ b. Perm (gather m (a ∷ l)) (gather m (b ∷ r))) e
      (Perm.append_left (or_empty (Assoc.lookup a m)) (gather-permᴰ m p))
gather-permᴰ m (Permᴰ.swap {a} {b} {a'} {b'} {l} e f) =
    subst (λ x. Perm (gather m (a ∷ b ∷ l)) (gather m (a' ∷ x ∷ l))) e
      (subst (λ x. Perm (gather m (a ∷ b ∷ l)) (gather m (x ∷ a ∷ l))) f
        (swap_lists (or_empty (Assoc.lookup a m)) (or_empty (Assoc.lookup b m)) (gather m l)))
gather-permᴰ m (Permᴰ.trans p q) = Perm.trans (gather-permᴰ m p) (gather-permᴰ m q)

gather-perm : (m : Entries) (ks ls : List Key) → Perm ks ls → Perm (gather m ks) (gather m ls)
gather-perm m ks ls p = ∥∥₁_elim p (λ x y. Perm-prop x y) (gather-permᴰ m)

-- An entry whose key is not asked for does not show.
gather_skip :
    (k : Key) (es : List Endpoint) (m n : Entries)
    → Assoc.lookup k n ≡ none
    → gather ((k, es) ∷ m) (keys n) ≡ gather m (keys n)
unfolding gather keys Assoc.lookup
gather_skip k es m [] h = refl
gather_skip k es m ((j, v) ∷ n) h = elim (Bool-cases (j == k)) [
  | inl same ↦ absurd (none≢some {a = v} (sym h ∙ rw same))
  | inr other ↦
      rw (beq_of_ne k j (λ e. ne_of_beq j k other (sym e)), gather_skip k es m n (rw other at h))
]

gather-keys : (m : Entries) → HasUniqueKeys m → gather m (keys m) ≡ values m
unfolding gather keys Assoc.lookup or_empty
gather-keys [] u = refl
gather-keys ((k, es) ∷ m) u = rw (beq_refl k, gather_skip k es m m u.0, gather-keys m u.1)

-- A snapshot has every stored endpoint, each as often as it is stored, and no other.
pub collect-perm : (m : Entries) → HasUniqueKeys m → Perm (collect m) (values m)
unfolding collect
collect-perm m u =
    subst (Perm (gather m (stable_sort key_less (keys m)))) (gather-keys m u)
      (gather-perm m (stable_sort key_less (keys m)) (keys m) (stable_sort-perm key_less (keys m)))
