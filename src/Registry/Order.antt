-- ===== src/Registry/Order.antt =====
-- The keys of the registry, their equality and the order in which `Snapshot` lists them.
use gatus_sidecar.Prelude.{
  String, ◌≡◌, ◌↔◌, Bool, false, ◌&&◌, arith, ◌==◌, string_eq, Eq, str_less, str_less-IsOrder,
  str_less_antisym,
}
use gatus_sidecar.Prelude.Order.{IsOrder, lexicographic, lexicographic-IsOrder, lexicographic_tie}

pub record Key : Type 0 where
  pub kind : String
  pub namespace : String
  pub name : String

unfoldable pub key_beq : Key → Key → Bool
key_beq a b = a.kind == b.kind && a.namespace == b.namespace && a.name == b.name

pub key_beq_iff : (a b : Key) → (key_beq a b ≡ Bool.true) ↔ (a ≡ b)
unfolding key_beq
key_beq_iff a b = (
  (λ h. ground (
    arith,
    string_eq.beq_iff a.kind b.kind,
    string_eq.beq_iff a.namespace b.namespace,
    string_eq.beq_iff a.name b.name,
  )),
  λ h. ground (
    arith,
    string_eq.beq_iff a.kind b.kind,
    string_eq.beq_iff a.namespace b.namespace,
    string_eq.beq_iff a.name b.name,
  ),
)

instance abbrev pub key_eq : Eq Key
key_eq = record { beq = key_beq; beq_iff = key_beq_iff }

abbrev by_name : Key → Key → Bool
by_name a b = str_less a.name b.name

abbrev by_namespace : Key → Key → Bool
by_namespace = lexicographic str_less (λ k. k.namespace) by_name

-- The test that `Snapshot` hands to `sort.Slice`.
unfoldable pub key_less : Key → Key → Bool
key_less = lexicographic str_less (λ k. k.kind) by_namespace

by_name-IsOrder : IsOrder by_name
by_name-IsOrder = record {
  asym = λ a b. str_less-IsOrder.asym a.name b.name;
  trans = λ a b c. str_less-IsOrder.trans a.name b.name c.name;
}

by_namespace-IsOrder : IsOrder by_namespace
by_namespace-IsOrder =
    lexicographic-IsOrder str_less-IsOrder str_less_antisym (λ k. k.namespace) by_name
      by_name-IsOrder

pub key_less-IsOrder : IsOrder key_less
unfolding key_less
key_less-IsOrder =
    lexicographic-IsOrder str_less-IsOrder str_less_antisym (λ k. k.kind) by_namespace
      by_namespace-IsOrder

-- Two keys tie only if they are equal.
pub key_less_antisym : (a b : Key) → key_less a b ≡ false → key_less b a ≡ false → a ≡ b
unfolding key_less
key_less_antisym a b h k =
    let (kinds, h', k') =
      lexicographic_tie str_less-IsOrder str_less_antisym (λ x. x.kind) by_namespace a b h k in
    let (spaces, h'', k'') =
      lexicographic_tie str_less-IsOrder str_less_antisym (λ x. x.namespace) by_name a b h' k' in
    let names = str_less_antisym a.name b.name h'' k'' in
    λ i. record { kind = kinds i; namespace = spaces i; name = names i }
