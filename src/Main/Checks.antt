-- ===== src/Main/Checks.antt =====
-- About the checks of `run` in cmd/gatus-sidecar/main.go: what it takes that each is passed.
use gatus_sidecar.Prelude.{
  ℕ, String, ◌≡◌, refl, sym, ap, ◌∙◌, Bool, true, false, ◌&&◌, Option, none, some, List, string_eq,
}
use gatus_sidecar.Prelude.Assoc.{Assoc}
use gatus_sidecar.Value.{Object}
use gatus_sidecar.Config.Writer.{LoadResult, loaded, read_failed, parse_failed}
use gatus_sidecar.Discovery.Entrypoints.{Flag, flag_ports, flag_error}
use gatus_sidecar.Discovery.Service.{Mode}
use gatus_sidecar.Main.{
  Refs, refs_are, not_namespace_name, Mapping, mapped, nil_mapping, no_match, mapping_failed,
  Libraries, SetupError, Checked, good, refused, ◌>>=◌, mode_of, ports_of, refs_of, base_of, unless,
  crd_installed, set_up, set_up_route,
}

pub >>=-eq-good {ℓ κ} :
    {A : Type ℓ} {B : Type κ} (m : Checked A) (f : A → Checked B) {b : B}
    → (m >>= f) ≡ good b
    → (a : A) × (m ≡ good a) × (f a ≡ good b)
unfolding ◌>>=◌
>>=-eq-good (good a) f h = (a, refl, h)
>>=-eq-good (refused e) f h = cc

pub good_inj {ℓ} : {A : Type ℓ} {a b : A} → good a ≡ good b → a ≡ b
good_inj {A} {a} h = ap value h
  where
    value : Checked A → A
    value (good x) = x
    value (refused e) = a

pub mode_of-eq :
    (flag : String) (m : Option Mode) (mode : Mode) → mode_of flag m ≡ good mode → m ≡ some mode
unfolding mode_of
mode_of-eq flag none mode h = cc
mode_of-eq flag (some m) mode h = ap some (good_inj h)

pub ports_of-eq : (p : Flag) (out : Assoc String ℕ) → ports_of p ≡ good out → p ≡ flag_ports out
unfolding ports_of
ports_of-eq (flag_ports o) out h = ap flag_ports (good_inj h)
ports_of-eq (flag_error e) out h = cc

pub refs_of-eq : (r : Refs) (refs : List String) → refs_of r ≡ good refs → r ≡ refs_are refs
unfolding refs_of
refs_of-eq (refs_are rs) refs h = ap refs_are (good_inj h)
refs_of-eq (not_namespace_name ref) refs h = cc

pub base_of-eq :
    (b : LoadResult) {u : Unit {0}} → base_of b ≡ good u → (base : Object) × (b ≡ loaded base)
unfolding base_of
base_of-eq (loaded base) h = (base, refl)
base_of-eq read_failed h = cc
base_of-eq (parse_failed path) h = cc

pub unless-eq : (b : Bool) (e : SetupError) {u : Unit {0}} → unless b e ≡ good u → b ≡ false
unfolding unless
unless-eq true e h = cc
unless-eq false e h = refl

pub set_up-eq :
    (lib : Libraries) (kind : String) (on on' : Bool) → set_up lib kind on ≡ good on' → on' ≡ on
unfolding set_up
set_up-eq lib kind false on' h = sym (good_inj h)
set_up-eq lib kind true on' h =
    let (u, e, f) = >>=-eq-good _ (λ (_ : Unit {0}). good true) h in sym (good_inj f)

abbrev pub is_installed : Mapping → Bool
is_installed mapped = true
is_installed _ = false

crd_installed-eq :
    (kind : String) (m : Mapping) (b : Bool) → crd_installed kind m ≡ good b → b ≡ is_installed m
unfolding crd_installed
crd_installed-eq kind mapped b h = sym (good_inj h)
crd_installed-eq kind nil_mapping b h = sym (good_inj h)
crd_installed-eq kind no_match b h = sym (good_inj h)
crd_installed-eq kind mapping_failed b h = cc

pub set_up_route-eq :
    (lib : Libraries) (kind : String) (on on' : Bool)
    → set_up_route lib kind on ≡ good on'
    → on' ≡ (on && is_installed (lib.mapping kind))
unfolding set_up_route
set_up_route-eq lib kind false on' h = sym (good_inj h)
set_up_route-eq lib kind true on' h =
    let (b, e, f) = >>=-eq-good _ (set_up lib kind) h in
    set_up-eq lib kind b on' f ∙ crd_installed-eq kind (lib.mapping kind) b e
