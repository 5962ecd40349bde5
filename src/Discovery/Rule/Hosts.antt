-- ===== src/Discovery/Rule/Hosts.antt =====
-- About the hosts that `parseRule` of internal/discovery/matcher.go collects.
use mathlib.Core.Bool.{false≢true}
use mathlib.Core.List.{Mem}
use gatus_sidecar.Prelude.{
  String, ◌≡◌, refl, sym, ap, ◌∙◌, subst, ◌≢◌, inl, inr, Bool, true, false, Option, some, List, [],
  string_eq, if_elim, if_true, if_false, beq_of_ne,
}
use gatus_sidecar.Prelude.Text.{trim_space, to_lower}
use gatus_sidecar.Discovery.Rule.{
  Tree, nil, tree, ParsedRule, Walk, is_seen, is_concrete, is_junction, is_host_matcher, visit,
  flipped, walk_tree, no_rule, walked, parse_rule,
}
use gatus_sidecar.Discovery.Rule.Collect.{
  IsDistinct, IsClean, Grows, stays, then-Grows, Grows-for, visit-Grows, visit-seen,
}

-- The host stands in the rule under an even number of negations, counting the flag.
pub data Names (h : String) : Tree → Bool → Type 0 where
  here :
      (matcher : String) (is_not : Bool) (values : List String) (left right : Tree) (negated : Bool)
      (v : String)
      → is_junction (to_lower matcher) ≡ false
      → is_host_matcher (to_lower matcher) ≡ true
      → flipped is_not negated ≡ false
      → Mem v values
      → trim_space v ≡ h
      → Names h (tree matcher is_not values left right) negated
  left :
      (matcher : String) (is_not : Bool) (values : List String) (l r : Tree) (negated : Bool)
      → is_junction (to_lower matcher) ≡ true
      → Names h l (flipped is_not negated)
      → Names h (tree matcher is_not values l r) negated
  right :
      (matcher : String) (is_not : Bool) (values : List String) (l r : Tree) (negated : Bool)
      → is_junction (to_lower matcher) ≡ true
      → Names h r (flipped is_not negated)
      → Names h (tree matcher is_not values l r) negated

walk_tree-Grows :
    (t : Tree) (negated : Bool) (w : Walk)
    → IsClean w
    → Grows (λ h. Names h t negated) w (walk_tree t negated w)
unfolding walk_tree
walk_tree-Grows nil negated w c = stays _ w c
walk_tree-Grows (tree matcher is_not values l r) negated w c =
    let below = walk_tree-Grows l (flipped is_not negated) w c in
    let after =
      walk_tree-Grows r (flipped is_not negated) (walk_tree l (flipped is_not negated) w)
        below.clean in
    if_elim (Grows (λ h. Names h (tree matcher is_not values l r) negated) w)
      (is_junction (to_lower matcher)) _ _
      (λ j.
        then-Grows _ w (walk_tree l (flipped is_not negated) w) _
          (Grows-for _ _ _ _ (λ h n. Names.left matcher is_not values l r negated j n) below)
          (Grows-for _ _ _ _ (λ h n. Names.right matcher is_not values l r negated j n) after))
      λ j.
        if_elim (Grows (λ h. Names h (tree matcher is_not values l r) negated) w)
          (flipped is_not negated) w _ (λ b. stays _ w c)
          λ b.
            visit-Grows _ (to_lower matcher) values w
              (λ m h v. Names.here matcher is_not values l r negated v.0 j m b v.1.0 v.1.1) c

walk_tree-seen :
    (h : String) (t : Tree) (negated : Bool) (w : Walk)
    → IsClean w
    → is_concrete h ≡ true
    → Names h t negated
    → is_seen h (walk_tree t negated w).out.hosts ≡ true
unfolding walk_tree
walk_tree-seen h _ _ w c ok (Names.here matcher is_not values l r negated v j m b i e) =
    subst (λ (x : Walk). is_seen h x.out.hosts ≡ true) (sym (if_false _ _ j ∙ if_false _ _ b))
      (subst (λ y. is_seen y (visit (to_lower matcher) values w).out.hosts ≡ true) e
        (visit-seen (to_lower matcher) v values w c m i
          (subst (λ y. is_concrete y ≡ true) (sym e) ok)))
walk_tree-seen h _ _ w c ok (Names.left matcher is_not values l r negated j n) =
    subst (λ (x : Walk). is_seen h x.out.hosts ≡ true) (sym (if_true _ _ j))
      ((walk_tree-Grows r (flipped is_not negated) (walk_tree l (flipped is_not negated) w)
          (walk_tree-Grows l (flipped is_not negated) w c).clean).kept
        h (walk_tree-seen h l (flipped is_not negated) w c ok n))
walk_tree-seen h _ _ w c ok (Names.right matcher is_not values l r negated j n) =
    subst (λ (x : Walk). is_seen h x.out.hosts ≡ true) (sym (if_true _ _ j))
      (walk_tree-seen h r (flipped is_not negated) (walk_tree l (flipped is_not negated) w)
        (walk_tree-Grows l (flipped is_not negated) w c).clean ok n)

abbrev start : Walk
start = record { out = no_rule; seen = [] }

start-IsClean : IsClean start
unfolding is_seen
start-IsClean = record { seen_hosts = λ h. refl; distinct = tt; concrete = λ h m. cc }

-- The hosts of a rule that Traefik parses to a tree.
pub record HasHosts (t : Tree) (hosts : List String) : Type 0 where
  pub distinct : IsDistinct hosts
  pub concrete : (h : String) → is_seen h hosts ≡ true → is_concrete h ≡ true
  pub named : (h : String) → is_seen h hosts ≡ true → Names h t false
  pub complete : (h : String) → is_concrete h ≡ true → Names h t false → is_seen h hosts ≡ true

walk_tree-HasHosts :
    (t : Tree) → HasHosts t (walk_tree t false (record { out = no_rule; seen = [] })).out.hosts
unfolding is_seen
walk_tree-HasHosts t =
    let g = walk_tree-Grows t false start start-IsClean in
    record {
      distinct = g.clean.distinct;
      concrete = g.clean.concrete;
      named = λ h m. elim (g.origin h m) [ inl k ↦ absurd (false≢true k) | inr n ↦ n ];
      complete = λ h ok n. walk_tree-seen h t false start start-IsClean ok n;
    }

-- For a rule that is not blank and that Traefik's parser reads as a tree, `parseRule` gives just the
-- hosts that stand in the tree under an even number of negations and are addresses (not empty, not *,
-- without a placeholder), each once.
pub parse_rule-HasHosts :
    (parse : String → Option Tree) (rule : String) (t : Tree)
    → trim_space rule ≢ ""
    → parse rule ≡ some t
    → (r : ParsedRule) × ((parse_rule parse rule ≡ some r) × HasHosts t r.hosts)
unfolding parse_rule
parse_rule-HasHosts parse rule t h e = (
  (walk_tree t false start).out,
  (if_false _ _ (beq_of_ne (trim_space rule) "" h) ∙ ap walked e, walk_tree-HasHosts t),
)
