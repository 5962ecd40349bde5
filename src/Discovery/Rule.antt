-- ===== src/Discovery/Rule.antt =====
-- internal/discovery/matcher.go: the hosts and the path of a Traefik match rule. Traefik's parser is
-- a parameter: its tree for a rule, or none where it fails.
pub mod Collect
pub mod Hosts
use Prim.Native.Char.{Char, code}
use gatus_sidecar.Prelude.{
  String, Bool, true, false, not, ◌&&◌, ◌||◌, Option, none, some, List, [], ◌∷◌, ◌++◌, ◌==◌,
  string_eq, num_eq, if◌then◌else◌,
}
use gatus_sidecar.Prelude.Text.{trim_space, to_lower, contains_func}
use gatus_sidecar.Discovery.Paths.{normalise_path}

-- `traefikrules.Tree`: matcher, negation, values, and the two rules below it.
pub data Tree : Type 0 where
  nil : Tree
  tree : String → Bool → List String → Tree → Tree → Tree

pub record ParsedRule : Type 0 where
  pub hosts : List String
  pub path : String

-- `out` and the keys of `seen`.
pub record Walk : Type 0 where
  pub out : ParsedRule
  pub seen : List String

unfoldable pub is_seen : String → List String → Bool
is_seen h [] = false
is_seen h (k ∷ ks) = k == h || is_seen h ks

-- `strings.ContainsAny(s, "{}")`
unfoldable pub has_placeholder : String → Bool
unfolding contains_func
has_placeholder s = contains_func (λ c. num_eq (code c) 123 || num_eq (code c) 125) s

unfoldable pub is_concrete : String → Bool
unfolding has_placeholder
is_concrete host = not (host == "" || host == "*" || has_placeholder host)

unfoldable pub add_host : String → Walk → Walk
unfolding is_concrete is_seen
add_host host w = if not (is_concrete host) || is_seen host w.seen then w else record {
  out = record { hosts = w.out.hosts ++ host ∷ []; path = w.out.path };
  seen = host ∷ w.seen;
}

unfoldable pub add_hosts : List String → Walk → Walk
unfolding add_host
add_hosts [] w = w
add_hosts (host ∷ hosts) w = add_hosts hosts (add_host (trim_space host) w)

-- The loop over the values, up to the first path that is usable.
first_path : List String → String
unfolding has_placeholder normalise_path
first_path [] = ""
first_path (p ∷ paths) =
    let later = first_path paths in
    if trim_space p == "" || has_placeholder (trim_space p)
    then later
    else normalise_path (trim_space p)

unfoldable pub add_path : List String → Walk → Walk
unfolding first_path
add_path paths w =
    if not (w.out.path == "")
    then w
    else record { out = record { hosts = w.out.hosts; path = first_path paths }; seen = w.seen }

abbrev pub is_junction : String → Bool
is_junction matcher = matcher == "and" || matcher == "or"

abbrev pub is_host_matcher : String → Bool
is_host_matcher matcher = matcher == "host" || matcher == "hostsni"

abbrev pub is_path_matcher : String → Bool
is_path_matcher matcher = matcher == "path" || matcher == "pathprefix"

-- A matcher that is not negated.
unfoldable pub visit : String → List String → Walk → Walk
unfolding add_hosts add_path
visit matcher values w =
    if is_host_matcher matcher
    then add_hosts values w
    else if is_path_matcher matcher
    then add_path values w
    else w

-- `if t.Not { negated = !negated }`
abbrev pub flipped : Bool → Bool → Bool
flipped is_not negated = if is_not then not negated else negated

unfoldable pub walk_tree : Tree → Bool → Walk → Walk
unfolding visit
walk_tree nil negated w = w
walk_tree (tree matcher is_not values left right) negated w =
    let below =
      walk_tree right (flipped is_not negated) (walk_tree left (flipped is_not negated) w) in
    if is_junction (to_lower matcher)
    then below
    else if flipped is_not negated
    then w
    else visit (to_lower matcher) values w

abbrev pub no_rule : ParsedRule
no_rule = record { hosts = []; path = "" }

walked : Option Tree → Option ParsedRule
unfolding walk_tree
walked none = none
walked (some t) = some (walk_tree t false (record { out = no_rule; seen = [] })).out

-- An error is `none`.
unfoldable pub parse_rule : (String → Option Tree) → String → Option ParsedRule
unfolding walked
parse_rule parse rule = if trim_space rule == "" then some no_rule else walked (parse rule)
