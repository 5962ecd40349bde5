-- ===== src/Discovery/Paths.antt =====
-- `normalisePath` and `matchesAny` of internal/discovery/service.go.
use gatus_sidecar.Prelude.{
  String, Bool, false, not, ◌&&◌, ◌||◌, List, [], ◌∷◌, ◌==◌, string_eq, if◌then◌else◌,
}
use gatus_sidecar.Prelude.Text.{concat, trim_space, has_prefix}

unfoldable pub with_slash : String → String
unfolding has_prefix concat
with_slash path =
    if path == "" || path == "/"
    then ""
    else if not (has_prefix path "/")
    then concat ("/" ∷ path ∷ [])
    else path

unfoldable pub normalise_path : String → String
unfolding with_slash
normalise_path path = with_slash (trim_space path)

-- The answer of Go's `path.Match` is an argument: true where it reports a match and no error.
module _ (path_match : String → String → Bool) where
  any_candidate : String → List String → Bool
  any_candidate pattern [] = false
  any_candidate pattern (c ∷ candidates) =
      (not (c == "") && path_match pattern c) || any_candidate pattern candidates

  unfoldable pub matches_any : List String → List String → Bool
  unfolding any_candidate
  matches_any [] candidates = false
  matches_any (pattern ∷ patterns) candidates =
      any_candidate pattern candidates || matches_any patterns candidates
