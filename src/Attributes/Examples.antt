-- ===== src/Attributes/Examples.antt =====
-- Runs of the matcher.
use webgit.Base.{◌≡◌, refl, Bool, true, false, ok, ◌↔◌, arith, Returns}
use webgit.Attributes.Bracket.{codes, bracket}
use webgit.Attributes.Wildmatch.{
  wildmatch, dowild, wild_loop, step, in_bracket, behind_bracket, star, double_star, match_or,
  is_component, star_rest, star_loop, attempt_at, after_star, skip_ahead, behind_slash,
  contains_slash, skip_stars, is_glob_special,
}
use webgit.Attributes.Wildmatch.Runs.{wildmatch-Returns}
use webgit.Attributes.Wildmatch.Glob.{Matches}
use webgit.Attributes.Wildmatch.Decide.{wildmatch-Matches}

-- Its line opens the matcher for every run below.
program : Unit {0}
unfolding wildmatch dowild wild_loop step in_bracket behind_bracket star double_star match_or
    is_component star_rest star_loop attempt_at after_star skip_ahead behind_slash contains_slash
    skip_stars is_glob_special bracket
program = tt

-- Rows of git's own list of cases, with the boundary at `/` and without.
stars_over_components : wildmatch (codes "**/*X*/**/*i") (codes "ab/cXd/efXg/hi") true ≡ ok true
unfolding program
stars_over_components = refl

empty_component : wildmatch (codes "foo/**/bar") (codes "foo/bar") true ≡ ok true
unfolding program
empty_component = refl

no_empty_component : wildmatch (codes "foo/**/bar") (codes "foo/bar") false ≡ ok false
unfolding program
no_empty_component = refl

unknown_class : wildmatch (codes "[[:digit:][:upper:][:spaci:]]") (codes "1") true ≡ ok false
unfolding program
unknown_class = refl

wildmatch-Returns_example : Returns (wildmatch (codes "*[ab") (codes "xa/b") true)
wildmatch-Returns_example = wildmatch-Returns (codes "*[ab") (codes "xa/b") true

wildmatch-Matches_example :
    (b : Bool) × (wildmatch (codes "f*[!a-n]?") (codes "foo/b") false ≡ ok b)
    × ((b ≡ true) ↔ Matches (codes "f*[!a-n]?") (codes "foo/b"))
wildmatch-Matches_example =
    wildmatch-Matches (codes "f*[!a-n]?") (codes "foo/b")
      (omega arith, (omega arith, (omega arith, (omega arith, (omega arith, tt)))))
