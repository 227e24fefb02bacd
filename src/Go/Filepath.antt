-- ===== src/Go/Filepath.antt =====
-- filepath.Join and filepath.Clean on a machine whose separator is the slash.
use Prim.Native.String.{◌++◌ as ◌⧺◌}
use mathlib.Core.List.{foldl, reverse}
use troubleshoot.Prelude.{
  String, ◌≡◌, refl, Bool, not, ◌||◌, List, [], ◌∷◌, ◌==◌, if◌then◌else◌, select,
}
use troubleshoot.Go.Text.{is_empty, is_some, after_prefix, split}

-- strings.Join
pub join_with : String → List String → String
join_with sep [] = ""
join_with sep (s ∷ []) = s
join_with sep (s ∷ t ∷ rest) = s ⧺ sep ⧺ join_with sep (t ∷ rest)

-- one element of a path, against those before it with the last one first
parent : Bool → List String → List String
parent rooted [] = if rooted then [] else ".." ∷ []
parent rooted (top ∷ below) = if top == ".." then ".." ∷ top ∷ below else below

element : Bool → List String → String → List String
element rooted before e =
    if e == "" || e == "." then before else if e == ".." then parent rooted before else e ∷ before

clean : String → String
unfolding split after_prefix
clean s =
    let rooted = is_some (after_prefix "/" s) in
    let kept = join_with "/" (reverse (foldl (element rooted) [] (split b'/' s))) in
    if rooted then "/" ⧺ kept else if kept == "" then "." else kept

-- filepath.Join
unfoldable pub join : List String → String
unfolding join_with parent element clean
join elements =
    let named = select (λ e. not (is_empty e)) elements in
    if join_with "/" named == "" then "" else clean (join_with "/" named)

join_test : join ("a" ∷ "" ∷ "b//c" ∷ "../d" ∷ []) ≡ "a/b/d"
unfolding join
join_test = refl

join_up : join (".." ∷ "../a" ∷ []) ≡ "../../a"
unfolding join
join_up = refl
