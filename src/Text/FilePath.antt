-- ===== src/Text/FilePath.antt =====
-- Slash-separated paths: what the program uses of Go's `path` package.
use irods_go_drs.Base.{Bool, false, ◌&&◌, ◌||◌, not, List, [], ◌∷◌, ◌++◌, is_nil, eqb}
use irods_go_drs.Base.{if◌then◌else◌, ◌≡◌, refl}
use irods_go_drs.Text.Defs.{Text, codes, ◌==◌, segments}

-- One segment after the cleaned ones, which stand in reverse: `..` takes the last one off where
-- there is one to take.
clean_step : Bool → List Text → Text → List Text
clean_step rooted [] s =
    if is_nil s || s == codes "." then [] else if s == codes ".." && rooted then [] else s ∷ []
clean_step rooted (t ∷ ts) s =
    if is_nil s || s == codes "."
    then t ∷ ts
    else if s == codes ".." && not (t == codes "..")
    then ts
    else s ∷ t ∷ ts

clean_onto : Bool → List Text → List Text → List Text
clean_onto rooted out [] = out
clean_onto rooted out (s ∷ rest) = clean_onto rooted (clean_step rooted out s) rest

-- The segments with `/` between them, from the reversed list.
join_reversed : List Text → Text → Text
join_reversed [] tail = tail
join_reversed (s ∷ []) tail = s ++ tail
join_reversed (s ∷ t ∷ ts) tail = join_reversed (t ∷ ts) (codes "/" ++ (s ++ tail))

unfoldable pub is_rooted : Text → Bool
is_rooted [] = false
is_rooted (c ∷ s) = eqb c b'/'

or_dot : Text → Text
or_dot [] = codes "."
or_dot (c ∷ s) = c ∷ s

-- `path.Clean`
unfoldable pub clean : Text → Text
unfolding clean_step clean_onto join_reversed is_rooted or_dot segments ◌==◌
clean p =
    let body = join_reversed (clean_onto (is_rooted p) [] (segments p)) [] in
    if is_rooted p then codes "/" ++ body else or_dot body

-- What stands up to the last slash, the slash included.
up_to_last_slash : Text → Text
up_to_last_slash [] = []
up_to_last_slash (c ∷ s) =
    let rest = up_to_last_slash s in if is_nil rest && not (eqb c b'/') then [] else c ∷ rest

-- `path.Dir`
unfoldable pub dir : Text → Text
unfolding clean up_to_last_slash
dir p = clean (up_to_last_slash p)

-- `path.Join` of two elements.
unfoldable pub join : Text → Text → Text
unfolding clean
join [] [] = []
join [] (c ∷ t) = clean (c ∷ t)
join (c ∷ s) [] = clean (c ∷ s)
join (c ∷ s) (d ∷ t) = clean ((c ∷ s) ++ (codes "/" ++ (d ∷ t)))

clean_examples :
    (clean (codes "/a//b/./c/../d/") ≡ codes "/a/b/d")
    × (clean (codes "../x/..") ≡ codes "..")
    × (clean (codes "") ≡ codes ".")
    × (clean (codes "/..") ≡ codes "/")
    × (dir (codes "/zone/home") ≡ codes "/zone")
    × (dir (codes "/zone") ≡ codes "/")
    × (join (codes "/a") (codes ".drsignore") ≡ codes "/a/.drsignore")
unfolding clean dir join
clean_examples = (refl, refl, refl, refl, refl, refl, refl)
