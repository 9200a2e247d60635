-- ===== src/Irods/Depth.antt =====
-- Collections that hold finitely much: a measure that the entries of a listing have less of.
use irods_go_drs.Base.{ℕ, ◌≤◌, ◌<◌, ◌≡◌, Option, none, some, List, [], ◌∷◌, arith}
use irods_go_drs.Base.Exec.{ok}
use irods_go_drs.Text.{Text}
use irods_go_drs.Model.{Entry}
use irods_go_drs.Irods.Interface.{Client}

-- The entries measure less than a bound.
abbrev pub AllBelow : (Text → ℕ) → ℕ → List (Option Entry) → Type 0
AllBelow depth n [] = Unit
AllBelow depth n (none ∷ children) = AllBelow depth n children
AllBelow depth n (some child ∷ children) = (depth child.path < n) × AllBelow depth n children

pub AllBelow-le :
    (depth : Text → ℕ) (m n : ℕ) (children : List (Option Entry))
    → m ≤ n
    → AllBelow depth m children
    → AllBelow depth n children
AllBelow-le depth m n [] k b = tt
AllBelow-le depth m n (none ∷ children) k b = AllBelow-le depth m n children k b
AllBelow-le depth m n (some child ∷ children) k b =
    (omega arith, AllBelow-le depth m n children k b.1)

module _ (C : Client) where
  -- In every state, the entries of a listing measure less than the collection.
  abbrev pub IsDepth : (Text → ℕ) → Type 0
  IsDepth depth =
      (p : Text) (s : C.State) (children : List (Option Entry))
      → C.list p s ≡ ok children
      → AllBelow depth (depth p) children
