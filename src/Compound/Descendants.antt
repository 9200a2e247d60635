-- ===== src/Compound/Descendants.antt =====
-- The check for nested compound objects against the list of all nodes below the root.
use irods_go_drs.Base.{
  ◌≡◌, ◌↔◌, refl, Bool, true, false, ◌&&◌, not, Option, none, some, List, [], ◌∷◌,
}
use irods_go_drs.Base.{◌++◌, any, any-append, arith}
use irods_go_drs.Text.{Text}
use irods_go_drs.Metadata.Lookup.{collection_has_compound_marker}
use irods_go_drs.Compound.Tree.{
  Node, node, Nodes, end, also, entry_of, metadata_of, fail_in, fail_if_descendant_compound,
}

-- All nodes below, each in front of those below it.
unfoldable mutual
  pub descendants : Node → List Node
  descendants (node e metas children) = descendants_in children

  pub descendants_in : Nodes → List Node
  descendants_in end = []
  descendants_in (also n ns) = n ∷ (descendants n ++ descendants_in ns)

-- A collection that is marked as a compound object.
abbrev pub is_marked : Node → Bool
is_marked n = (entry_of n).is_dir && collection_has_compound_marker (metadata_of n)

-- Data objects have nothing below them.
abbrev mutual
  pub IsTree : Node → Type 0
  IsTree (node e metas children) = IsTreeIn e.is_dir children

  pub IsTreeIn : Bool → Nodes → Type 0
  IsTreeIn is_dir end = Unit
  IsTreeIn is_dir (also n ns) = (is_dir ≡ true) × IsTree n × IsTreeIn is_dir ns

descendants_of_leaf : (d : Bool) (ns : Nodes) → IsTreeIn d ns → d ≡ false → descendants_in ns ≡ []
unfolding descendants
descendants_of_leaf d end t e = refl
descendants_of_leaf d (also n ns) t e = absurd (ground arith)

abbrev is_none : Option Text → Bool
is_none none = true
is_none (some path) = false

mutual
  unfolding fail_in descendants

  fail_if-descendants :
      (n : Node)
      → IsTree n
      → is_none (fail_if_descendant_compound n) ≡ not (any is_marked (descendants n))
  fail_if-descendants (node e metas children) t = fail_in-descendants e.is_dir children t

  fail_in-descendants :
      (d : Bool) (ns : Nodes)
      → IsTreeIn d ns
      → is_none (fail_in ns) ≡ not (any is_marked (descendants_in ns))
  fail_in-descendants d end t = refl
  fail_in-descendants d (also (node e metas children) ns) t = ground (
    arith,
    fail_if-descendants (node e metas children) t.1,
    fail_in-descendants d ns t.2,
    any-append is_marked (descendants_in children) (descendants_in ns),
    descendants_of_leaf e.is_dir children t.1,
  )

-- The check passes exactly if no collection at any depth below the root has a compound marker.
pub fail_if_descendant_compound_iff :
    (n : Node)
    → IsTree n
    → (fail_if_descendant_compound n ≡ none) ↔ (any is_marked (descendants n) ≡ false)
fail_if_descendant_compound_iff n t = ground (arith, fail_if-descendants n t)
