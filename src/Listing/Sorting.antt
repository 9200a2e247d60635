-- ===== src/Listing/Sorting.antt =====
-- The orders of a listing: paths for the entries, and path with id for the objects.
use irods_go_drs.Base.{◌≡◌, sym, Bool, true, false, List, [], ◌∷◌, arith, if◌then◌else◌}
use mathlib.Core.List.{Perm}
use irods_go_drs.Base.Sort.{sort, IsSorted, sort-IsSorted, sort-perm}
use irods_go_drs.Text.{◌==◌, ==_comm, ==_iff, lt, lt_asym, lt_irrefl}
use irods_go_drs.Model.{InternalDrsObject}
use irods_go_drs.Listing.Entries.{ListingEntry}

-- `sort.Strings(paths)`, with the entries that the paths stand for.
unfoldable pub path_before : ListingEntry → ListingEntry → Bool
unfolding lt
path_before l m = lt l.path m.path

-- The order of `sortDrsObjects`.
unfoldable pub object_before : InternalDrsObject → InternalDrsObject → Bool
unfolding lt ◌==◌
object_before a b =
    if a.absolute_path == b.absolute_path then lt a.id b.id else lt a.absolute_path b.absolute_path

-- `sortDrsObjects`
unfoldable pub sort_drs_objects : List InternalDrsObject → List InternalDrsObject
unfolding sort object_before
sort_drs_objects = sort object_before

object_before_asym :
    (a b : InternalDrsObject) → object_before a b ≡ true → object_before b a ≡ false
unfolding object_before
object_before_asym a b h = ground (
  arith,
  ==_comm a.absolute_path b.absolute_path,
  lt_asym a.id b.id,
  lt_asym a.absolute_path b.absolute_path,
)

-- The first object's path does not come after the second's, nor its id where they have one path.
abbrev pub Precedes : InternalDrsObject → InternalDrsObject → Type 0
Precedes a b =
    (lt b.absolute_path a.absolute_path ≡ false)
    × (a.absolute_path ≡ b.absolute_path → lt b.id a.id ≡ false)

abbrev pub IsOrdered : List InternalDrsObject → Type 0
IsOrdered [] = Unit
IsOrdered (a ∷ []) = Unit
IsOrdered (a ∷ b ∷ objects) = Precedes a b × IsOrdered (b ∷ objects)

object_before-Precedes : (a b : InternalDrsObject) → object_before b a ≡ false → Precedes a b
unfolding object_before
object_before-Precedes a b h = (
  ground (arith, ==_iff b.absolute_path a.absolute_path, lt_irrefl a.absolute_path),
  λ e. ground (arith, ==_iff b.absolute_path a.absolute_path, sym e),
)

IsSorted-IsOrdered :
    (objects : List InternalDrsObject) → IsSorted object_before objects → IsOrdered objects
IsSorted-IsOrdered [] h = tt
IsSorted-IsOrdered (a ∷ []) h = tt
IsSorted-IsOrdered (a ∷ b ∷ objects) h =
    (object_before-Precedes a b h.0, IsSorted-IsOrdered (b ∷ objects) h.1)

-- The sorted objects are the given ones, each as often, and come by their paths in the order of the code
-- points, with the ids in that order where two have one path.
pub sort_drs_objects-IsOrdered :
    (objects : List InternalDrsObject)
    → IsOrdered (sort_drs_objects objects) × Perm (sort_drs_objects objects) objects
unfolding sort_drs_objects
sort_drs_objects-IsOrdered objects = (
  IsSorted-IsOrdered _ (sort-IsSorted object_before object_before_asym objects),
  sort-perm object_before objects,
)
