-- ===== src/Tests/Memory.antt =====
-- A client over a list of AVUs with their paths, which shows that the assumptions on a client can be
-- met.
use irods_go_drs.Base.{ℕ, ◌≡◌, refl, false, ◌&&◌, not, Option, none, some, List, [], ◌∷◌}
use irods_go_drs.Base.{arith, if◌then◌else◌}
use irods_go_drs.Base.Exec.{Result, ok, err}
use irods_go_drs.Text.{Text, codes, ◌==◌, ==_iff}
use irods_go_drs.Model.{Avu, Entry}
use irods_go_drs.Irods.Interface.{Client, ClientError, not_found, unsupported}
use irods_go_drs.Irods.Frame.{IsLocal}
use irods_go_drs.Irods.Stored.{avu_eq, avu_eq_iff, contains, stored, IsLawful}

abbrev pub Rows : Type 0
Rows = List (Text × Avu)

unfoldable pub rows_of : Text → Rows → List (Option Avu)
rows_of p [] = []
rows_of p (r ∷ rs) = let rest = rows_of p rs in if p == r.0 then some r.1 ∷ rest else rest

unfoldable pub remove_row : Text → Avu → Rows → Rows
remove_row p m [] = []
remove_row p m (r ∷ rs) =
    let rest = remove_row p m rs in if p == r.0 && avu_eq r.1 m then rest else r ∷ rest

abbrev pub data_object : Text → Text → Entry
data_object path name = record {
  path = path;
  name = name;
  is_dir = false;
  size = 12;
  create_time = 100;
  modify_time = 200;
  replicas = [];
}

-- There is one data object, `/z/home/a.txt`.
unfoldable pub found_entry : Text → Result ClientError (Option Entry)
found_entry p =
    if p == codes "/z/home/a.txt"
    then ok (some (data_object (codes "/z/home/a.txt") (codes "a.txt")))
    else err not_found

-- `/z/home` holds it, beside a nil entry.
unfoldable pub children : Text → List (Option Entry)
children p =
    if p == codes "/z/home"
    then none ∷ some (data_object (codes "/z/home/a.txt") (codes "a.txt")) ∷ []
    else []

abbrev pub bytes : List ℕ
bytes = 1 ∷ 2 ∷ 3 ∷ 4 ∷ 5 ∷ 6 ∷ 7 ∷ 8 ∷ 9 ∷ 10 ∷ 11 ∷ 12 ∷ 13 ∷ 14 ∷ 15 ∷ 16 ∷ []

abbrev pub memory : Client
memory = record {
  State = Rows;
  stat_file = λ p s. found_entry p;
  stat = none;
  list = λ p s. ok (children p);
  list_metadata = λ p s. ok (rows_of p s);
  add_metadata = λ p m s. (ok tt, (p, m) ∷ s);
  delete_metadata_by_avu = λ p m s. (ok tt, remove_row p m s);
  account = λ s. none;
  query = none;
  ensure_checksum = unsupported;
  all_replicas = unsupported;
  correct_path = λ p. p;
  path_zone = λ p. some (codes "z");
  random_bytes = λ s. (ok bytes, s);
  media_type_by_extension = λ e. codes "text/plain";
}

contains-rows_of_remove :
    (p q : Text) (m x : Avu) (s : Rows)
    → contains x (rows_of q (remove_row p m s))
      ≡ (contains x (rows_of q s) && not (q == p && avu_eq x m))
unfolding rows_of remove_row contains
contains-rows_of_remove p q m x [] = refl
contains-rows_of_remove p q m x (r ∷ rs) = ground (
  arith,
  ==_iff p r.0,
  ==_iff q r.0,
  ==_iff q p,
  avu_eq_iff r.1 m,
  avu_eq_iff x m,
  avu_eq_iff x r.1,
  contains-rows_of_remove p q m x rs,
)

pub memory-IsLawful : IsLawful memory
unfolding stored contains rows_of
memory-IsLawful = record {
  stored-add = λ p q m x s h. ground arith;
  stored-delete = λ p q m x s h. contains-rows_of_remove p q m x s;
  stored-random = λ q x s. refl;
  stored-ensure = λ p q x s. refl;
}

pub memory-IsLocal : IsLocal memory
unfolding stored contains rows_of
memory-IsLocal = record {
  lawful = memory-IsLawful;
  add_elsewhere = λ p q m x s h. ground arith;
  delete_elsewhere = λ p q m x s h. ground (arith, contains-rows_of_remove p q m x s);
}
