-- ===== src/Irods/Stored.antt =====
-- Which AVUs a path carries, order and repetition forgotten, and what the client library documents
-- of the calls that change them.
use irods_go_drs.Base.{◌≡◌, Bool, true, false, ◌&&◌, ◌||◌, not, ◌↔◌, Option, none, some}
use irods_go_drs.Base.{List, [], ◌∷◌, arith}
use irods_go_drs.Base.Exec.{Result, ok, err, Exec}
use irods_go_drs.Text.{Text, ◌==◌, ==_iff}
use irods_go_drs.Model.{Avu, IrodsChecksum}
use irods_go_drs.Irods.Interface.{Client, Capability, by_method, by_connection, unsupported}

unfoldable pub avu_eq : Avu → Avu → Bool
unfolding ◌==◌
avu_eq a b = a.name == b.name && (a.value == b.value && a.units == b.units)

pub avu_eq_iff : (a b : Avu) → (avu_eq a b ≡ true) ↔ (a ≡ b)
unfolding avu_eq
avu_eq_iff a b =
    ground (arith, ==_iff a.name b.name, ==_iff a.value b.value, ==_iff a.units b.units)

unfoldable pub contains : Avu → List (Option Avu) → Bool
unfolding avu_eq
contains x [] = false
contains x (none ∷ metas) = contains x metas
contains x (some m ∷ metas) = avu_eq x m || contains x metas

abbrev pub listed : Avu → {E : Type 0} → Result E (List (Option Avu)) → Bool
listed x (ok metas) = contains x metas
listed x (err e) = false

-- The AVU is among those that the client lists for the path.
unfoldable pub stored : (C : Client) → Text → Avu → C.State → Bool
unfolding contains
stored C p x s = listed x (C.list_metadata p s)

pub stored_of_listing :
    (C : Client) (p : Text) (metas : List (Option Avu)) (x : Avu) (s : C.State)
    → C.list_metadata p s ≡ ok metas
    → stored C p x s ≡ contains x metas
unfolding stored
stored_of_listing C p metas x s h = rw h

-- The state after a call that may be there.
abbrev pub after_capability :
    {S A : Type 0} → Capability (Text → Exec S A (Option IrodsChecksum)) → Text → S → S
after_capability (by_method f) p s = (f p s).1
after_capability (by_connection f) p s = (f p s).1
after_capability unsupported p s = s

-- A call that succeeds changes the AVUs of its path by the one AVU that it names, and nothing else
-- that the service reads.
pub record IsLawful (C : Client) : Type 0 where
  pub stored-add :
      (p q : Text) (m x : Avu) (s : C.State)
      → (C.add_metadata p m s).0 ≡ ok tt
      → stored C q x (C.add_metadata p m s).1 ≡ (stored C q x s || (q == p && avu_eq x m))
  pub stored-delete :
      (p q : Text) (m x : Avu) (s : C.State)
      → (C.delete_metadata_by_avu p m s).0 ≡ ok tt
      → stored C q x (C.delete_metadata_by_avu p m s).1
        ≡ (stored C q x s && not (q == p && avu_eq x m))
  -- Drawing random bytes and registering a checksum leave the AVUs alone.
  pub stored-random :
      (q : Text) (x : Avu) (s : C.State) → stored C q x (C.random_bytes s).1 ≡ stored C q x s
  pub stored-ensure :
      (p q : Text) (x : Avu) (s : C.State)
      → stored C q x (after_capability C.ensure_checksum p s) ≡ stored C q x s
