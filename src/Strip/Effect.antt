-- ===== src/Strip/Effect.antt =====
-- What a strip leaves behind.
use irods_go_drs.Base.{ℕ, zero, suc, ◌≡◌, refl, ◌∙◌, Bool, true, false}
use irods_go_drs.Base.{Option, none, some, List, [], ◌∷◌, arith, length, filter, is_nil, inl, inr}
use irods_go_drs.Base.{Bool-cases}
use irods_go_drs.Base.Exec.{Result, ok, err}
use irods_go_drs.Text.{Text, ==_refl, trim_space}
use irods_go_drs.Model.{Avu, Entry}
use irods_go_drs.Irods.Interface.{Client, ClientError, Error}
use irods_go_drs.Irods.Stored.{stored, stored_of_listing, IsLawful}
use irods_go_drs.Irods.Deletion.{delete_matching, stored-delete_matching}
use irods_go_drs.Metadata.Attributes.{is_drs_metadata}
use irods_go_drs.Strip.{
  StripDrsResult, Visit, then_visit, strip_children, strip_listing, strip_below, strip_metas,
  strip_drs_semantics_recursive,
}

module _ (C : Client) (L : IsLawful C) where
  -- Between the states no AVU was added, and none was removed that is not DRS metadata.
  abbrev pub OnlyStripped : C.State → C.State → Type 0
  OnlyStripped s t =
      (q : Text) (x : Avu)
      → (stored C q x s ≡ false → stored C q x t ≡ false)
        × (is_drs_metadata (some x) ≡ false → stored C q x t ≡ stored C q x s)

  abbrev pub Outcome : Type 0
  Outcome = Option (Result Error StripDrsResult × C.State)

  -- The path carries no DRS metadata.
  abbrev pub IsStripped : Text → C.State → Type 0
  IsStripped path t = (x : Avu) → is_drs_metadata (some x) ≡ true → stored C path x t ≡ false

  abbrev pub AfterSuccess : (C.State → Type 0) → Outcome → Type 0
  AfterSuccess P none = Unit
  AfterSuccess P (some (ok result, t)) = P t
  AfterSuccess P (some (err e, t)) = Unit

  OnlyStripped-refl : (s : C.State) → OnlyStripped s s
  OnlyStripped-refl s q x = (λ h. h, λ h. refl)

  OnlyStripped-trans : (s t u : C.State) → OnlyStripped s t → OnlyStripped t u → OnlyStripped s u
  OnlyStripped-trans s t u a b q x = (λ h. (b q x).0 ((a q x).0 h), λ h. (b q x).1 h ∙ (a q x).1 h)

  AfterSuccess-trans :
      (s t : C.State) (r : Outcome)
      → OnlyStripped s t
      → AfterSuccess (OnlyStripped t) r
      → AfterSuccess (OnlyStripped s) r
  AfterSuccess-trans s t none a v = tt
  AfterSuccess-trans s t (some (ok result, u)) a v = OnlyStripped-trans s t u a v
  AfterSuccess-trans s t (some (err e, u)) a v = tt

  module _ (visit : Text → Bool → Visit C)
      (keeps : (p : Text) (d : Bool) (result : StripDrsResult) (s : C.State)
        → AfterSuccess (OnlyStripped s) (visit p d result s)) where
    then_visit-OnlyStripped :
        (s : C.State) (r : Outcome) (next : Visit C)
        → AfterSuccess (OnlyStripped s) r
        → ((result : StripDrsResult) (t : C.State) → AfterSuccess (OnlyStripped t) (next result t))
        → AfterSuccess (OnlyStripped s) (then_visit C r next)
    then_visit-OnlyStripped s none next v n = tt
    then_visit-OnlyStripped s (some (ok result, t)) next v n =
        AfterSuccess-trans s t (next result t) v (n result t)
    then_visit-OnlyStripped s (some (err e, t)) next v n = tt

    strip_children-OnlyStripped :
        (children : List (Option Entry)) (result : StripDrsResult) (s : C.State)
        → AfterSuccess (OnlyStripped s) (strip_children C visit children result s)
    unfolding strip_children
    strip_children-OnlyStripped [] result s = OnlyStripped-refl s
    strip_children-OnlyStripped (none ∷ children) result s =
        strip_children-OnlyStripped children result s
    strip_children-OnlyStripped (some child ∷ children) result s =
        elim (Bool-cases (is_nil (trim_space child.path))) [
          | inl blank ↦ rw blank (strip_children-OnlyStripped children result s)
          | inr named ↦ rw named (
              then_visit-OnlyStripped s (visit child.path child.is_dir result s)
                (strip_children C visit children) (keeps child.path child.is_dir result s)
                (λ r t. strip_children-OnlyStripped children r t))
        ]

    strip_listing-OnlyStripped :
        (listing : Result ClientError (List (Option Entry))) (result : StripDrsResult) (s : C.State)
        → AfterSuccess (OnlyStripped s) (strip_listing C visit listing result s)
    strip_listing-OnlyStripped (ok children) result s =
        strip_children-OnlyStripped children result s
    strip_listing-OnlyStripped (err e) result s = tt

    -- A state after the deletions of the path; what follows keeps it so.
    abbrev Deleted : Text → C.State → C.State → Type 0
    Deleted path s t = OnlyStripped s t × IsStripped path t

    IsStripped-kept :
        (path : Text) (t u : C.State) → IsStripped path t → OnlyStripped t u → IsStripped path u
    IsStripped-kept path t u h k x d = (k path x).0 (h x d)

    AfterSuccess-Deleted :
        (path : Text) (s t : C.State) (r : Outcome)
        → Deleted path s t
        → AfterSuccess (OnlyStripped t) r
        → AfterSuccess (Deleted path s) r
    AfterSuccess-Deleted path s t none a v = tt
    AfterSuccess-Deleted path s t (some (ok result, u)) a v =
        (OnlyStripped-trans s t u a.0 v, IsStripped-kept path t u a.1 v)
    AfterSuccess-Deleted path s t (some (err e, u)) a v = tt

    strip_below-Deleted :
        (path : Text) (is_dir : Bool) (removed : ℕ) (result : StripDrsResult) (s : C.State)
        (done : Result Error (Unit {0})) (t : C.State)
        → (done ≡ ok tt → Deleted path s t)
        → AfterSuccess (Deleted path s) (strip_below C visit path is_dir removed result (done, t))
    strip_below-Deleted path false removed result s (ok tt) t h = h refl
    strip_below-Deleted path true removed result s (ok tt) t h =
        AfterSuccess-Deleted path s t _ (h refl) (strip_listing-OnlyStripped (C.list path t) _ t)
    strip_below-Deleted path is_dir removed result s (err e) t h = tt

    delete-Deleted :
        (path : Text) (metas : List (Option Avu)) (s : C.State)
        → C.list_metadata path s ≡ ok metas
        → (delete_matching C is_drs_metadata path metas s).0 ≡ ok tt
        → Deleted path s (delete_matching C is_drs_metadata path metas s).1
    delete-Deleted path metas s l h = (
      λ q x. (
        λ n. ground (arith, stored-delete_matching C is_drs_metadata path L metas q x s),
        λ n. ground (arith, stored-delete_matching C is_drs_metadata path L metas q x s),
      ),
      λ x d. ground (
        arith,
        stored-delete_matching C is_drs_metadata path L metas path x s,
        stored_of_listing C path metas x s l,
        ==_refl path,
      ),
    )

    strip_metas-Deleted :
        (path : Text) (is_dir : Bool) (listing : Result ClientError (List (Option Avu)))
        (result : StripDrsResult) (s : C.State)
        → C.list_metadata path s ≡ listing
        → AfterSuccess (Deleted path s) (strip_metas C visit path is_dir listing result s)
    strip_metas-Deleted path is_dir (err e) result s l = tt
    strip_metas-Deleted path is_dir (ok metas) result s l =
        strip_below-Deleted path is_dir (length (filter is_drs_metadata metas)) result s
          (delete_matching C is_drs_metadata path metas s).0
          (delete_matching C is_drs_metadata path metas s).1 (delete-Deleted path metas s l)

  AfterSuccess-map :
      {P Q : C.State → Type 0} (r : Outcome)
      → ((t : C.State) → P t → Q t)
      → AfterSuccess P r
      → AfterSuccess Q r
  AfterSuccess-map none f v = tt
  AfterSuccess-map (some (ok result, t)) f v = f t v
  AfterSuccess-map (some (err e, t)) f v = tt

  strip-OnlyStripped :
      (fuel : ℕ) (path : Text) (is_dir : Bool) (result : StripDrsResult) (s : C.State)
      → AfterSuccess (OnlyStripped s) (strip_drs_semantics_recursive C fuel path is_dir result s)
  unfolding strip_drs_semantics_recursive
  strip-OnlyStripped zero path is_dir result s = tt
  strip-OnlyStripped (suc fuel) path is_dir result s =
      AfterSuccess-map {P = λ t. OnlyStripped s t × IsStripped path t} {Q = OnlyStripped s} _
        (λ t v. v.0)
        (strip_metas-Deleted (strip_drs_semantics_recursive C fuel) (strip-OnlyStripped fuel) path
          is_dir (C.list_metadata path s) _ s refl)

  -- A strip of a path, with all below it, that succeeds leaves the path with no
  -- DRS metadata; it adds no AVU to any path, and what it removes, on that path or elsewhere, is DRS
  -- metadata.
  pub strip_drs_semantics_recursive_lem :
      (fuel : ℕ) (path : Text) (is_dir : Bool) (result : StripDrsResult) (s : C.State)
      → AfterSuccess
          (λ t. OnlyStripped s t × IsStripped path t)
          (strip_drs_semantics_recursive C fuel path is_dir result s)
  unfolding strip_drs_semantics_recursive
  strip_drs_semantics_recursive_lem zero path is_dir result s = tt
  strip_drs_semantics_recursive_lem (suc fuel) path is_dir result s =
      strip_metas-Deleted (strip_drs_semantics_recursive C fuel) (strip-OnlyStripped fuel) path
        is_dir (C.list_metadata path s) _ s refl
