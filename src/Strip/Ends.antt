-- ===== src/Strip/Ends.antt =====
-- The recursion of a strip ends where the collections of the client do.
use irods_go_drs.Base.{
  ℕ, zero, suc, ◌<◌, ◌≡◌, ◌≢◌, refl, Bool, true, false, Option, none, some, List, [], ◌∷◌,
}
use irods_go_drs.Base.{arith, is_nil, inl, inr, Bool-cases, length, filter}
use irods_go_drs.Base.Exec.{Result, ok, err}
use irods_go_drs.Text.{Text, trim_space}
use irods_go_drs.Model.{Avu, Entry}
use irods_go_drs.Irods.Interface.{Client, ClientError, Error}
use irods_go_drs.Irods.Depth.{AllBelow, AllBelow-le, IsDepth}
use irods_go_drs.Irods.Deletion.{delete_matching}
use irods_go_drs.Metadata.Attributes.{is_drs_metadata}
use irods_go_drs.Strip.{
  StripDrsResult, Visit, then_visit, strip_children, strip_listing, strip_below, strip_metas,
  strip_drs_semantics_recursive,
}

module _ (C : Client) where
  module _ (depth : Text → ℕ) (is_depth : IsDepth C depth) where
    module _ (n : ℕ) (visit : Text → Bool → Visit C)
        (ends : (p : Text) (d : Bool) (result : StripDrsResult) (s : C.State)
          → depth p < n
          → visit p d result s ≢ none) where
      then_visit_total :
          (r : Option (Result Error StripDrsResult × C.State)) (next : Visit C)
          → r ≢ none
          → ((result : StripDrsResult) (t : C.State) → next result t ≢ none)
          → then_visit C r next ≢ none
      then_visit_total none next h k = absurd (h refl)
      then_visit_total (some (ok result, t)) next h k = k result t
      then_visit_total (some (err e, t)) next h k = ground arith

      strip_children_total :
          (children : List (Option Entry)) (result : StripDrsResult) (s : C.State)
          → AllBelow depth n children
          → strip_children C visit children result s ≢ none
      unfolding strip_children
      strip_children_total [] result s b = ground arith
      strip_children_total (none ∷ children) result s b = strip_children_total children result s b
      strip_children_total (some child ∷ children) result s b =
          elim (Bool-cases (is_nil (trim_space child.path))) [
            | inl blank ↦ rw blank (strip_children_total children result s b.1)
            | inr named ↦ rw named (
                then_visit_total (visit child.path child.is_dir result s)
                  (strip_children C visit children) (ends child.path child.is_dir result s b.0)
                  (λ r t. strip_children_total children r t b.1))
          ]

      strip_listing_total :
          (listing : Result ClientError (List (Option Entry))) (result : StripDrsResult)
          (s : C.State)
          → ((children : List (Option Entry)) → listing ≡ ok children → AllBelow depth n children)
          → strip_listing C visit listing result s ≢ none
      strip_listing_total (ok children) result s b =
          strip_children_total children result s (b children refl)
      strip_listing_total (err e) result s b = ground arith

      strip_metas_total :
          (path : Text) (is_dir : Bool) (listing : Result ClientError (List (Option Avu)))
          (result : StripDrsResult) (s : C.State)
          → ((t : C.State) (children : List (Option Entry))
              → C.list path t ≡ ok children
              → AllBelow depth n children)
          → strip_metas C visit path is_dir listing result s ≢ none
      strip_metas_total path is_dir (err e) result s b = ground arith
      strip_metas_total path is_dir (ok metas) result s b =
          below is_dir (delete_matching C is_drs_metadata path metas s).0
            (delete_matching C is_drs_metadata path metas s).1
        where
          below :
              (d : Bool) (done : Result Error (Unit {0})) (t : C.State)
              → strip_below C visit path d (length (filter is_drs_metadata metas)) result (done, t)
                ≢ none
          below false (ok tt) t = ground arith
          below true (ok tt) t = strip_listing_total (C.list path t) _ t (b t)
          below d (err e) t = ground arith

    -- If the entries of every listing measure less than the collection, then fuel above the measure of a
    -- path is enough: a strip of the path returns a result or an error.
    pub strip_drs_semantics_recursive_total :
        (fuel : ℕ) (path : Text) (is_dir : Bool) (result : StripDrsResult) (s : C.State)
        → depth path < fuel
        → strip_drs_semantics_recursive C fuel path is_dir result s ≢ none
    unfolding strip_drs_semantics_recursive
    strip_drs_semantics_recursive_total zero path is_dir result s k = absurd (omega arith)
    strip_drs_semantics_recursive_total (suc fuel) path is_dir result s k =
        strip_metas_total fuel (strip_drs_semantics_recursive C fuel)
          (strip_drs_semantics_recursive_total fuel) path is_dir (C.list_metadata path s) _ s
          (λ t children l.
            AllBelow-le depth (depth path) fuel children (omega arith) (is_depth path t children l))
