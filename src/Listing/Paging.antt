-- ===== src/Listing/Paging.antt =====
-- The page window of `ListDrsObjectsUnderCollectionPage` and of `ListDrsObjects`, and that of
-- `ListDrsObjectsUnderCollectionPageFast`. A Go `int` is a signed 64-bit integer.
use irods_go_drs.Base.{ℕ, suc, zero, ◌+◌, ◌-◌, ◌^◌, Bool, true, false, ◌||◌}
use irods_go_drs.Base.{List, []}
use irods_go_drs.Base.{length, take, drop, ltb, leb, if◌then◌else◌}
use irods_go_drs.Irods.Interface.{Error, offset_negative, limit_not_positive}

-- `negsuc n` is -(n + 1).
pub data ℤ : Type 0 where
  pos : ℕ → ℤ
  negsuc : ℕ → ℤ

abbrev pub int_bound : ℕ
int_bound = 2 ^ 63

-- The sum of two `int`s that are not negative wraps to a negative one from 2^63 on.
unfoldable pub wrap_int : ℕ → ℤ
wrap_int n = if ltb n int_bound then pos n else negsuc (2 ^ 64 - 1 - n)

-- A call returns, fails with an error, or panics at a slice expression.
pub data Outcome {ℓ} (A : Type ℓ) : Type ℓ where
  returned : A → Outcome A
  fails : Error → Outcome A
  panics : Outcome A

pub record DrsObjectPage {ℓ} (A : Type ℓ) : Type ℓ where
  pub objects : List A
  pub offset : ℕ
  pub limit : ℕ
  pub total : ℕ
  pub total_known : Bool
  pub has_more : Bool

-- `if end > len(objects) { end = len(objects) }`
cut : ℕ → ℕ → ℕ
cut stop size = if ltb size stop then size else stop

module _ {ℓ} {A : Type ℓ} where
  -- `objects[offset:end]` with its `has_more`, where `end` was cut to the length.
  window_to : List A → ℕ → ℕ → ℕ → DrsObjectPage A
  window_to objects offset limit stop = record {
    objects = take (stop - offset) (drop offset objects);
    offset = offset;
    limit = limit;
    total = length objects;
    total_known = true;
    has_more = ltb stop (length objects);
  }

  -- The slice panics where its end lies before its start.
  window : List A → ℕ → ℕ → ℤ → Outcome (DrsObjectPage A)
  window objects offset limit (negsuc n) = panics
  window objects offset limit (pos stop) =
      if ltb (cut stop (length objects)) offset
      then panics
      else returned (window_to objects offset limit (cut stop (length objects)))

  empty_page : List A → ℕ → ℕ → DrsObjectPage A
  empty_page objects offset limit = record {
    objects = [];
    offset = offset;
    limit = limit;
    total = length objects;
    total_known = true;
    has_more = false;
  }

  -- The part after the listing. The guards come before it in the source; the listing does not depend
  -- on the window.
  unfoldable pub page_of : List A → ℤ → ℤ → Outcome (DrsObjectPage A)
  unfolding window window_to cut empty_page wrap_int
  page_of objects (negsuc n) limit = fails offset_negative
  page_of objects (pos offset) (negsuc n) = fails limit_not_positive
  page_of objects (pos offset) (pos zero) = fails limit_not_positive
  page_of objects (pos offset) (pos (suc l)) =
      if leb (length objects) offset
      then returned (empty_page objects offset (suc l))
      else window objects offset (suc l) (wrap_int (offset + suc l))

  -- The same part of `ListDrsObjectsUnderCollectionPageFast`, whose listing was bounded: the total
  -- is not known, and the query may have more.
  abbrev unknown_total : Bool → DrsObjectPage A → DrsObjectPage A
  unknown_total query_has_more page = record page {
    total = 0;
    total_known = false;
    has_more = query_has_more || page.has_more;
  }

  abbrev relabelled : Bool → Outcome (DrsObjectPage A) → Outcome (DrsObjectPage A)
  relabelled query_has_more (returned page) = returned (unknown_total query_has_more page)
  relabelled query_has_more (fails e) = fails e
  relabelled query_has_more panics = panics

  unfoldable pub page_of_fast : List A → Bool → ℤ → ℤ → Outcome (DrsObjectPage A)
  unfolding page_of
  page_of_fast objects query_has_more offset limit =
      relabelled query_has_more (page_of objects offset limit)
