-- ===== src/Listing/Window.antt =====
-- Pages as windows of the sorted listing: which objects they hold, that walking them gives the whole
-- listing, and where their arithmetic overflows.
use irods_go_drs.Base.{ℕ, suc, zero, ◌+◌, ◌-◌, ◌≤◌, ◌<◌, ◌≡◌, refl, ◌∙◌, ap, true}
use irods_go_drs.Base.{List, [], ◌∷◌, ◌++◌, arith, length, take, drop, ltb, if◌then◌else◌}
use irods_go_drs.Base.{take-append-drop, length-drop}
use irods_go_drs.Listing.Paging.{pos, int_bound, returned, fails, panics, DrsObjectPage, page_of}

module _ {A : Type 0} where
  take_all : (n : ℕ) (xs : List A) → length xs ≤ n → take n xs ≡ xs
  take_all zero [] h = refl
  take_all zero (x ∷ xs) h = absurd (omega arith)
  take_all (suc n) [] h = refl
  take_all (suc n) (x ∷ xs) h = ap (λ r. x ∷ r) (take_all n xs (omega arith))

  drop_all : (n : ℕ) (xs : List A) → length xs ≤ n → drop n xs ≡ []
  drop_all zero [] h = refl
  drop_all zero (x ∷ xs) h = absurd (omega arith)
  drop_all (suc n) [] h = refl
  drop_all (suc n) (x ∷ xs) h = drop_all n xs (omega arith)

  take_min : (n m : ℕ) (xs : List A) → length xs ≤ n → length xs ≤ m → take n xs ≡ take m xs
  take_min n m xs h k = cc (take_all n xs h, take_all m xs k)

  -- The page that the window stands for.
  abbrev pub window_page : List A → ℕ → ℕ → DrsObjectPage A
  window_page objects offset limit = record {
    objects = take limit (drop offset objects);
    offset = offset;
    limit = limit;
    total = length objects;
    total_known = true;
    has_more = ltb (offset + limit) (length objects);
  }

  -- For a positive limit and an offset whose sum is below 2^63, the call returns the page that holds
  -- the `limit` objects of the listing from `offset` on, or as many as there are, with the total, and
  -- with `has_more` exactly if objects follow the page.
  pub page_of-eq-window_page :
      (objects : List A) (offset l : ℕ)
      → offset + suc l < int_bound
      → page_of objects (pos offset) (pos (suc l)) ≡ returned (window_page objects offset (suc l))
  unfolding page_of
  page_of-eq-window_page objects offset l h = ground (
    arith,
    drop_all offset objects,
    length-drop offset objects,
    take_min (length objects - offset) (suc l) (drop offset objects),
  )

  -- An offset inside the listing and a positive limit whose sum is 2^63 or more make the call panic.
  pub page_of_overflow :
      (objects : List A) (offset l : ℕ)
      → offset < length objects
      → int_bound ≤ offset + suc l
      → page_of objects (pos offset) (pos (suc l)) ≡ panics
  unfolding page_of
  page_of_overflow objects offset l h k = ground arith

  drop-nil : (n : ℕ) → drop {A = A} n [] ≡ []
  drop-nil zero = refl
  drop-nil (suc n) = refl

  drop-drop : (o n : ℕ) (xs : List A) → drop n (drop o xs) ≡ drop (o + n) xs
  drop-drop zero n xs = ap (λ k. drop k xs) (omega arith)
  drop-drop (suc o) n [] = cc (drop-nil n, drop-nil (suc o + n))
  drop-drop (suc o) n (x ∷ xs) =
      drop-drop o n xs ∙ ap (λ k. drop k (x ∷ xs)) {x = suc (o + n)} (omega arith)

  -- A caller that asks for pages of the same limit, from `offset` on, until a page has no more; the
  -- number bounds the pages. A failed call ends the walk with nothing.
  pub walk : ℕ → List A → ℕ → ℕ → List A
  walk zero objects offset l = []
  walk (suc rounds) objects offset l =
      let rest = walk rounds objects (offset + suc l) l in
      elim (page_of objects (pos offset) (pos (suc l))) [
        | returned page ↦ if page.has_more then page.objects ++ rest else page.objects
        | fails e ↦ []
        | panics ↦ []
      ]

  -- Walking the pages returns what the listing holds from the offset on, each object once and in
  -- order, if enough rounds are given and the listing with one limit more stays below 2^63.
  pub walk-eq-drop :
      (rounds : ℕ) (objects : List A) (offset l : ℕ)
      → length objects + suc l < int_bound
      → length objects < offset + rounds
      → offset ≤ length objects
      → walk rounds objects offset l ≡ drop offset objects
  unfolding walk
  walk-eq-drop zero objects offset l h k b = absurd (omega arith)
  walk-eq-drop (suc rounds) objects offset l h k b = ground (
    arith,
    page_of-eq-window_page objects offset l,
    walk-eq-drop rounds objects (offset + suc l) l,
    drop-drop offset (suc l) objects,
    take-append-drop (suc l) (drop offset objects),
    take_all (suc l) (drop offset objects),
    length-drop offset objects,
  )
