-- ===== src/Irods/Frame.antt =====
-- Actions that leave the AVUs of a path alone, whether they succeed or fail.
use irods_go_drs.Base.{
  ◌≡◌, refl, ◌∙◌, Bool, false, Option, none, some, List, [], ◌∷◌, inl, inr, Bool-cases,
}
use irods_go_drs.Base.Exec.{Result, ok, err, pure, raise, reads, continue, ◌>>=◌, ◌>>◌}
use irods_go_drs.Text.{Text, ◌==◌}
use irods_go_drs.Model.{Avu}
use irods_go_drs.Irods.Interface.{Client, Error}
use irods_go_drs.Irods.Stored.{stored, IsLawful}
use irods_go_drs.Irods.Actions.{Action, call}
use irods_go_drs.Irods.Deletion.{delete_matching}

-- A call on one path changes no AVU of another one, not even where it fails.
pub record IsLocal (C : Client) : Type 0 where
  pub lawful : IsLawful C
  pub add_elsewhere :
      (p q : Text) (m x : Avu) (s : C.State)
      → q == p ≡ false
      → stored C q x (C.add_metadata p m s).1 ≡ stored C q x s
  pub delete_elsewhere :
      (p q : Text) (m x : Avu) (s : C.State)
      → q == p ≡ false
      → stored C q x (C.delete_metadata_by_avu p m s).1 ≡ stored C q x s

module _ (C : Client) (q : Text) where
  abbrev pub Same : C.State → C.State → Type 0
  Same s t = (x : Avu) → stored C q x t ≡ stored C q x s

  pub record Spares {A : Type 0} (m : Action C A) : Type 0 where
    pub same : (s : C.State) → Same s (m s).1

  pub pure-Spares : {A : Type 0} (a : A) → Spares (pure a)
  pure-Spares a = record { same = λ s x. refl }

  pub raise-Spares : (A : Type 0) (e : Error) → Spares {A = A} (raise e)
  raise-Spares A e = record { same = λ s x. refl }

  pub reads-Spares : {A : Type 0} (f : C.State → Result Error A) → Spares (reads f)
  reads-Spares f = record { same = λ s x. refl }

  continue-Spares :
      {A B : Type 0} (s : C.State) (r : Result Error A) (t : C.State) (f : A → Action C B)
      → Same s t
      → ((a : A) → Spares (f a))
      → Same s (continue r f t).1
  continue-Spares s (ok a) t f h k x = (k a).same t x ∙ h x
  continue-Spares s (err e) t f h k x = h x

  pub bind-Spares :
      {A B : Type 0} (m : Action C A) (f : A → Action C B)
      → Spares m
      → ((a : A) → Spares (f a))
      → Spares (m >>= f)
  bind-Spares m f h k = record { same = λ s. continue-Spares s (m s).0 (m s).1 f (h.same s) k }

  pub seq-Spares :
      {A B : Type 0} (m : Action C A) (n : Action C B) → Spares m → Spares n → Spares (m >> n)
  seq-Spares m n h k = bind-Spares m (λ _. n) h (λ _. k)

  module _ (L : IsLocal C) (p : Text) (elsewhere : q == p ≡ false) where
    pub add-Spares : (m : Avu) → Spares (call C (C.add_metadata p m))
    add-Spares m = record { same = λ s x. L.add_elsewhere p q m x s elsewhere }

    pub delete-Spares : (m : Avu) → Spares (call C (C.delete_metadata_by_avu p m))
    delete-Spares m = record { same = λ s x. L.delete_elsewhere p q m x s elsewhere }

    pub delete_matching-Spares :
        (test : Option Avu → Bool) (metas : List (Option Avu))
        → Spares (delete_matching C test p metas)
    unfolding delete_matching
    delete_matching-Spares test [] = pure-Spares tt
    delete_matching-Spares test (none ∷ metas) = delete_matching-Spares test metas
    delete_matching-Spares test (some m ∷ metas) = elim (Bool-cases (test (some m))) [
      | inl chosen ↦ rw chosen (
          seq-Spares (call C (C.delete_metadata_by_avu p m)) (delete_matching C test p metas)
            (delete-Spares m) (delete_matching-Spares test metas))
      | inr kept ↦ rw kept (delete_matching-Spares test metas)
    ]
