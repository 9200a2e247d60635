-- ===== src/Compound/Create/Spares.antt =====
-- What the creation of a compound object leaves alone.
use irods_go_drs.Base.{◌≡◌, refl, ◌∙◌, false, List, [], ◌∷◌, inl, inr, Bool-cases}
use irods_go_drs.Base.{All, is_nil}
use irods_go_drs.Base.Exec.{Result, ok, err, pure, reads, continue, ◌>>=◌}
use irods_go_drs.Text.{Text, codes, ◌==◌, trim_space}
use irods_go_drs.Irods.Interface.{Client, Error}
use irods_go_drs.Irods.Actions.{call}
use irods_go_drs.Irods.Frame.{IsLocal, Same, Spares, pure-Spares, bind-Spares, seq-Spares}
use irods_go_drs.Metadata.Attributes.{drs_id_avu_attrib, drs_avu_compound_manifest_attrib}
use irods_go_drs.Metadata.Lookup.{drs_id_from_metadata}
use irods_go_drs.Registry.Guid.{format_guid}
use irods_go_drs.Registry.Create.{create_drs_object_from_data_object}
use irods_go_drs.Registry.Complete.{ensure_data_object_drs_completeness}
use irods_go_drs.Registry.Upsert.{upsert_drs_metadata}
use irods_go_drs.Registry.Spares.{
  if-Spares, random-Spares, create-Spares, ensure_completeness-Spares, upsert-Spares,
}
use irods_go_drs.Compound.Tree.{Node, entry_of, metadata_of}
use irods_go_drs.Compound.Preflight.{Ignores}
use irods_go_drs.Compound.Included.{compound_creation_data_nodes}
use irods_go_drs.Compound.Create.{
  IgnoreLibrary, NodeError, is_panic, after_node, create_node, create_nodes, mark_root, marked,
  write_compound, check_tree, root_id, create_from_tree, read_compound_ignores,
}

module _ (C : Client) (L : IsLocal C) (q : Text) where
  -- The node's path is not this one, and is a path that the client leaves as it is.
  abbrev pub IsElsewhere : Node → Type 0
  IsElsewhere n =
      (q == (entry_of n).path ≡ false)
      × (C.correct_path (trim_space (entry_of n).path) ≡ (entry_of n).path)

  create_node-Spares : (n : Node) → IsElsewhere n → Spares C q (create_node C n)
  unfolding create_node
  create_node-Spares n h =
      if-Spares C L q (is_nil (drs_id_from_metadata (metadata_of n))) _
        (ensure_data_object_drs_completeness C (entry_of n).path)
        (seq-Spares C q (create_drs_object_from_data_object C (entry_of n).path [] [] [])
          (ensure_data_object_drs_completeness C (entry_of n).path)
          (create-Spares C L q (entry_of n).path [] [] [] (rw h.1 h.0)) complete)
        complete
    where
      complete : Spares C q (ensure_data_object_drs_completeness C (entry_of n).path)
      complete = ensure_completeness-Spares C L q (entry_of n).path h.0

  create_nodes-Same :
      (ns : List Node) (s : C.State) → All IsElsewhere ns → Same C q s (create_nodes C ns s).1
  unfolding create_nodes
  create_nodes-Same [] s h = λ x. refl
  create_nodes-Same (n ∷ ns) s h =
      after_node-Same (entry_of n).path (create_node C n s).0 (create_node C n s).1
        (create_nodes C ns (create_node C n s).1) ((create_node-Spares n h.0).same s)
        (create_nodes-Same ns (create_node C n s).1 h.1)
    where
      after_node-Same :
          (path : Text) (r : Result Error (Unit {0})) (t : C.State)
          (rest : Result Error (List NodeError) × C.State)
          → Same C q s t
          → Same C q t rest.1
          → Same C q s (after_node C path r t rest).1
      after_node-Same path (ok u) t rest a b x = b x ∙ a x
      after_node-Same path (err e) t rest a b x = elim (Bool-cases (is_panic e)) [
        | inl panic ↦ rw panic (a x)
        | inr other ↦ rw other (b x ∙ a x)
      ]

  module _ (root : Text) (elsewhere : q == root ≡ false) where
    mark_root-Same :
        (drs_id : Text) (errors : List NodeError) (s : C.State)
        → Same C q s (mark_root C root drs_id (errors, s)).1
    unfolding mark_root
    mark_root-Same drs_id (e ∷ errors) s x = refl
    mark_root-Same drs_id [] s x =
        (upsert-Spares C L q root elsewhere drs_avu_compound_manifest_attrib (codes "true")).same
          (upsert_drs_metadata C root drs_id_avu_attrib drs_id s).1 x
        ∙ (upsert-Spares C L q root elsewhere drs_id_avu_attrib drs_id).same s x

    marked-Same :
        (drs_id : Text) (errors : Result Error (List NodeError)) (s : C.State)
        → Same C q s (marked C root drs_id (errors, s)).1
    marked-Same drs_id (err panic) s x = refl
    marked-Same drs_id (ok errors) s x = mark_root-Same drs_id errors s x

    write_compound-Spares :
        (drs_id : Text) (ns : List Node)
        → All IsElsewhere ns
        → Spares C q (write_compound C root drs_id ns)
    unfolding write_compound
    write_compound-Spares drs_id ns h = record {
      same = λ s x.
          marked-Same drs_id (create_nodes C ns s).0 (create_nodes C ns s).1 x
          ∙ create_nodes-Same ns s h x;
    }

    root_id-Spares : (tree : Node) → Spares C q (root_id C tree)
    unfolding root_id
    root_id-Spares tree =
        if-Spares C L q (is_nil (drs_id_from_metadata (metadata_of tree))) _ _
          (bind-Spares C q (call C C.random_bytes) (λ bytes. pure (format_guid bytes))
            (random-Spares C L q) (λ bytes. pure-Spares C q (format_guid bytes)))
          (pure-Spares C q (drs_id_from_metadata (metadata_of tree)))

    -- The state in which the creation reads the rules.
    abbrev pub with_id_drawn : Node → C.State → C.State
    with_id_drawn tree s = (root_id C tree s).1

    of_rules-Same :
        (tree : Node) (drs_id : Text) (t : C.State) (found : Result Error Ignores)
        → ((rules : Ignores)
            → found ≡ ok rules
            → All IsElsewhere (compound_creation_data_nodes root rules tree))
        → Same C q t
            (continue found
              (λ rules. write_compound C root drs_id (compound_creation_data_nodes root rules tree))
              t).1
    of_rules-Same tree drs_id t (err e) h x = refl
    of_rules-Same tree drs_id t (ok rules) h x =
        (write_compound-Spares drs_id (compound_creation_data_nodes root rules tree)
            (h rules refl)).same
          t x

    -- The creation of a compound object from its tree changes, whether it succeeds or fails, no AVU of a
    -- path that is neither the root nor a data object that it works on by the rules which it reads, if
    -- the client leaves the paths of those as they are.
    pub create_from_tree-Spares :
        (lib : IgnoreLibrary C) (tree : Node) (s : C.State)
        → ((rules : Ignores)
            → read_compound_ignores C lib root (with_id_drawn tree s) ≡ ok rules
            → All IsElsewhere (compound_creation_data_nodes root rules tree))
        → Same C q s (create_from_tree C lib root tree s).1
    unfolding create_from_tree
    create_from_tree-Spares lib tree s h = of_checks (check_tree C root tree)
      where
        of_id :
            (r : Result Error Text)
            → Same C q s
                (continue r
                  (λ drs_id. reads (read_compound_ignores C lib root) >>= λ rules.
                    write_compound C root drs_id (compound_creation_data_nodes root rules tree))
                  (with_id_drawn tree s)).1
        of_id (err e) x = (root_id-Spares tree).same s x
        of_id (ok drs_id) x =
            of_rules-Same tree drs_id (with_id_drawn tree s)
              (read_compound_ignores C lib root (with_id_drawn tree s)) h x
            ∙ (root_id-Spares tree).same s x

        of_checks :
            (r : Result Error (Unit {0}))
            → Same C q s
                (continue r
                  (λ u. root_id C tree >>= λ drs_id.
                    reads (read_compound_ignores C lib root) >>= λ rules.
                    write_compound C root drs_id (compound_creation_data_nodes root rules tree))
                  s).1
        of_checks (err e) x = refl
        of_checks (ok u) x = of_id (root_id C tree s).0 x
