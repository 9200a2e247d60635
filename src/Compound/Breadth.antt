-- ===== src/Compound/Breadth.antt =====
-- The queue of `collectIncludedNodes` visits every node once.
use irods_go_drs.Base.{
  ℕ, zero, suc, ◌+◌, ◌≤◌, ◌≡◌, refl, ◌∙◌, ap, subst, Bool, true, false, Option, List, [], ◌∷◌, ◌++◌,
}
use irods_go_drs.Base.{arith, if◌then◌else◌}
use mathlib.Core.List.{Perm, perm_append_comm, append_assoc, append-nil}
use mathlib.Core.List.Perm
use irods_go_drs.Text.{Text}
use irods_go_drs.Model.{Avu, Entry}
use irods_go_drs.Compound.Tree.{
  Node, node, Nodes, end, also, to_list, is_default_excluded_compound_entry,
}
use irods_go_drs.Compound.Preflight.{Ignores, is_left_out}
use irods_go_drs.Compound.Included.{size, size_of, collect_queue, collect_included_nodes}

module _ (root_path : Text) (ignores : Ignores) where
  -- The nodes in depth-first order: a control file is left out with all below it, and a node that
  -- the rules leave out alone.
  unfoldable mutual
    pub included : Node → List Node
    included (node e metas children) =
        let rest = included_in children in
        if is_default_excluded_compound_entry e
        then []
        else if is_left_out root_path ignores e
        then rest
        else node e metas children ∷ rest

    pub included_in : Nodes → List Node
    included_in end = []
    included_in (also n ns) = included n ++ included_in ns

  included_all : List Node → List Node
  included_all [] = []
  included_all (n ∷ ns) = included n ++ included_all ns

  included_all-append :
      (ns ms : List Node) → included_all (ns ++ ms) ≡ included_all ns ++ included_all ms
  unfolding included_all
  included_all-append [] ms = refl
  included_all-append (n ∷ ns) ms = rw (included_all-append ns ms, append_assoc)

  included_all-to_list : (ns : Nodes) → included_all (to_list ns) ≡ included_in ns
  unfolding included_all included
  included_all-to_list end = refl
  included_all-to_list (also n ns) = ap (λ l. included n ++ l) (included_all-to_list ns)

  queue_size : List Node → ℕ
  queue_size [] = 0
  queue_size (n ∷ ns) = size n + queue_size ns

  queue_size-append :
      (ns : List Node) (ms : Nodes) → queue_size (ns ++ to_list ms) ≡ queue_size ns + size_of ms
  unfolding queue_size size
  queue_size-append [] end = omega arith
  queue_size-append [] (also m ms) = omega (arith, queue_size-append [] ms)
  queue_size-append (n ∷ ns) ms = omega (arith, queue_size-append ns ms)

  -- Moving the children behind the queue changes the order alone.
  queue_step :
      (queue : List Node) (children : Nodes) (found : List Node)
      → Perm found (included_all (queue ++ to_list children))
      → Perm found (included_in children ++ included_all queue)
  queue_step queue children found p =
      Perm.trans
        (subst (Perm found)
          (included_all-append queue (to_list children)
            ∙ ap (λ l. included_all queue ++ l) (included_all-to_list children))
          p)
        (perm_append_comm (included_all queue) (included_in children))

  -- The case of one node, by the two tests on its entry.
  queue_node :
      (fuel : ℕ) (e : Entry) (metas : List (Option Avu)) (children : Nodes) (queue : List Node)
      (control left_out : Bool)
      → is_default_excluded_compound_entry e ≡ control
      → is_left_out root_path ignores e ≡ left_out
      → Perm (collect_queue root_path ignores fuel queue) (included_all queue)
      → Perm
          (collect_queue root_path ignores fuel (queue ++ to_list children))
          (included_in children ++ included_all queue)
      → Perm
          (collect_queue root_path ignores (suc fuel) (node e metas children ∷ queue))
          (included_all (node e metas children ∷ queue))
  unfolding collect_queue included_all included
  queue_node fuel e metas children queue true left_out x l p q = rw x p
  queue_node fuel e metas children queue false true x l p q = rw (x, l) q
  queue_node fuel e metas children queue false false x l p q =
      rw (x, l) (Perm.cons (node e metas children) q)

  queue_perm :
      (fuel : ℕ) (queue : List Node)
      → queue_size queue ≤ fuel
      → Perm (collect_queue root_path ignores fuel queue) (included_all queue)
  unfolding queue_size size
  queue_perm zero [] k = unfold collect_queue included_all in Perm.refl _
  queue_perm zero (node e m c ∷ queue) k = absurd (omega arith)
  queue_perm (suc fuel) [] k = unfold collect_queue included_all in Perm.refl _
  queue_perm (suc fuel) (node e metas children ∷ queue) k =
      queue_node fuel e metas children queue _ _ refl refl (queue_perm fuel queue (omega arith)) (
        queue_step queue children _ (
          queue_perm fuel (queue ++ to_list children)
            (omega (arith, queue_size-append queue children))))

  -- The nodes that a creation collects breadth first are those of the depth-first order, each as
  -- often as it stands there; the loop's fuel is enough for every tree.
  pub collect_included_nodes-perm :
      (root : Node) → Perm (collect_included_nodes root_path ignores root) (included root)
  unfolding collect_included_nodes queue_size included_all
  collect_included_nodes-perm root =
      subst (Perm (collect_queue root_path ignores (suc (size root)) (root ∷ [])))
        (append-nil (included root)) (queue_perm (suc (size root)) (root ∷ []) (omega arith))
