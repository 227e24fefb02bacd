-- ===== src/Analyze/Distribution/Seen.antt =====
-- What the scan of the nodes finds.
use troubleshoot.Prelude.{
  String, ◌≡◌, refl, Bool, true, false, not, ◌&&◌, ◌||◌, List, [], ◌∷◌, Bool-cases, inl, inr, sym,
  ap, ◌∙◌,
}
use troubleshoot.Analyze.Distribution.{
  Provider, eks, same, Providers, set_provider, Node, Scan, Mark, label_marks, is_master_label,
  annotation_marks, node_marks, set_marks, scan_labels, scan_annotations, scan_nodes,
  parse_nodes_for_providers, start, drop_eks,
}
use troubleshoot.Analyze.Distribution.Evidence.{
  marked, some_element, shows, is_master, label_marks_lem, annotation_marks_lem, node_marks_lem,
  is_master_label_lem, some_element_same, cong_or, or_false,
}

or_assoc : (a b c : Bool) → ((a || b) || c) ≡ (a || (b || c))
or_assoc true b c = refl
or_assoc false b c = refl

set_provider-true :
    (q p : Provider) (found : Providers) → set_provider q true found p ≡ (found p || same q p)
set_provider-true q p found = elim (Bool-cases (same q p)) [
  | inl e ↦ rw e (or_true (found p))
  | inr e ↦ rw e (or_false (found p))
]
  where
    or_true : (a : Bool) → true ≡ (a || true)
    or_true true = refl
    or_true false = refl

-- A step that adds what it finds of the provider, and whether it met a master.
abbrev Adds : Provider → Scan → Scan → Bool → Bool → Type 0
Adds p s t found master =
    (t.found p ≡ (s.found p || found)) × (t.found_master ≡ (s.found_master || master))

Adds-none : (p : Provider) (s : Scan) → Adds p s s false false
Adds-none p s = (or_false (s.found p), or_false s.found_master)

Adds-both :
    (p : Provider) (s t u : Scan) (a b c d : Bool)
    → Adds p s t a c
    → Adds p t u b d
    → Adds p s u (a || b) (c || d)
Adds-both p s t u a b c d (f, m) (f', m') = (
  f' ∙ ap (λ x. x || b) f ∙ or_assoc (s.found p) a b,
  m' ∙ ap (λ x. x || d) m ∙ or_assoc s.found_master c d,
)

set_marks-Adds :
    (p : Provider) (ms : List Mark) (s : Scan) → Adds p s (set_marks ms s) (marked p ms) false
unfolding set_marks
set_marks-Adds p [] s = Adds-none p s
set_marks-Adds p (m ∷ ms) s =
    let t = record s { found = set_provider m.provider true s.found; string_provider = m.text } in
    Adds-both p s t (set_marks ms t) (same m.provider p) (marked p ms) false false
      (set_provider-true m.provider p s.found, or_false s.found_master) (set_marks-Adds p ms t)

scan_labels-Adds :
    (p : Provider) (ls : List (String × String)) (s : Scan)
    → Adds p s
        (scan_labels ls s)
        (some_element (λ l. marked p (label_marks l)) ls)
        (some_element is_master_label ls)
unfolding scan_labels
scan_labels-Adds p [] s = Adds-none p s
scan_labels-Adds p (l ∷ ls) s =
    let t = record s { found_master = s.found_master || is_master_label l } in
    let u = set_marks (label_marks l) t in
    let (found, master) = set_marks-Adds p (label_marks l) t in
    Adds-both p s u (scan_labels ls u) (marked p (label_marks l)) _ (is_master_label l) _
      (found, master ∙ sym (or_false (s.found_master || is_master_label l)))
      (scan_labels-Adds p ls u)

scan_annotations-Adds :
    (p : Provider) (ls : List (String × String)) (s : Scan)
    → Adds p s (scan_annotations ls s) (some_element (λ a. marked p (annotation_marks a)) ls) false
unfolding scan_annotations
scan_annotations-Adds p [] s = Adds-none p s
scan_annotations-Adds p (l ∷ ls) s =
    let u = set_marks (annotation_marks l) s in
    Adds-both p s u (scan_annotations ls u) (marked p (annotation_marks l)) _ false false
      (set_marks-Adds p (annotation_marks l) s) (scan_annotations-Adds p ls u)

scan_node-Adds :
    (p : Provider) (n : Node) (s : Scan)
    → Adds p s
        (set_marks (node_marks n) (scan_annotations n.annotations (scan_labels n.labels s)))
        (shows p n)
        (is_master n)
unfolding shows is_master
scan_node-Adds p n s =
    let t = scan_labels n.labels s in
    let u = scan_annotations n.annotations t in
    let v = set_marks (node_marks n) u in
    let (found, master) = Adds-both p s t v _ _ _ false (scan_labels-Adds p n.labels s) (
      Adds-both p t u v _ _ false false (scan_annotations-Adds p n.annotations t)
        (set_marks-Adds p (node_marks n) u)) in
    (
      found
          ∙ ap (λ b. s.found p || b)
              (cong_or (some_element_same _ _ (label_marks_lem p) n.labels) (
                cong_or (some_element_same _ _ (annotation_marks_lem p) n.annotations)
                  (node_marks_lem p n))),
      master
          ∙ ap (λ m. s.found_master || m)
              (sym (or_false (some_element is_master_label n.labels))
                ∙ some_element_same _ _ is_master_label_lem n.labels),
    )

scan_nodes-Adds :
    (p : Provider) (ns : List Node) (s : Scan)
    → Adds p s (scan_nodes ns s) (some_element (shows p) ns) (some_element is_master ns)
unfolding scan_nodes
scan_nodes-Adds p [] s = Adds-none p s
scan_nodes-Adds p (n ∷ ns) s =
    let t = set_marks (node_marks n) (scan_annotations n.annotations (scan_labels n.labels s)) in
    Adds-both p s t (scan_nodes ns t) (shows p n) _ (is_master n) _ (scan_node-Adds p n s)
      (scan_nodes-Adds p ns t)

-- what is left of a flag once EKS is dropped
dropped :
    (p : Provider) (found : Providers)
    → set_provider eks false found p ≡ (found p && not (same eks p))
dropped p found = elim (Bool-cases (same eks p)) [
  | inl e ↦ rw e (and_false (found p))
  | inr e ↦ rw e (and_true (found p))
]
  where
    and_false : (a : Bool) → false ≡ (a && false)
    and_false true = refl
    and_false false = refl

    and_true : (a : Bool) → a ≡ (a && true)
    and_true true = refl
    and_true false = refl

drop_eks_found :
    (p : Provider) (s : Scan)
    → (drop_eks s).found p ≡ (s.found p && not (same eks p && s.found_master))
drop_eks_found p s = elim (Bool-cases s.found_master) [
  | inl e ↦ rw e (dropped p s.found ∙ ap (λ b. s.found p && not b) (and_true (same eks p)))
  | inr e ↦ rw e (kept (s.found p) (same eks p))
]
  where
    and_true : (a : Bool) → a ≡ (a && true)
    and_true true = refl
    and_true false = refl

    kept : (a b : Bool) → a ≡ (a && not (b && false))
    kept true true = refl
    kept true false = refl
    kept false b = refl

-- A provider is found exactly if some node shows it, wherever the node and the label stand; EKS only if, besides, no node
-- has the label of a master.
pub parse_nodes_for_providers_found :
    (nodes : List Node) (p : Provider)
    → (parse_nodes_for_providers nodes).0 p
      ≡ (some_element (shows p) nodes && not (same eks p && some_element is_master nodes))
unfolding parse_nodes_for_providers
parse_nodes_for_providers_found nodes p =
    let all = scan_nodes nodes start in
    let (found, master) = scan_nodes-Adds p nodes start in
    drop_eks_found p all
    ∙ ap (λ f. f && not (same eks p && all.found_master)) found
    ∙ ap (λ m. some_element (shows p) nodes && not (same eks p && m)) master
