-- ===== src/Analyze/Distribution/Evidence.antt =====
-- By which labels, annotations and IDs a node shows each provider, and that the scan marks just those.
use troubleshoot.Prelude.{
  String, ◌≡◌, refl, Bool, true, false, not, ◌&&◌, ◌||◌, List, [], ◌∷◌, ◌++◌, ◌==◌, eq_iff, arith,
  if◌then◌else◌, Bool-cases, inl, inr, sym,
}
use troubleshoot.Go.Text.{is_some, after_prefix}
use troubleshoot.Analyze.Distribution.{
  Provider, unknown, microk8s, docker_desktop, eks, gke, digital_ocean, open_shift, tanzu, kurl,
  aks, ibm, minikube, rke2, k3s, oke, kind, k0s, embedded_cluster, ordinal, same, Node, Mark, mark,
  if_mark, label_marks, is_master_label, annotation_marks, node_marks,
}

-- some mark is of the provider
abbrev pub marked : Provider → List Mark → Bool
marked p [] = false
marked p (m ∷ ms) = same m.provider p || marked p ms

abbrev pub some_element {ℓ} : {A : Type ℓ} → (A → Bool) → List A → Bool
some_element test [] = false
some_element test (a ∷ rest) = test a || some_element test rest

-- The labels by which a provider shows, for each provider by itself.
unfoldable pub label_shows : Provider → String × String → Bool
label_shows aks (key, value) = key == "kubernetes.azure.com/role"
label_shows embedded_cluster (key, value) = key == "kots.io/embedded-cluster-role"
label_shows k0s (key, value) = key == "node.k0sproject.io/role"
label_shows k3s (key, value) =
    value == "k3s"
    && (key == "node.kubernetes.io/instance-type" || key == "beta.kubernetes.io/instance-type")
label_shows kurl (key, value) = value == "true" && key == "kurl.sh/cluster"
label_shows microk8s (key, value) = value == "true" && key == "microk8s.io/cluster"
label_shows minikube (key, value) = key == "minikube.k8s.io/version"
label_shows oke (key, value) = key == "oci.oraclecloud.com/fault-domain"
label_shows tanzu (key, value) = key == "run.tanzu.vmware.com/kubernetesDistributionVersion"
label_shows _ (key, value) = false

-- RKE2 shows by an annotation.
unfoldable pub annotation_shows : Provider → String × String → Bool
annotation_shows rke2 (key, value) = key == "rke2.io/node-args"
annotation_shows _ (key, value) = false

abbrev starts_with : String → String → Bool
starts_with prefix s = is_some (after_prefix prefix s)

-- Docker Desktop shows by the image of the system, and the providers of clouds by the scheme of the ID.
unfoldable pub status_shows : Provider → Node → Bool
unfolding after_prefix
status_shows docker_desktop n = n.os_image == "Docker Desktop"
status_shows digital_ocean n = starts_with "digitalocean:" n.provider_id
status_shows eks n = starts_with "aws:" n.provider_id
status_shows gke n = starts_with "gce:" n.provider_id
status_shows ibm n = starts_with "ibm:" n.provider_id
status_shows kind n = starts_with "kind:" n.provider_id
status_shows _ n = false

-- The node shows the provider: by a label, by an annotation, or by its status and its ID.
unfoldable pub shows : Provider → Node → Bool
unfolding label_shows annotation_shows status_shows
shows p n =
    some_element (λ l. label_shows p l) n.labels
    || (some_element (λ a. annotation_shows p a) n.annotations || status_shows p n)

-- The node has one of the two labels of the control plane.
unfoldable pub is_master : Node → Bool
is_master n =
    some_element
      (λ l.
        l.0 == "node-role.kubernetes.io/control-plane" || l.0 == "node-role.kubernetes.io/master")
      n.labels

pub or_false : (a : Bool) → a ≡ (a || false)
or_false true = refl
or_false false = refl

marked-append :
    (p : Provider) (xs ys : List Mark) → marked p (xs ++ ys) ≡ (marked p xs || marked p ys)
marked-append p [] ys = refl
marked-append p (x ∷ xs) ys = ground (arith, marked-append p xs ys)

marked-if_mark :
    (p q : Provider) (b : Bool) (text : String) → marked p (if_mark b q text) ≡ (b && same q p)
marked-if_mark p q true text = sym (or_false (same q p))
marked-if_mark p q false text = refl

marked-first :
    (p q : Provider) (b : Bool) (text : String) (rest : List Mark)
    → marked p (if b then mark q text ∷ [] else rest) ≡ (b && same q p || not b && marked p rest)
marked-first p q true text rest = refl
marked-first p q false text rest = refl

and_false : (b : Bool) → (b && false) ≡ false
and_false true = refl
and_false false = refl

and_true : (b : Bool) → (b && true) ≡ b
and_true true = refl
and_true false = refl

false_or : (b : Bool) → (b || false) ≡ b
false_or b = sym (or_false b)

ruleset marks = (marked-append, marked-if_mark, marked-first, and_false, and_true, false_or)

-- one key is not the other
other_key :
    (k v : String)
    → (not (k == "kurl.sh/cluster" && v == "true") && (k == "microk8s.io/cluster" && v == "true"))
      ≡ (v == "true" && k == "microk8s.io/cluster")
other_key k v = elim (Bool-cases (k == "microk8s.io/cluster")) [
  | inl e ↦ rw ((eq_iff k "microk8s.io/cluster").0 e) (sym (and_true (v == "true")))
  | inr e ↦ rw e (ground arith)
]

pub label_marks_lem :
    (p : Provider) (l : String × String) → marked p (label_marks l) ≡ label_shows p l
unfolding label_marks label_shows ordinal
label_marks_lem unknown (k, v) = simp marks
label_marks_lem microk8s (k, v) = simp marks (other_key k v)
label_marks_lem docker_desktop (k, v) = simp marks
label_marks_lem eks (k, v) = simp marks
label_marks_lem gke (k, v) = simp marks
label_marks_lem digital_ocean (k, v) = simp marks
label_marks_lem open_shift (k, v) = simp marks
label_marks_lem tanzu (k, v) = simp marks refl
label_marks_lem kurl (k, v) = simp marks (ground arith)
label_marks_lem aks (k, v) = simp marks refl
label_marks_lem ibm (k, v) = simp marks
label_marks_lem minikube (k, v) = simp marks refl
label_marks_lem rke2 (k, v) = simp marks
label_marks_lem k3s (k, v) = simp marks (ground arith)
label_marks_lem oke (k, v) = simp marks refl
label_marks_lem kind (k, v) = simp marks
label_marks_lem k0s (k, v) = simp marks refl
label_marks_lem embedded_cluster (k, v) = simp marks refl

pub annotation_marks_lem :
    (p : Provider) (l : String × String) → marked p (annotation_marks l) ≡ annotation_shows p l
unfolding annotation_shows ordinal
annotation_marks_lem unknown (k, v) = simp marks
annotation_marks_lem microk8s (k, v) = simp marks
annotation_marks_lem docker_desktop (k, v) = simp marks
annotation_marks_lem eks (k, v) = simp marks
annotation_marks_lem gke (k, v) = simp marks
annotation_marks_lem digital_ocean (k, v) = simp marks
annotation_marks_lem open_shift (k, v) = simp marks
annotation_marks_lem tanzu (k, v) = simp marks
annotation_marks_lem kurl (k, v) = simp marks
annotation_marks_lem aks (k, v) = simp marks
annotation_marks_lem ibm (k, v) = simp marks
annotation_marks_lem minikube (k, v) = simp marks
annotation_marks_lem rke2 (k, v) = simp marks
annotation_marks_lem k3s (k, v) = simp marks
annotation_marks_lem oke (k, v) = simp marks
annotation_marks_lem kind (k, v) = simp marks
annotation_marks_lem k0s (k, v) = simp marks
annotation_marks_lem embedded_cluster (k, v) = simp marks

pub node_marks_lem : (p : Provider) (n : Node) → marked p (node_marks n) ≡ status_shows p n
unfolding node_marks status_shows ordinal
node_marks_lem unknown n = simp marks
node_marks_lem microk8s n = simp marks
node_marks_lem docker_desktop n = simp marks refl
node_marks_lem eks n = simp marks refl
node_marks_lem gke n = simp marks refl
node_marks_lem digital_ocean n = simp marks refl
node_marks_lem open_shift n = simp marks
node_marks_lem tanzu n = simp marks
node_marks_lem kurl n = simp marks
node_marks_lem aks n = simp marks
node_marks_lem ibm n = simp marks refl
node_marks_lem minikube n = simp marks
node_marks_lem rke2 n = simp marks
node_marks_lem k3s n = simp marks
node_marks_lem oke n = simp marks
node_marks_lem kind n = simp marks refl
node_marks_lem k0s n = simp marks
node_marks_lem embedded_cluster n = simp marks

pub is_master_label_lem :
    (l : String × String)
    → is_master_label l
      ≡ (l.0 == "node-role.kubernetes.io/control-plane" || l.0 == "node-role.kubernetes.io/master")
unfolding is_master_label
is_master_label_lem l = ground arith

pub cong_or : {a b c d : Bool} → a ≡ b → c ≡ d → (a || c) ≡ (b || d)
cong_or e e' = cc (e, e')

pub some_element_same :
    {A : Type 0} (f g : A → Bool)
    → ((a : A) → f a ≡ g a)
    → (xs : List A) → some_element f xs ≡ some_element g xs
some_element_same f g h [] = refl
some_element_same f g h (a ∷ xs) = cong_or (h a) (some_element_same f g h xs)
