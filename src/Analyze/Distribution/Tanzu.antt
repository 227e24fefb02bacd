-- ===== src/Analyze/Distribution/Tanzu.antt =====
-- What a condition with a known name says of the providers that were found.
use Prim.Native.String.{◌++◌ as ◌⧺◌}
use troubleshoot.Prelude.{String, ◌≡◌, refl, Bool, false, not, ◌&&◌, [], ◌∷◌, ap, ◌∙◌}
use troubleshoot.Go.Result.{ok}
use troubleshoot.Go.Text.{
  split, trim_space, is_empty, is_space, Free, split-last, split-word, trim_space-Free,
  trim_space-word, EndsWell-append, EndsWell-word,
}
use troubleshoot.Analyze.Distribution.{
  Provider, unknown, microk8s, docker_desktop, eks, gke, digital_ocean, open_shift, tanzu, kurl,
  aks, ibm, minikube, rke2, k3s, oke, kind, k0s, embedded_cluster, same, ordinal, Providers,
  must_normalize_distribution_name, is_distribution, named, by_operator, distribution_parts,
  compare_distribution_conditional_to_actual,
}

-- The analyzer takes the provider to be there: it never does for tanzu.
unfoldable pub present : Provider → Providers → Bool
unfolding ordinal
present p actual = not (same p tanzu) && actual p

is_distribution-present :
    (p : Provider) (actual : Providers)
    → same p unknown ≡ false
    → is_distribution p actual ≡ present p actual
unfolding is_distribution present ordinal
is_distribution-present unknown actual h = cc h
is_distribution-present microk8s actual h = refl
is_distribution-present docker_desktop actual h = refl
is_distribution-present eks actual h = refl
is_distribution-present gke actual h = refl
is_distribution-present digital_ocean actual h = refl
is_distribution-present open_shift actual h = refl
is_distribution-present tanzu actual h = refl
is_distribution-present kurl actual h = refl
is_distribution-present aks actual h = refl
is_distribution-present ibm actual h = refl
is_distribution-present minikube actual h = refl
is_distribution-present rke2 actual h = refl
is_distribution-present k3s actual h = refl
is_distribution-present oke actual h = refl
is_distribution-present kind actual h = refl
is_distribution-present k0s actual h = refl
is_distribution-present embedded_cluster actual h = refl

named_known :
    (operator name unknowns : String) (actual : Providers)
    → same (must_normalize_distribution_name name) unknown ≡ false
    → named operator name actual unknowns
      ≡ (by_operator operator (present (must_normalize_distribution_name name) actual), unknowns)
named_known operator name unknowns actual h = rw h (
    ap (λ b. (by_operator operator b, unknowns))
      (is_distribution-present (must_normalize_distribution_name name) actual h))

parts_word : (name : String) → Free is_space name → split b' ' (trim_space name) ≡ name ∷ []
parts_word name f = ap (split b' ') (trim_space-Free name f) ∙ split-last name f

parts_negated :
    (name : String)
    → is_empty name ≡ false
    → Free is_space name
    → split b' ' (trim_space ("!=" ⧺ " " ⧺ name)) ≡ "!=" ∷ name ∷ []
parts_negated name e f =
    let free : Free is_space "!=" = unfold is_space in (refl, (refl, tt)) in
    ap (split b' ') (
      trim_space-word "!=" (" " ⧺ name) refl free
        (EndsWell-append " " name (EndsWell-word name e f)))
    ∙ split-word "!=" name free
    ∙ ap (λ ws. "!=" ∷ ws) (split-last name f)

-- A condition that is one known name holds exactly if the provider was found and is not tanzu, and the one that negates
-- it exactly if not; neither adds to the unknown names.
pub compare_distribution_conditional_to_actual_known :
    (name unknowns : String) (actual : Providers)
    → is_empty name ≡ false
    → Free is_space name
    → same (must_normalize_distribution_name name) unknown ≡ false
    → (compare_distribution_conditional_to_actual name actual unknowns
        ≡ ok (present (must_normalize_distribution_name name) actual, unknowns))
      × (compare_distribution_conditional_to_actual ("!=" ⧺ " " ⧺ name) actual unknowns
          ≡ ok (not (present (must_normalize_distribution_name name) actual), unknowns))
unfolding compare_distribution_conditional_to_actual
compare_distribution_conditional_to_actual_known name unknowns actual e f h = (
  ap (λ ws. distribution_parts ws actual unknowns) (parts_word name f)
      ∙ ap ok (named_known "=" name unknowns actual h),
  ap (λ ws. distribution_parts ws actual unknowns) (parts_negated name e f)
      ∙ ap ok (named_known "!=" name unknowns actual h),
)
