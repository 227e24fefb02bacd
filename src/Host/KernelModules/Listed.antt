-- ===== src/Host/KernelModules/Listed.antt =====
-- What the conditions on kernel modules say.
use Prim.Native.String.{◌++◌ as ◌⧺◌}
use Prim.Native.String.append
use troubleshoot.Prelude.{
  String, ◌≡◌, ◌↔◌, refl, ap, ◌∙◌, true, false, none, some, List, [], ◌∷◌, All, member, arith,
  Option-cases, inl, inr, sym, not, ◌&&◌, eqb,
}
use troubleshoot.Go.Result.{ok}
use troubleshoot.Go.Text.{
  is_space, Free, split, split-word, split-last, split_by-append, split_by-Free,
}
use troubleshoot.Go.Maps.{Map, lookup}
use troubleshoot.Host.KernelModules.{
  KernelModuleInfo, all_listed, none_listed, module_parts,
  compare_kernel_module_conditional_to_actual,
}

-- The module is there, and has one of the statuses.
abbrev pub Listed : List String → Map KernelModuleInfo → String → Type 0
Listed statuses modules name =
    (m : KernelModuleInfo) × (lookup name modules ≡ some m) × (member m.status statuses ≡ true)

module _ (name : String) (names statuses : List String) (modules : Map KernelModuleInfo) where
  all_missing : lookup name modules ≡ none → all_listed (name ∷ names) statuses modules ≡ false
  unfolding all_listed
  all_missing e = rw (all_listed, e) refl

  all_there :
      (m : KernelModuleInfo)
      → lookup name modules ≡ some m
      → all_listed (name ∷ names) statuses modules
        ≡ (member m.status statuses && all_listed names statuses modules)
  unfolding all_listed
  all_there m e = rw (all_listed, e) (ground arith)

  none_missing : lookup name modules ≡ none → none_listed (name ∷ names) statuses modules ≡ true
  unfolding none_listed
  none_missing e = rw (none_listed, e) refl

  none_there :
      (m : KernelModuleInfo)
      → lookup name modules ≡ some m
      → none_listed (name ∷ names) statuses modules
        ≡ (not (member m.status statuses) && none_listed names statuses modules)
  unfolding none_listed
  none_there m e = rw (none_listed, e) (ground arith)

all_listed-Listed :
    (names statuses : List String) (modules : Map KernelModuleInfo)
    → (all_listed names statuses modules ≡ true) ↔ All (Listed statuses modules) names
unfolding all_listed
all_listed-Listed [] statuses modules = (λ h. tt, λ h. refl)
all_listed-Listed (name ∷ names) statuses modules =
    let (to, from) = all_listed-Listed names statuses modules in
    elim (Option-cases (lookup name modules)) [
      | inl e ↦
          (λ h. cc (all_missing name names statuses modules e, h), λ ((m, f, b), rest). cc (e, f))
      | inr (m, e) ↦ (
        λ h.
            let both = sym (all_there name names statuses modules m e) ∙ h in
            ((m, e, ground (arith, both)), to (ground (arith, both))),
        λ ((m', f, b), rest).
            all_there name names statuses modules m' f ∙ ground (arith, b, from rest),
      )
    ]

split_condition :
    (names operator statuses : String)
    → Free is_space names
    → Free is_space operator
    → Free is_space statuses
    → split b' ' (names ⧺ " " ⧺ (operator ⧺ " " ⧺ statuses)) ≡ names ∷ operator ∷ statuses ∷ []
split_condition names operator statuses fn fo fs =
    split-word names (operator ⧺ " " ⧺ statuses) fn
    ∙ ap (λ ws. names ∷ ws) (split-word operator statuses fo)
    ∙ ap (λ ws. names ∷ operator ∷ ws) (split-last statuses fs)

-- The condition "<names> = <statuses>" holds exactly if each of the modules is there and has one of the statuses; neither
-- text has a blank.
pub compare_kernel_module_conditional_to_actual_equals :
    (names statuses : String) (modules : Map KernelModuleInfo)
    → Free is_space names
    → Free is_space statuses
    → (compare_kernel_module_conditional_to_actual (names ⧺ " " ⧺ ("=" ⧺ " " ⧺ statuses)) modules
        ≡ ok true)
      ↔ All (Listed (split b',' statuses) modules) (split b',' names)
unfolding compare_kernel_module_conditional_to_actual is_space
compare_kernel_module_conditional_to_actual_equals names statuses modules fn fs =
    let read =
      ap (λ parts. module_parts parts modules)
        (split_condition names "=" statuses fn (refl, tt) fs) in
    let (to, from) = all_listed-Listed (split b',' names) (split b',' statuses) modules in
    (λ h. to (cc (sym read ∙ h)), λ h. read ∙ ap ok (from h))

split_two :
    (first second : String)
    → Free (eqb b',') first
    → Free (eqb b',') second
    → split b',' (first ⧺ "," ⧺ second) ≡ first ∷ second ∷ []
unfolding split
split_two first second f s =
    rw (append.cons "," "" second, append.nil second)
      (split_by-append (eqb b',') first "," second f refl
        ∙ ap (λ ws. first ∷ ws) (split_by-Free (eqb b',') second s))

-- The answer of "!=" depends on the order of the names, where one module is not there and the other has a status of
-- the list: it is yes if the missing one stands first, and no if it stands second. No name has a comma, and no text a blank.
pub compare_kernel_module_conditional_to_actual_order :
    (missing there statuses : String) (modules : Map KernelModuleInfo) (m : KernelModuleInfo)
    → Free (eqb b',') missing
    → Free (eqb b',') there
    → Free is_space (missing ⧺ "," ⧺ there)
    → Free is_space (there ⧺ "," ⧺ missing)
    → Free is_space statuses
    → lookup missing modules ≡ none
    → lookup there modules ≡ some m
    → member m.status (split b',' statuses) ≡ true
    → (compare_kernel_module_conditional_to_actual
          ((missing ⧺ "," ⧺ there) ⧺ " " ⧺ ("!=" ⧺ " " ⧺ statuses))
          modules
        ≡ ok true)
      × (compare_kernel_module_conditional_to_actual
            ((there ⧺ "," ⧺ missing) ⧺ " " ⧺ ("!=" ⧺ " " ⧺ statuses))
            modules
          ≡ ok false)
unfolding compare_kernel_module_conditional_to_actual is_space
compare_kernel_module_conditional_to_actual_order missing there statuses modules m cm ct f g fs e q
      b =
    (
      read (missing ⧺ "," ⧺ there) f
          ∙ ap (λ names. ok (none_listed names found modules)) (split_two missing there cm ct)
          ∙ ap ok (none_missing missing (there ∷ []) found modules e),
      read (there ⧺ "," ⧺ missing) g
          ∙ ap (λ names. ok (none_listed names found modules)) (split_two there missing ct cm)
          ∙ ap ok (none_there there (missing ∷ []) found modules m q ∙ ground (arith, b)),
    )
  where
    found : List String
    found = split b',' statuses

    read :
        (names : String)
        → Free is_space names
        → compare_kernel_module_conditional_to_actual
            (names ⧺ " " ⧺ ("!=" ⧺ " " ⧺ statuses))
            modules
          ≡ ok (none_listed (split b',' names) (split b',' statuses) modules)
    read names fn =
        ap (λ parts. module_parts parts modules)
          (split_condition names "!=" statuses fn (refl, (refl, tt)) fs)
