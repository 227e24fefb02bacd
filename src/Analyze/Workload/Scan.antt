-- ===== src/Analyze/Workload/Scan.antt =====
-- A scan: files are read, each is decoded into a list of items, and each item gives reports. The
-- analyzers of all deployments, stateful sets and jobs are scans.
use mathlib.Core.Path.{fun_ext}
use mathlib.Core.List.{append_assoc}
use troubleshoot.Prelude.{String, ◌≡◌, refl, ap, ◌∙◌, List, [], ◌∷◌, ◌++◌}
use troubleshoot.Go.Result.{
  Result, ok, collect, map_result, collect-map_result, bind-map_result, bind-ok, ◌>>=◌,
}

-- the items of every file that a pattern names
abbrev pub items_in {ℓ} :
    {Data : Type 0} {Item : Type ℓ}
    → (String → Result (List Data))
    → (Data → Result (List Item))
    → String
    → Result (List Item)
items_in read decode file = read file >>= collect decode

module _ {ℓ} {Item Report : Type ℓ} (f : Item → List Report) where
  -- the reports of all items, in order
  unfoldable pub gather : List Item → List Report
  gather [] = []
  gather (x ∷ xs) = f x ++ gather xs

  pub gather-append : (xs ys : List Item) → gather (xs ++ ys) ≡ gather xs ++ gather ys
  unfolding gather
  gather-append [] ys = refl
  gather-append (x ∷ xs) ys = simp (gather-append xs ys, append_assoc)

  collect-gather : (xs : List Item) → collect (λ x. ok (f x)) xs ≡ ok (gather xs)
  unfolding collect gather
  collect-gather [] = refl
  collect-gather (x ∷ xs) = rw (collect-gather xs)

  module _ {Data : Type 0} (read : String → Result (List Data))
      (decode : Data → Result (List Item)) where
    abbrev pub scan : List String → Result (List Report)
    scan = collect (λ file. read file >>= collect (λ d. decode d >>= collect (λ x. ok (f x))))

    decode-gather :
        (d : Data) → (decode d >>= collect (λ x. ok (f x))) ≡ map_result gather (decode d)
    decode-gather d = bind-ok (decode d) _ gather collect-gather

    files-gather :
        (files : List Data)
        → collect (λ d. map_result gather (decode d)) files
          ≡ map_result gather (collect decode files)
    unfolding gather
    files-gather files = collect-map_result gather decode files refl gather-append

    file-gather :
        (file : String)
        → (read file >>= collect (λ d. decode d >>= collect (λ x. ok (f x))))
          ≡ map_result gather (items_in read decode file)
    file-gather file =
        bind-map_result (read file) _ gather (collect decode)
          (λ files. ap (λ g. collect g files) (fun_ext decode-gather) ∙ files-gather files)

    -- Reading everything first and reporting afterwards gives the same reports and the same error.
    pub scan-gather :
        (files : List String)
        → scan files ≡ map_result gather (collect (items_in read decode) files)
    unfolding gather
    scan-gather files =
        ap (λ g. collect g files) (fun_ext file-gather)
        ∙ collect-map_result gather (items_in read decode) files refl gather-append
