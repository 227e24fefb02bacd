-- ===== src/Host/Contents.antt =====
-- `retrieveCollectedContents` of pkg/analyze/collected_contents.go.
use Prim.Native.String.{◌++◌ as ◌⧺◌}
use mathlib.Core.Path.{subst}
use troubleshoot.Prelude.{String, ◌≡◌, refl, List, [], ◌∷◌}
use troubleshoot.Go.Result.{
  Result, ok, err, panic, Error, message, wrapped, foreign, invalid_syntax, out_of_range, not_found,
  wrap, ◌>>=◌, bind-inv, wrap-ok,
}

pub record CollectedContent (Data : Type 0) : Type 0 where
  pub node_name : String
  pub data_of : Data

abbrev pub node_list_file : String
node_list_file = "host-collectors/system/node_list.json"

-- `read` is `getCollectedFileContents` and `decode` json.Unmarshal into the names of the nodes.
module _ {Data : Type 0} (read : String → Result Data) (decode : Data → Result (List String)) where
  abbrev pub node_file : String → String → String → String
  node_file base name node = base ⧺ "/" ⧺ node ⧺ "/" ⧺ name

  read_nodes : String → String → List String → Result (List (CollectedContent Data))
  read_nodes base name [] = ok []
  read_nodes base name (node ∷ nodes) = do
    d ← wrap ("failed to retrieve content for node " ⧺ node) (read (node_file base name node))
    rest ← read_nodes base name nodes
    ok (record { node_name = node; data_of = d } ∷ rest)

  -- with what the read of the list of nodes gave; a missing list means that there is nothing to read
  from_nodes : String → String → Result Data → Result (List (CollectedContent Data))
  unfolding read_nodes
  from_nodes base name (ok d) = do
    nodes ← wrap "failed to unmarshal node names" (decode d)
    read_nodes base name nodes
  from_nodes base name (err (not_found file)) = ok []
  from_nodes base name (err e) = err (wrapped "failed to get node list" e)
  from_nodes base name (panic s) = panic s

  unfoldable pub retrieve_collected_contents :
      String → String → String → Result (List (CollectedContent Data))
  unfolding from_nodes
  retrieve_collected_contents local base name = elim (read local) [
    | ok d ↦ ok (record { node_name = ""; data_of = d } ∷ [])
    | err e ↦ from_nodes base name (read node_list_file)
    | panic s ↦ panic s
  ]

  -- Each content is what the file of its node holds.
  pub data Retrieved (base name : String)
      : List String → List (CollectedContent Data) → Type 0 where
    no_nodes : Retrieved base name [] []
    one_node :
        {node : String} {nodes : List String} {d : Data} {rest : List (CollectedContent Data)}
        → read (node_file base name node) ≡ ok d
        → Retrieved base name nodes rest
        → Retrieved base name (node ∷ nodes) (record { node_name = node; data_of = d } ∷ rest)

  -- Where the contents come from: the local file, or the nodes of the list, or no list at all.
  pub data Origin (local base name : String) (contents : List (CollectedContent Data))
      : Type 0 where
    local_file :
        (d : Data)
        → read local ≡ ok d
        → contents ≡ record { node_name = ""; data_of = d } ∷ []
        → Origin local base name contents
    listed_nodes :
        (e : Error) (d : Data) (nodes : List String)
        → read local ≡ err e
        → read node_list_file ≡ ok d
        → decode d ≡ ok nodes
        → Retrieved base name nodes contents
        → Origin local base name contents
    no_list :
        (e : Error) (file : String)
        → read local ≡ err e
        → read node_list_file ≡ err (not_found file)
        → contents ≡ []
        → Origin local base name contents

  read_nodes-Retrieved :
      (base name : String) (nodes : List String) (contents : List (CollectedContent Data))
      → read_nodes base name nodes ≡ ok contents
      → Retrieved base name nodes contents
  unfolding read_nodes
  read_nodes-Retrieved base name [] contents h =
      let e : ok [] ≡ ok contents = h in
      let same : [] ≡ contents = cc e in subst (Retrieved base name []) same no_nodes
  read_nodes-Retrieved base name (node ∷ nodes) contents h =
      let (d, h', q) = bind-inv (wrap _ (read (node_file base name node))) _ _ h in
      let (rest, e, q') = bind-inv (read_nodes base name nodes) _ _ h' in
      let same : record { node_name = node; data_of = d } ∷ rest ≡ contents = cc e in
      let go = read_nodes-Retrieved base name nodes rest q' in
      subst (Retrieved base name (node ∷ nodes)) same
        (one_node (wrap-ok _ (read (node_file base name node)) d q) go)

  from_nodes-Origin :
      (local base name : String) (e : Error) (contents : List (CollectedContent Data))
      → read local ≡ err e
      → (r : Result Data) → read node_list_file ≡ r
      → from_nodes base name r ≡ ok contents
      → Origin local base name contents
  unfolding from_nodes
  from_nodes-Origin local base name e contents l (ok d) q h =
      let (nodes, h', p) = bind-inv (wrap _ (decode d)) _ _ h in
      listed_nodes e d nodes l q (wrap-ok _ (decode d) nodes p)
        (read_nodes-Retrieved base name nodes contents h')
  from_nodes-Origin local base name e contents l (err (not_found file)) q h =
      let k : ok [] ≡ ok contents = h in no_list e file l q (cc k)
  from_nodes-Origin local base name e contents l (err (message t)) q h = cc
  from_nodes-Origin local base name e contents l (err (wrapped t x)) q h = cc
  from_nodes-Origin local base name e contents l (err (invalid_syntax t)) q h = cc
  from_nodes-Origin local base name e contents l (err (out_of_range t)) q h = cc
  from_nodes-Origin local base name e contents l (err (foreign t)) q h = cc
  from_nodes-Origin local base name e contents l (panic s) q h = cc

  -- The contents that are returned are that of the local file alone, if it can be read, and else
  -- one for each node of the list, in order, each from the file of its node. They are none only if
  -- the list names no node, or is not there.
  pub retrieve_collected_contents-Origin :
      (local base name : String) (contents : List (CollectedContent Data))
      → retrieve_collected_contents local base name ≡ ok contents
      → Origin local base name contents
  unfolding retrieve_collected_contents
  retrieve_collected_contents-Origin local base name contents h = go (read local) refl h
    where
      go :
          (r : Result Data)
          → read local ≡ r
          → (elim r [
            | ok d ↦ ok (record { node_name = ""; data_of = d } ∷ [])
            | err e ↦ from_nodes base name (read node_list_file)
            | panic s ↦ panic s
          ])
            ≡ ok contents
          → Origin local base name contents
      go (ok d) q k = local_file d q (cc k)
      go (err e) q k = from_nodes-Origin local base name e contents q (read node_list_file) refl k
      go (panic s) q k = cc
