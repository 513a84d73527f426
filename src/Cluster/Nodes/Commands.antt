-- ===== src/Cluster/Nodes/Commands.antt =====
-- internal/cluster/nodes.go: LabelInferenceNode and NodeUID, one call of kubectl each.
use appliance_ctl.Common.{
  arith, String, ◌<>◌, eqb, Bool, true, false, not, ◌||◌, if◌then◌else◌, Option, none, some, List,
  [], ◌∷◌, Result, ok, err, ◌≡◌,
}
use appliance_ctl.Common.Text.{trim_space, is_blank, is_empty, all_chars}

-- `cli.Runner`: the output of a command, or its error.
abbrev pub Runner : Type 0
Runner = List String → Result String String

-- The commands that were run, and what was returned.
pub record Called {ℓ} (A : Type ℓ) : Type ℓ where
  pub calls : List (List String)
  pub result : Result String A

abbrev refuse {ℓ} : {A : Type ℓ} → String → Called A
refuse e = record { calls = []; result = err e }

abbrev run_once {ℓ} :
    {A : Type ℓ} → Runner → List String → (Result String String → Result String A) → Called A
run_once run command read = record { calls = command ∷ []; result = read (run command) }

-- The checks of the arguments; a runner that is nil is `none`.
unfoldable with_runner {ℓ} :
    {A : Type ℓ} → Option Runner → String → String → (Runner → Called A) → Called A
with_runner none kubeconfig name body = refuse "cluster: command runner is required"
with_runner (some run) kubeconfig name body =
    let made = body run in
    if is_blank kubeconfig || is_blank name
    then refuse "cluster: kubeconfig and node name are required"
    else made

-- No space, tab, carriage return or line feed.
abbrev in_one_piece : String → Bool
in_one_piece = all_chars (λ c. not (eqb c 32 || eqb c 9 || eqb c 13 || eqb c 10))

module _ (quote : String → String) where
  abbrev label_command : String → String → List String
  label_command kubeconfig name =
      "kubectl" ∷ "--kubeconfig" ∷ kubeconfig ∷ "label" ∷ "node" ∷ name ∷ "--overwrite"
      ∷ "zon.io/appliance-node=true" ∷ "zon.io/role=inference" ∷ "zon.io/inference-node=true" ∷ []

  abbrev labelled : String → Result String String → Result String (Unit {0})
  labelled name (ok out) = ok tt
  labelled name (err e) = err ("cluster: label inference node " <> quote name <> ": " <> e)

  -- `LabelInferenceNode`
  unfoldable pub label_inference_node : Option Runner → String → String → Called (Unit {0})
  unfolding with_runner
  label_inference_node runner kubeconfig name =
      with_runner runner kubeconfig name
        (λ run. run_once run (label_command kubeconfig name) (labelled name))

  abbrev uid_command : String → String → List String
  uid_command kubeconfig name =
      "kubectl" ∷ "--kubeconfig" ∷ kubeconfig ∷ "get" ∷ "node" ∷ name ∷ "-o"
      ∷ "jsonpath={.metadata.uid}" ∷ []

  unfoldable pub read_uid : String → Result String String → Result String String
  read_uid name (err e) = err ("cluster: get node UID for " <> quote name <> ": " <> e)
  read_uid name (ok out) =
      let uid = trim_space out in
      if is_empty uid || not (in_one_piece uid)
      then err ("cluster: node " <> quote name <> " returned an invalid UID")
      else ok uid

  -- `NodeUID`
  unfoldable pub node_uid : Option Runner → String → String → Called String
  unfolding with_runner read_uid
  node_uid runner kubeconfig name =
      with_runner runner kubeconfig name
        (λ run. run_once run (uid_command kubeconfig name) (read_uid name))

  -- A UID that NodeUID reads is not empty and is in one piece.
  read_uid-ok :
      (name uid : String) (reply : Result String String)
      → read_uid name reply ≡ ok uid
      → (is_empty uid ≡ false) × (in_one_piece uid ≡ true)
  unfolding read_uid
  read_uid-ok name uid (err e) h = ground arith
  read_uid-ok name uid (ok out) h = ground arith

  -- NodeUID runs one command at most, and a UID that it returns is not empty and is in one piece.
  node_uid-ok :
      (runner : Option Runner) (kubeconfig name uid : String)
      → (node_uid runner kubeconfig name).result ≡ ok uid
      → ((node_uid runner kubeconfig name).calls ≡ (uid_command kubeconfig name ∷ []))
        × (is_empty uid ≡ false)
        × (in_one_piece uid ≡ true)
  unfolding node_uid with_runner
  node_uid-ok none kubeconfig name uid h = ground arith
  node_uid-ok (some run) kubeconfig name uid h =
      ground (arith, read_uid-ok name uid (run (uid_command kubeconfig name)))
