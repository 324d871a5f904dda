-- ===== src/Executor/Artifacts.antt =====
-- PrepareRootDisk, PrepareCIDATA and PrepareConfext of internal/agent/executor/executor.go: files
-- below the artifact root, with their checksums.
use Prim.Native.String.{◌++◌ as append}
use cluster_api_hypervisor.Common.{
  String, Bool, ◌&&◌, ◌||◌, Option, some, none, List, [], ◌∷◌, ◌==◌, eqb, length, find, exists_row,
  update, if◌then◌else◌,
}
use cluster_api_hypervisor.Exec.{
  Result, ok, err, invalid_request, conflict, panic, other, Exec, pure, raise, lift, ◌>>=◌, ◌>>◌,
}
use cluster_api_hypervisor.HostAgent.{
  Mutation, validate, ArtifactFile, ArtifactResult, RootDiskRequest,
}
use cluster_api_hypervisor.Inventory.{OperationState, completed, Operation}
use cluster_api_hypervisor.Inventory.Journal.{validate_operation}
use cluster_api_hypervisor.Executor.{Manifest, Executor, World, on_machine}
use cluster_api_hypervisor.Executor.Journal.{operation_of, begin, complete}

-- A Go map from name to content that is filled file by file: a name that comes again replaces the
-- content. The order of a Go map is not defined; this is one
-- of them.
unfoldable pub put_file : ArtifactFile → List ArtifactFile → List ArtifactFile
put_file file tree =
    if exists_row (λ f. f.name == file.name) tree
    then update (λ f. f.name == file.name) (λ _. file) tree
    else file ∷ tree

unfoldable pub tree_of : List ArtifactFile → List ArtifactFile → List ArtifactFile
tree_of tree [] = tree
tree_of tree (file ∷ files) = tree_of (put_file file tree) files

unfoldable pub image_path : Option (String × String) → Result String
image_path none = err (other "unknown base image")
image_path (some image) = ok image.1

unfoldable pub is_one_artifact : ArtifactResult → Bool
is_one_artifact r = eqb (length r.paths) 1 && eqb (length r.sha256s) 1

abbrev pub artifacts : List String → List String → ArtifactResult
artifacts paths sums = record { paths = paths; sha256s = sums }

module _ {N H : Type 0} (e : Executor N H) where
  -- digestFile of each path, up to the first error
  unfoldable pub digest_all : List String → Exec (World N H) (List String)
  digest_all [] = pure []
  digest_all (path ∷ paths) = do
    digest ← on_machine (e.host.digest_file path)
    digests ← digest_all paths
    pure (digest ∷ digests)

  -- Manifest.Image, and the path of the image
  unfoldable pub resolve_image : Option Manifest → String → Result String
  resolve_image none reference = ok reference
  resolve_image (some manifest) reference =
      if e.is_blank reference
      then err (other "unknown base image")
      else image_path (find (λ image. image.0 == reference) manifest.images)

  -- What all three do with a result that they made.
  unfoldable pub finish :
      Mutation → String → Operation → ArtifactResult → Exec (World N H) ArtifactResult
  finish m kind op result = do
    complete m kind op.request_hash completed (e.encode_artifact result) ""
    pure result

  unfoldable pub check_one : ArtifactResult → Exec (World N H) ArtifactResult
  check_one result =
      if is_one_artifact result then pure result else raise (other "invalid completed result")

  unfoldable pub root_disk_by :
      OperationState → Mutation → String → String → Operation → Exec (World N H) ArtifactResult
  root_disk_by completed m name image op = do
    result ← lift (e.decode_artifact op.result)
    check_one result
  root_disk_by _ m name image op = do
    path ← on_machine (e.host.prepare_root_disk name image)
    sums ← digest_all (path ∷ [])
    finish m "PrepareRootDisk" op (artifacts (path ∷ []) sums)

  -- `begin` where the Store may be nil: BeginOperation validates the operation, and then panics.
  unfoldable pub begin_stored : Mutation → String → Exec (World N H) Operation
  begin_stored m kind =
      if e.has_store
      then begin e m kind []
      else if validate_operation (operation_of m kind (e.operation_hash kind m []))
      then raise panic
      else raise conflict

  -- PrepareRootDisk
  unfoldable pub prepare_root_disk : Mutation → RootDiskRequest → Exec (World N H) ArtifactResult
  prepare_root_disk m req = do
    lift (validate m)
    image ← lift (resolve_image e.manifest req.source_image)
    op ← begin_stored m "PrepareRootDisk"
    root_disk_by op.state m req.name image op

  unfoldable pub cidata_by :
      OperationState
      → Mutation
      → String
      → List ArtifactFile
      → Operation
      → Exec (World N H) ArtifactResult
  cidata_by completed m name files op = pure (e.fill_artifact op.result)
  cidata_by _ m name files op = do
    made ← on_machine (e.host.prepare_cidata name (tree_of [] files))
    finish m "PrepareCIDATA" op (artifacts (made.0 ∷ []) (made.1 ∷ []))

  -- PrepareCIDATA
  unfoldable pub prepare_cidata :
      Mutation → String → List ArtifactFile → Exec (World N H) ArtifactResult
  prepare_cidata m name files = do
    lift (validate m)
    op ← begin_stored m "PrepareCIDATA"
    cidata_by op.state m name files op

  unfoldable pub confext_by :
      OperationState
      → Mutation
      → String
      → List ArtifactFile
      → Operation
      → Exec (World N H) ArtifactResult
  confext_by completed m name files op = lift (e.decode_artifact op.result)
  confext_by _ m name files op = do
    let staging = e.join e.artifact_root (append name "-confext")
    on_machine (e.host.write_tree (tree_of [] files) staging)
    paths ← on_machine (e.host.build_raws staging (e.join e.artifact_root (append name "-data")))
    sums ← digest_all paths
    finish m "PrepareConfext" op (artifacts paths sums)

  -- PrepareConfext
  unfoldable pub prepare_confext :
      Mutation → String → List ArtifactFile → Exec (World N H) ArtifactResult
  prepare_confext m name files = do
    lift (validate m)
    if name == "" || eqb (length files) 0
        then raise invalid_request
        else do op ← begin_stored m "PrepareConfext"; confext_by op.state m name files op
