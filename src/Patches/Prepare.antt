-- ===== src/Patches/Prepare.antt =====
-- tools/filesystem/patches.py: the preparation of the files of a patch, and the transaction as a
-- whole. A directory or a link is not a file.
use computerpilot_mcp.Prelude.{
  ℕ, String, Bool, true, false, not, ◌&&◌, ◌||◌, List, [], ◌∷◌, Option, none, some, ◌==◌, ℕ_eq,
  list_eq, option_eq, all, if◌then◌else◌,
}
use computerpilot_mcp.Prelude.Result.{Result, ok, err, value_error, require, or_raise, ◌>>=◌, ◌>>◌}
use computerpilot_mcp.Patches.{Text, PatchHunk, apply_hunks}
use computerpilot_mcp.Patches.Parse.{
  PatchLimits, PatchKind, create, modify, delete, rename, FilePatch,
}
use computerpilot_mcp.Patches.Files.{parse_unified_patch}
use computerpilot_mcp.Patches.Commit.{FilePath, Bytes, Files, PreparedFile, commit}

-- What the operating system and Python's library do: the resolved path under the root, or none where
-- it escapes; codecs; ast.parse; hashlib.sha256 as hexadecimal text; str.casefold.
pub record Host : Type 0 where
  pub resolve : Text → Option FilePath
  pub decode : Text → Bytes → Option Text
  pub encode : Text → Text → Option Bytes
  pub is_python_file : FilePath → Bool
  pub parses : Text → Bool
  pub sha256 : Bytes → Text
  pub casefold : Text → Text

-- An error of Python's own, by its class.
abbrev pub require_value : Bool → String → Result (Unit {0})
require_value true message = ok tt
require_value false message = err (value_error message)

module _ (host : Host) where
  -- _resolve_under
  unfoldable pub resolve_under : Option Text → Result (Option FilePath)
  resolve_under none = ok none
  resolve_under (some relative) =
      or_raise (host.resolve relative) "invalid_patch_path" >>= λ path. ok (some path)

  -- The text before the change and its bytes, of the file at `source`.
  unfoldable pub read_before : Text → Option FilePath → Files → Result (Bytes × Text)
  read_before encoding none files = err (value_error "FileNotFoundError")
  read_before encoding (some source) files = elim (files source) [
    | none ↦ err (value_error "FileNotFoundError")
    | some before ↦
        or_raise (host.decode encoding before) "encoding_error" >>= λ text. ok (before, text)
  ]

  abbrev pub is_file : Option FilePath → Files → Bool
  is_file none files = false
  is_file (some path) files = not (files path == none)

  -- The bytes after the change, with the check of a Python source.
  unfoldable pub encode_after : Text → Option FilePath → Text → Result (Option Bytes)
  encode_after encoding none text =
      or_raise (host.encode encoding text) "encoding_error" >>= λ after. ok (some after)
  encode_after encoding (some target) text = do
    after ← or_raise (host.encode encoding text) "encoding_error"
    require (not (host.is_python_file target) || host.parses text) "python_syntax_error"
    ok (some after)

  unfoldable pub after_by_kind :
      Text
      → PatchKind
      → List PatchHunk
      → Option FilePath
      → Option Bytes
      → Text
      → Result (Option Bytes)
  unfolding encode_after
  after_by_kind encoding delete hunks target before text = ok none
  after_by_kind encoding rename [] target before text = ok before
  after_by_kind encoding rename (hunk ∷ hunks) target before text =
      encode_after encoding target text
  after_by_kind encoding create hunks target before text = encode_after encoding target text
  after_by_kind encoding modify hunks target before text = encode_after encoding target text

  abbrev pub is_rename : PatchKind → Bool
  is_rename rename = true
  is_rename create = false
  is_rename modify = false
  is_rename delete = false

  -- The file must not be there; its text is empty.
  unfoldable pub prepare_new :
      Text → FilePatch → Option FilePath → Option FilePath → Files → Result PreparedFile
  unfolding after_by_kind
  prepare_new encoding patch source none files = err (value_error "FileExistsError")
  prepare_new encoding patch source (some target) files = do
    require_value (files target == none) "FileExistsError"
    text ← apply_hunks [] patch.hunks
    after ← after_by_kind encoding patch.kind patch.hunks (some target) none text
    ok (record {
      patch = patch;
      source = source;
      target = some target;
      before = none;
      after = after;
    })

  unfoldable pub prepare_existing :
      Text → FilePatch → Option FilePath → Option FilePath → Files → Result PreparedFile
  unfolding read_before after_by_kind
  prepare_existing encoding patch source target files = do
    (before, text) ← read_before encoding source files
    require_value (not (is_rename patch.kind && is_file target files && not (target == source)))
        "FileExistsError"
    text' ← apply_hunks text patch.hunks
    after ← after_by_kind encoding patch.kind patch.hunks target (some before) text'
    ok (record {
      patch = patch;
      source = source;
      target = target;
      before = some before;
      after = after;
    })

  unfoldable pub prepare_by_kind :
      PatchKind → Text → FilePatch → Option FilePath → Option FilePath → Files → Result PreparedFile
  unfolding prepare_new prepare_existing
  prepare_by_kind create encoding patch source target files =
      prepare_new encoding patch source target files
  prepare_by_kind modify encoding patch source target files =
      prepare_existing encoding patch source target files
  prepare_by_kind delete encoding patch source target files =
      prepare_existing encoding patch source target files
  prepare_by_kind rename encoding patch source target files =
      prepare_existing encoding patch source target files

  -- _prepare; the encoding of a file is the one asked for, or chosen by its bytes
  unfoldable pub prepare : (Option FilePath → Text) → Files → FilePatch → Result PreparedFile
  unfolding resolve_under prepare_by_kind
  prepare encoding files patch = do
    source ← resolve_under patch.old_path
    target ← resolve_under patch.new_path
    prepare_by_kind patch.kind (encoding source) patch source target files

  unfoldable pub prepare_all :
      (Option FilePath → Text) → Files → List FilePatch → Result (List PreparedFile)
  unfolding prepare
  prepare_all encoding files [] = ok []
  prepare_all encoding files (patch ∷ patches) = do
    item ← prepare encoding files patch
    items ← prepare_all encoding files patches
    ok (item ∷ items)

  -- expected.get(relative)
  abbrev pub expected_of : Text → List (Text × Text) → Option Text
  expected_of relative [] = none
  expected_of relative ((path, wanted) ∷ rest) =
      if path == relative then some wanted else expected_of relative rest

  abbrev hash_of : Option Bytes → Text
  hash_of none = []
  hash_of (some content) = host.sha256 content

  abbrev or_empty : Option Text → Option Text → Text
  or_empty (some path) other = path
  or_empty none (some other) = other
  or_empty none none = []

  unfoldable pub meets_expected : List (Text × Text) → PreparedFile → Bool
  meets_expected expected item =
      elim (expected_of (or_empty item.patch.old_path item.patch.new_path) expected) [
        | none ↦ true
        | some wanted ↦ wanted == [] || host.casefold wanted == host.casefold (hash_of item.before)
      ]

  -- The result is whether the patch was written, and the files.
  unfoldable pub apply_patch_transaction :
      Text
      → PatchLimits
      → (Option FilePath → Text)
      → Bool
      → List (Text × Text)
      → Option ℕ
      → Files
      → Result (Bool × Files)
  unfolding prepare_all meets_expected commit
  apply_patch_transaction text limits encoding dry_run expected fault files = do
    patches ← parse_unified_patch text limits
    items ← prepare_all encoding files patches.files
    require (all (meets_expected expected) items) "hash_conflict"
    ok (if dry_run then (false, files) else commit fault items files)
