-- ===== src/Patches/Commit.antt =====
-- tools/filesystem/patches.py: the writes of a patch, and their undoing when one fails.
-- Files are a function from resolved paths to their bytes. An error may end the writes after any
-- number of them, and one after all of them stands for a validation command that fails. The undoing
-- itself is taken to succeed; backups, locks, caches and directories are left out.
pub mod Rollback
pub mod Transaction
pub mod Loss
use computerpilot_mcp.Prelude.{
  ℕ, zero, suc, String, Bool, true, false, not, ◌&&◌, ◌||◌, List, [], ◌∷◌, ◌++◌, Option, none, some,
  ◌==◌, ℕ_eq, list_eq, option_eq, take, all, if◌then◌else◌,
}
use computerpilot_mcp.Prelude.Text.{codes}
use computerpilot_mcp.Prelude.Result.{
  Result, ok, err, value_error, raise, require, or_raise, ◌>>=◌, ◌>>◌,
}
use computerpilot_mcp.Patches.{Text, PatchHunk, apply_hunks}
use computerpilot_mcp.Patches.Parse.{
  PatchLimits, PatchKind, create, modify, delete, rename, FilePatch, PatchSet,
}
use computerpilot_mcp.Patches.Files.{hunks_empty, target_of, parse_unified_patch}

abbrev pub FilePath : Type 0
FilePath = Text

abbrev pub Bytes : Type 0
Bytes = List ℕ

abbrev pub Files : Type 0
Files = FilePath → Option Bytes

abbrev pub put : FilePath → Option Bytes → Files → Files
put path content files p = if p == path then content else files p

pub record PreparedFile : Type 0 where
  pub patch : FilePatch
  pub source : Option FilePath
  pub target : Option FilePath
  pub before : Option Bytes
  pub after : Option Bytes

-- One change of the disk: an atomic write, an unlink, an atomic replace.
pub data Write : Type 0 where
  write : FilePath → Bytes → Write
  unlink : FilePath → Write
  move : FilePath → FilePath → Write

abbrev pub run_write : Write → Files → Files
run_write (write path content) files = put path (some content) files
run_write (unlink path) files = put path none files
run_write (move from to) files = put to (files from) (put from none files)

abbrev pub run_writes : List Write → Files → Files
run_writes [] files = files
run_writes (w ∷ ws) files = run_writes ws (run_write w files)

-- The writes of one item in the commit loop. An assertion that fails is an error before them.
unfoldable pub rename_writes :
    Option FilePath → Option FilePath → Option Bytes → Option Bytes → List Write
rename_writes (some source) (some target) before none =
    if before == none then move source target ∷ [] else []
rename_writes (some source) (some target) before (some after) =
    if some after == before
    then move source target ∷ []
    else write target after ∷ unlink source ∷ []
rename_writes none target before after = []
rename_writes (some source) none before after = []

unfoldable pub write_target : Option FilePath → Option Bytes → List Write
write_target (some target) (some after) = write target after ∷ []
write_target none after = []
write_target (some target) none = []

unfoldable pub unlink_source : Option FilePath → List Write
unlink_source none = []
unlink_source (some source) = unlink source ∷ []

unfoldable pub writes_by_kind : PatchKind → PreparedFile → List Write
unfolding unlink_source rename_writes write_target
writes_by_kind delete item = unlink_source item.source
writes_by_kind rename item = rename_writes item.source item.target item.before item.after
writes_by_kind create item = write_target item.target item.after
writes_by_kind modify item = write_target item.target item.after

unfoldable pub writes_of : List PreparedFile → List Write
unfolding writes_by_kind
writes_of [] = []
writes_of (item ∷ items) = writes_by_kind item.patch.kind item ++ writes_of items

-- path.unlink(missing_ok=True), of a path that may be None
abbrev pub unlink_some : Option FilePath → Files → Files
unlink_some none files = files
unlink_some (some path) files = put path none files

abbrev pub write_back : Option FilePath → Option Bytes → Files → Files
write_back (some source) (some before) files = put source (some before) files
write_back none before files = files
write_back (some source) none files = files

-- The body of the loop of `_restore`.
unfoldable pub restore_item : PreparedFile → Files → Files
restore_item item files =
    write_back item.source item.before (unlink_some item.target (unlink_some item.source files))

-- _restore, from the last item to the first
unfoldable pub restore : List PreparedFile → Files → Files
unfolding restore_item
restore [] files = files
restore (item ∷ items) files = restore_item item (restore items files)

-- The try block: with `some n`, an error is raised after n writes, or after all of them if there are
-- fewer, and the files are restored.
unfoldable pub commit : Option ℕ → List PreparedFile → Files → Bool × Files
unfolding writes_of restore
commit none items files = (true, run_writes (writes_of items) files)
commit (some n) items files = (false, restore items (run_writes (take n (writes_of items)) files))
