-- ===== src/Patches/Commit/Loss.antt =====
-- A change in place whose headers name two files, and its undoing.
use computerpilot_mcp.Prelude.{
  ℕ, false, not, ◌&&◌, List, [], ◌∷◌, Option, none, some, ◌≡◌, sym, ap, arith, ◌==◌, ℕ_eq, list_eq,
  list_beq_iff, option_eq,
}
use computerpilot_mcp.Prelude.Result.{ok, >>=-eq-ok, ok-injective}
use computerpilot_mcp.Patches.{Text, PatchHunk, apply_hunks}
use computerpilot_mcp.Patches.Parse.{modify, FilePatch}
use computerpilot_mcp.Patches.Commit.{
  FilePath, Bytes, Files, PreparedFile, unlink_some, write_back, restore_item, restore, commit,
}
use computerpilot_mcp.Patches.Prepare.{
  Host, resolve_under, read_before, is_rename, is_file, after_by_kind, prepare_existing,
  prepare_by_kind, prepare,
}
use computerpilot_mcp.Patches.Commit.Transaction.{require_value-eq-ok}

-- A change of a file in place, by its two headers.
abbrev pub in_place : Text → Text → List PatchHunk → FilePatch
in_place old new hunks = record {
  kind = modify;
  old_path = some old;
  new_path = some new;
  hunks = hunks;
}

restored_target-none :
    (before : Option Bytes) (now : Files) (s t : FilePath)
    → (t == s) ≡ false
    → write_back (some s) before (unlink_some (some t) (unlink_some (some s) now)) t ≡ none
restored_target-none none now s t other = ground (arith, list_beq_iff t t)
restored_target-none (some b) now s t other = ground (arith, list_beq_iff t t)

module _ (host : Host) where
  prepare_existing-paths :
      (encoding : Text) (patch : FilePatch) (source target : Option FilePath) (files : Files)
      (item : PreparedFile)
      → prepare_existing host encoding patch source target files ≡ ok item
      → (item.source ≡ source) × (item.target ≡ target)
  unfolding prepare_existing
  prepare_existing-paths encoding patch source target files item h =
      let ((before, text), read, h1) = >>=-eq-ok (read_before host encoding source files) _ h in
      let (free, h2) =
        require_value-eq-ok
          (not (is_rename host patch.kind && is_file host target files && not (target == source)))
          "FileExistsError" _ h1 in
      let (text', applied, h3) = >>=-eq-ok (apply_hunks text patch.hunks) _ h2 in
      let (after, encoded, h4) =
        >>=-eq-ok (after_by_kind host encoding patch.kind patch.hunks target (some before) text') _
          h3 in
      (ap (λ i. i.source) (sym (ok-injective h4)), ap (λ i. i.target) (sym (ok-injective h4)))

  -- When a change in place names two files and its commit fails, at any write or before the first, the
  -- file of the new name is gone, whether or not it was there.
  pub commit_loses_target :
      (encoding : Option FilePath → Text) (files : Files) (old new : Text) (hunks : List PatchHunk)
      (s t : FilePath) (item : PreparedFile) (n : ℕ)
      → host.resolve old ≡ some s
      → host.resolve new ≡ some t
      → (t == s) ≡ false
      → prepare host encoding files (in_place old new hunks) ≡ ok item
      → (commit (some n) (item ∷ []) files).1 t ≡ none
  unfolding prepare prepare_by_kind resolve_under commit restore restore_item
  commit_loses_target encoding files old new hunks s t item n at at' other h =
      let patch = in_place old new hunks in
      let made : prepare_existing host (encoding (some s)) patch (some s) (some t) files ≡ ok item =
        rw (at, at') at h in
      let (source, target) =
        prepare_existing-paths (encoding (some s)) patch (some s) (some t) files item made in
      rw (source, target) (restored_target-none item.before _ s t other)
