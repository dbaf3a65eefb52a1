-- ===== src/Patches/Commit/Transaction.antt =====
-- The transaction of a patch leaves the files alone or writes them all.
use mathlib.Core.Path.{subst}
use computerpilot_mcp.Prelude.{
  ℕ, String, Bool, true, false, not, ◌&&◌, List, [], ◌∷◌, Option, none, some, ◌≡◌, ◌≢◌, refl, sym,
  ap, ◌∙◌, arith, ◌==◌, ℕ_eq, list_eq, option_eq, option_beq_iff, all, All, Option-cases, inl, inr,
  if◌then◌else◌,
}
use computerpilot_mcp.Prelude.Result.{
  Result, ok, or_raise, >>=-eq-ok, require-eq-ok, err-ne-ok, ok-injective, ◌>>◌,
}
use computerpilot_mcp.Patches.{Text, apply_hunks}
use computerpilot_mcp.Patches.Parse.{
  PatchLimits, PatchKind, create, modify, delete, rename, FilePatch, PatchSet,
}
use computerpilot_mcp.Patches.Files.{parse_unified_patch}
use computerpilot_mcp.Patches.Files.Parsed.{FitsKind, IsParsedFile}
use computerpilot_mcp.Patches.Files.Promised.{parse_unified_patch-IsWithin}
use computerpilot_mcp.Patches.Commit.{FilePath, Bytes, Files, PreparedFile, commit}
use computerpilot_mcp.Patches.Prepare.{
  Host, resolve_under, read_before, is_file, is_rename, after_by_kind, require_value, prepare_new,
  prepare_existing, prepare_by_kind, prepare, prepare_all, meets_expected, apply_patch_transaction,
}
use computerpilot_mcp.Patches.Commit.Rollback.{IsPrepared, commit_restores}

-- The resolved paths of a change fit its kind; one in place has one path.
abbrev FitsResolved : PatchKind → Option FilePath → Option FilePath → Type 0
FitsResolved create source target = source ≡ none
FitsResolved delete source target = target ≡ none
FitsResolved modify source target = source ≡ target
FitsResolved rename source target = Unit

pub require_value-eq-ok {ℓ} :
    {B : Type ℓ} (b : Bool) (message : String) (k : Result B) {x : B}
    → (require_value b message >> k) ≡ ok x
    → (b ≡ true) × (k ≡ ok x)
require_value-eq-ok true message k h = (refl, h)
require_value-eq-ok false message k h = absurd (err-ne-ok h)

module _ (host : Host) where
  read_before_lem :
      (encoding : Text) (source : Option FilePath) (files : Files) (before : Bytes) (text : Text)
      → read_before host encoding source files ≡ ok (before, text)
      → (s : FilePath) × (source ≡ some s) × (files s ≡ some before)
  unfolding read_before
  read_before_lem encoding none files before text h = absurd (err-ne-ok h)
  read_before_lem encoding (some s) files before text h = elim (Option-cases (files s)) [
    | inl missing ↦ absurd (ground (arith, missing))
    | inr (b, present) ↦
        let (t, decoded, e) =
          >>=-eq-ok (or_raise (host.decode encoding b) "encoding_error") _
            (rw (present, read_before) at h) in
        (s, refl, present ∙ ap (λ r. some r.0) (ok-injective e))
  ]

  is_file-false :
      (p : FilePath) (files : Files) → is_file host (some p) files ≡ false → files p ≡ none
  is_file-false p files h = ground (arith, option_beq_iff (files p) none)

  prepare_new-IsPrepared :
      (encoding : Text) (patch : FilePatch) (target : Option FilePath) (files : Files)
      (item : PreparedFile)
      → prepare_new host encoding patch none target files ≡ ok item
      → IsPrepared files item
  unfolding prepare_new
  prepare_new-IsPrepared encoding patch none files item h = absurd (err-ne-ok h)
  prepare_new-IsPrepared encoding patch (some t) files item h =
      let (new, h1) = require_value-eq-ok (files t == none) "FileExistsError" _ h in
      let (text, applied, h2) = >>=-eq-ok (apply_hunks [] patch.hunks) _ h1 in
      let (after, encoded, h3) =
        >>=-eq-ok (after_by_kind host encoding patch.kind patch.hunks (some t) none text) _ h2 in
      subst (IsPrepared files) (ok-injective h3) (record {
        read = λ p e. absurd (cc);
        absent = λ p e other.
            let same : t ≡ p = cc in
            subst (λ q. files q ≡ none) same ((option_beq_iff (files t) none).0 new);
      })

  prepare_existing-IsPrepared :
      (kind : PatchKind) (encoding : Text) (patch : FilePatch) (source target : Option FilePath)
      (files : Files) (item : PreparedFile)
      → kind ≢ create
      → patch.kind ≡ kind
      → FitsResolved kind source target
      → prepare_existing host encoding patch source target files ≡ ok item
      → IsPrepared files item
  unfolding prepare_existing
  prepare_existing-IsPrepared kind encoding patch source target files item old same fits h =
      let ((before, text), read, h1) = >>=-eq-ok (read_before host encoding source files) _ h in
      let (free, h2) =
        require_value-eq-ok
          (not (is_rename host patch.kind && is_file host target files && not (target == source)))
          "FileExistsError" _ h1 in
      let (text', applied, h3) = >>=-eq-ok (apply_hunks text patch.hunks) _ h2 in
      let (after, encoded, h4) =
        >>=-eq-ok (after_by_kind host encoding patch.kind patch.hunks target (some before) text') _
          h3 in
      let (s, at, present) = read_before_lem encoding source files before text read in
      subst (IsPrepared files) (ok-injective h4) (record {
        read = λ p e. let q : s ≡ p = cc in (sym present ∙ ap files q, λ n. cc);
        absent = absent_at kind old same fits free;
      })
    where
      absent_at :
          (k : PatchKind)
          → k ≢ create
          → patch.kind ≡ k
          → FitsResolved k source target
          → not (is_rename host patch.kind && is_file host target files && not (target == source))
            ≡ true
          → (p : FilePath) → target ≡ some p
          → source ≢ some p
          → files p ≡ none
      absent_at create new same fits free p at other = absurd (new refl)
      absent_at modify old' same fits free p at other = absurd (other (fits ∙ at))
      absent_at delete old' same fits free p at other = absurd (cc)
      absent_at rename old' same fits free p at other = is_file-false p files (
          ground (arith, same, at, option_beq_iff target source, ap (λ t. is_file host t files) at))

-- A change in place has one path in both headers.
abbrev InPlaceKind : PatchKind → Option Text → Option Text → Type 0
InPlaceKind create old new = Unit
InPlaceKind delete old new = Unit
InPlaceKind modify old new = old ≡ new
InPlaceKind rename old new = Unit

abbrev pub InPlace : FilePatch → Type 0
InPlace patch = InPlaceKind patch.kind patch.old_path patch.new_path

module _ (host : Host) where
  resolve_fits :
      (kind : PatchKind) (old new : Option Text) (source target : Option FilePath)
      → FitsKind kind old new
      → InPlaceKind kind old new
      → resolve_under host old ≡ ok source
      → resolve_under host new ≡ ok target
      → FitsResolved kind source target
  unfolding resolve_under
  resolve_fits create old new source target f g h k =
      ok-injective (sym h ∙ ap (resolve_under host) f)
  resolve_fits delete old new source target f g h k =
      ok-injective (sym k ∙ ap (resolve_under host) f)
  resolve_fits modify old new source target f g h k =
      ok-injective (sym h ∙ ap (resolve_under host) g ∙ k)
  resolve_fits rename old new source target f g h k = tt

  by_kind-IsPrepared :
      (kind : PatchKind) (encoding : Text) (patch : FilePatch) (source target : Option FilePath)
      (files : Files) (item : PreparedFile)
      → patch.kind ≡ kind
      → FitsResolved kind source target
      → prepare_by_kind host kind encoding patch source target files ≡ ok item
      → IsPrepared files item
  unfolding prepare_by_kind
  by_kind-IsPrepared create encoding patch source target files item same fits h =
      prepare_new-IsPrepared host encoding patch target files item
        (subst (λ s. prepare_new host encoding patch s target files ≡ ok item) fits h)
  by_kind-IsPrepared modify encoding patch source target files item same fits h =
      prepare_existing-IsPrepared host modify encoding patch source target files item (λ e. cc) same
        fits h
  by_kind-IsPrepared delete encoding patch source target files item same fits h =
      prepare_existing-IsPrepared host delete encoding patch source target files item (λ e. cc) same
        fits h
  by_kind-IsPrepared rename encoding patch source target files item same fits h =
      prepare_existing-IsPrepared host rename encoding patch source target files item (λ e. cc) same
        fits h

  prepare-IsPrepared :
      (encoding : Option FilePath → Text) (files : Files) (patch : FilePatch) (item : PreparedFile)
      → FitsKind patch.kind patch.old_path patch.new_path
      → InPlace patch
      → prepare host encoding files patch ≡ ok item
      → IsPrepared files item
  unfolding prepare
  prepare-IsPrepared encoding files patch item fits in_place h =
      let (source, at, h1) = >>=-eq-ok (resolve_under host patch.old_path) _ h in
      let (target, at', h2) = >>=-eq-ok (resolve_under host patch.new_path) _ h1 in
      by_kind-IsPrepared patch.kind (encoding source) patch source target files item refl
        (resolve_fits patch.kind patch.old_path patch.new_path source target fits in_place at at')
        h2

  prepare_all-IsPrepared :
      (encoding : Option FilePath → Text) (files : Files) (patches : List FilePatch)
      (items : List PreparedFile)
      → All IsParsedFile patches
      → All InPlace patches
      → prepare_all host encoding files patches ≡ ok items
      → All (IsPrepared files) items
  unfolding prepare_all
  prepare_all-IsPrepared encoding files [] items parsed in_place h =
      subst (All (IsPrepared files)) (ok-injective h) tt
  prepare_all-IsPrepared encoding files (patch ∷ patches) items parsed in_place h =
      let (item, one, h1) = >>=-eq-ok (prepare host encoding files patch) _ h in
      let (others, more, h2) = >>=-eq-ok (prepare_all host encoding files patches) _ h1 in
      subst (All (IsPrepared files)) (ok-injective h2) (
        prepare-IsPrepared encoding files patch item parsed.0.fits in_place.0 one,
        prepare_all-IsPrepared encoding files patches others parsed.1 in_place.1 more,
      )

-- Unless the patch has been written, in a dry run or after an error at any of its writes or in the
-- validation, every file is as it was before, if each change in place has one path in its headers.
pub apply_patch_transaction_restores :
    (host : Host) (text : Text) (limits : PatchLimits) (encoding : Option FilePath → Text)
    (dry_run : Bool) (expected : List (Text × Text)) (fault : Option ℕ) (files files' : Files)
    (patches : PatchSet)
    → parse_unified_patch text limits ≡ ok patches
    → All InPlace patches.files
    → apply_patch_transaction host text limits encoding dry_run expected fault files
      ≡ ok (false, files')
    → (p : FilePath) → files' p ≡ files p
unfolding apply_patch_transaction commit
apply_patch_transaction_restores host text limits encoding dry_run expected fault files files'
      patches parsed in_place h p =
    let (patches', parsed', h1) = >>=-eq-ok (parse_unified_patch text limits) _ h in
    let same : patches' ≡ patches = ok-injective (sym parsed' ∙ parsed) in
    let (within, _, _) = parse_unified_patch-IsWithin text limits patches' parsed' in
    let (items, ready, h2) = >>=-eq-ok (prepare_all host encoding files patches'.files) _ h1 in
    let (_, h3) = require-eq-ok (all (meets_expected host expected) items) "hash_conflict" _ h2 in
    let prepared =
      prepare_all-IsPrepared host encoding files patches'.files items within.each
        (subst (λ q. All InPlace q.files) (sym same) in_place) ready in
    outcome dry_run fault items prepared (ok-injective h3)
  where
    outcome :
        (dry : Bool) (fails : Option ℕ) (items : List PreparedFile)
        → All (IsPrepared files) items
        → (if dry then (false, files) else commit fails items files) ≡ (false, files')
        → files' p ≡ files p
    outcome true fails items prepared e = ap (λ r. r.1 p) (sym e)
    outcome false none items prepared e = absurd (ground (arith, ap (λ r. r.0) e))
    outcome false (some n) items prepared e =
        ap (λ r. r.1 p) (sym e) ∙ commit_restores n items files p prepared
