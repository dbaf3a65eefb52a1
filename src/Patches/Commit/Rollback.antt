-- ===== src/Patches/Commit/Rollback.antt =====
-- The undoing of a transaction gives every file back, where its items were prepared from the files.
use computerpilot_mcp.Prelude.{
  ℕ, zero, suc, Bool, true, false, not, ◌&&◌, ◌||◌, List, [], ◌∷◌, ◌++◌, Option, none, some, ◌≡◌,
  ◌≢◌, refl, sym, ◌∙◌, arith, ◌==◌, ℕ_eq, list_eq, option_eq, list_beq_iff, option_beq_iff, take,
  all, All, any, Bool-cases, Option-cases, &&-true, inl, inr,
}
use computerpilot_mcp.Patches.Commit.{
  FilePath, Bytes, Files, PreparedFile, Write, write, unlink, move, run_write, run_writes,
  rename_writes, write_target, unlink_source, writes_by_kind, writes_of, unlink_some, write_back,
  restore_item, restore, commit,
}
use computerpilot_mcp.Patches.Parse.{PatchKind, create, modify, delete, rename}

-- What an item remembers of the files is what they held: the bytes at its source, and that nothing
-- was at its target if that is another path.
pub record IsPrepared (files : Files) (item : PreparedFile) : Type 0 where
  pub read : (p : FilePath) → item.source ≡ some p → (item.before ≡ files p) × (item.before ≢ none)
  pub absent : (p : FilePath) → item.target ≡ some p → item.source ≢ some p → files p ≡ none

abbrev touches : FilePath → PreparedFile → Bool
touches p item = item.source == some p || item.target == some p

abbrev avoids : FilePath → Write → Bool
avoids p (write q content) = not (p == q)
avoids p (unlink q) = not (p == q)
avoids p (move q r) = not (p == q) && not (p == r)

run_write-avoids :
    (p : FilePath) (w : Write) (files : Files) → avoids p w ≡ true → run_write w files p ≡ files p
run_write-avoids p (write q content) files h = ground arith
run_write-avoids p (unlink q) files h = ground arith
run_write-avoids p (move q r) files h = ground arith

run_writes-avoids :
    (p : FilePath) (n : ℕ) (ws : List Write) (files : Files)
    → all (avoids p) ws ≡ true
    → run_writes (take n ws) files p ≡ files p
run_writes-avoids p zero ws files h = refl
run_writes-avoids p (suc n) [] files h = refl
run_writes-avoids p (suc n) (w ∷ ws) files h =
    let (here, later) = &&-true (avoids p w) (all (avoids p) ws) h in
    run_writes-avoids p n ws (run_write w files) later ∙ run_write-avoids p w files here

same_path : (p q : FilePath) → ((some q == some p) ≡ false) → (p == q) ≡ false
same_path p q h = ground (arith, list_beq_iff p q, list_beq_iff q p)

unlink_source-avoids :
    (p : FilePath) (source : Option FilePath)
    → (source == some p) ≡ false
    → all (avoids p) (unlink_source source) ≡ true
unfolding unlink_source
unlink_source-avoids p none h = refl
unlink_source-avoids p (some q) h = ground (arith, same_path p q)

write_target-avoids :
    (p : FilePath) (target : Option FilePath) (after : Option Bytes)
    → (target == some p) ≡ false
    → all (avoids p) (write_target target after) ≡ true
unfolding write_target
write_target-avoids p none after h = refl
write_target-avoids p (some q) none h = refl
write_target-avoids p (some q) (some content) h = ground (arith, same_path p q)

rename_writes-avoids :
    (p : FilePath) (source target : Option FilePath) (before after : Option Bytes)
    → (source == some p) ≡ false
    → (target == some p) ≡ false
    → all (avoids p) (rename_writes source target before after) ≡ true
unfolding rename_writes
rename_writes-avoids p none target before after h k = refl
rename_writes-avoids p (some q) none before after h k = refl
rename_writes-avoids p (some q) (some r) none none h k =
    ground (arith, same_path p q, same_path p r)
rename_writes-avoids p (some q) (some r) (some b) none h k = refl
rename_writes-avoids p (some q) (some r) before (some a) h k =
    elim (Bool-cases (some a == before)) [
      | inl e ↦ rw e (ground (arith, same_path p q, same_path p r))
      | inr e ↦ rw e (ground (arith, same_path p q, same_path p r))
    ]

by_kind-avoids :
    (p : FilePath) (kind : PatchKind) (item : PreparedFile)
    → touches p item ≡ false
    → all (avoids p) (writes_by_kind kind item) ≡ true
unfolding writes_by_kind
by_kind-avoids p delete item h = unlink_source-avoids p item.source (ground arith)
by_kind-avoids p create item h = write_target-avoids p item.target item.after (ground arith)
by_kind-avoids p modify item h = write_target-avoids p item.target item.after (ground arith)
by_kind-avoids p rename item h =
    rename_writes-avoids p item.source item.target item.before item.after (ground arith)
      (ground arith)

all-append :
    (p : FilePath) (xs ys : List Write)
    → all (avoids p) xs ≡ true
    → all (avoids p) ys ≡ true
    → all (avoids p) (xs ++ ys) ≡ true
all-append p [] ys h k = k
all-append p (x ∷ xs) ys h k = ground (arith, all-append p xs ys)

writes_of-avoids :
    (p : FilePath) (items : List PreparedFile)
    → any (touches p) items ≡ false
    → all (avoids p) (writes_of items) ≡ true
unfolding writes_of
writes_of-avoids p [] h = refl
writes_of-avoids p (item ∷ items) h =
    all-append p (writes_by_kind item.patch.kind item) (writes_of items)
      (by_kind-avoids p item.patch.kind item (ground arith))
      (writes_of-avoids p items (ground arith))

abbrev restored : Option FilePath → Option FilePath → Option Bytes → Files → Files
restored source target before files =
    write_back source before (unlink_some target (unlink_some source files))

restored-avoids :
    (p : FilePath) (source target : Option FilePath) (before : Option Bytes) (files : Files)
    → (source == some p) ≡ false
    → (target == some p) ≡ false
    → restored source target before files p ≡ files p
restored-avoids p none none before files h k = refl
restored-avoids p none (some r) before files h k = ground (arith, same_path p r)
restored-avoids p (some q) none none files h k = ground (arith, same_path p q)
restored-avoids p (some q) none (some b) files h k = ground (arith, same_path p q)
restored-avoids p (some q) (some r) none files h k = ground (arith, same_path p q, same_path p r)
restored-avoids p (some q) (some r) (some b) files h k =
    ground (arith, same_path p q, same_path p r)

-- The path of the source gets its bytes back, and another target is empty again.
restored_source :
    (p : FilePath) (target : Option FilePath) (before : Bytes) (files : Files)
    → restored (some p) target (some before) files p ≡ some before
restored_source p target before files = ground (arith, list_beq_iff p p)

restored_target :
    (p : FilePath) (source : Option FilePath) (before : Option Bytes) (files : Files)
    → (source == some p) ≡ false
    → restored source (some p) before files p ≡ none
restored_target p none before files h = ground (arith, list_beq_iff p p)
restored_target p (some q) none files h = ground (arith, list_beq_iff p p, same_path p q)
restored_target p (some q) (some b) files h = ground (arith, list_beq_iff p p, same_path p q)

some_eq : (o : Option FilePath) (p : FilePath) → (o == some p) ≡ true → o ≡ some p
some_eq o p h = (option_beq_iff o (some p)).0 h

module _ (files : Files) (p : FilePath) (item : PreparedFile) where
  item_restores :
      (now : Files)
      → IsPrepared files item
      → touches p item ≡ true
      → restore_item item now p ≡ files p
  unfolding restore_item
  item_restores now prepared h = elim (Bool-cases (item.source == some p)) [
    | inl at_source ↦
        let e = some_eq item.source p at_source in
        let (same, present) = prepared.read p e in
        elim (Option-cases item.before) [
          | inl missing ↦ absurd (present missing)
          | inr (b, kept) ↦ rw (e, kept) (restored_source p item.target b now) ∙ sym kept ∙ same
        ]
    | inr elsewhere ↦
        let at_target : (item.target == some p) ≡ true = ground (arith, elsewhere) in
        let e = some_eq item.target p at_target in
        let other : item.source ≢ some p =
          λ q. ground (arith, elsewhere, option_beq_iff item.source (some p)) in
        rw e (restored_target p item.source item.before now elsewhere)
        ∙ sym (prepared.absent p e other)
  ]

  item_leaves : (now : Files) → touches p item ≡ false → restore_item item now p ≡ now p
  unfolding restore_item
  item_leaves now h =
      restored-avoids p item.source item.target item.before now (ground arith) (ground arith)

restore_touched :
    (files now : Files) (p : FilePath) (items : List PreparedFile)
    → All (IsPrepared files) items
    → any (touches p) items ≡ true
    → restore items now p ≡ files p
unfolding restore
restore_touched files now p [] prepared h = cc
restore_touched files now p (item ∷ items) prepared h = elim (Bool-cases (touches p item)) [
  | inl e ↦ item_restores files p item (restore items now) prepared.0 e
  | inr e ↦
      item_leaves files p item (restore items now) e
      ∙ restore_touched files now p items prepared.1 (ground (arith, e))
]

restore_untouched :
    (now : Files) (p : FilePath) (items : List PreparedFile)
    → any (touches p) items ≡ false
    → restore items now p ≡ now p
unfolding restore
restore_untouched now p [] h = refl
restore_untouched now p (item ∷ items) h =
    item_leaves now p item (restore items now) (ground arith)
    ∙ restore_untouched now p items (ground arith)

-- A commit that fails after any number of writes leaves every file as it was, if its items were
-- prepared from the files.
pub commit_restores :
    (n : ℕ) (items : List PreparedFile) (files : Files) (p : FilePath)
    → All (IsPrepared files) items
    → (commit (some n) items files).1 p ≡ files p
unfolding commit
commit_restores n items files p prepared = elim (Bool-cases (any (touches p) items)) [
  | inl e ↦ restore_touched files _ p items prepared e
  | inr e ↦
      restore_untouched (run_writes (take n (writes_of items)) files) p items e
      ∙ run_writes-avoids p n (writes_of items) files (writes_of-avoids p items e)
]
