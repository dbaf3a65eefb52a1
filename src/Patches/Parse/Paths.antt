-- ===== src/Patches/Parse/Paths.antt =====
-- The paths that the parser lets through stay below the root that they are resolved under.
use mathlib.Core.Path.{subst}
use computerpilot_mcp.Prelude.{
  ℕ, false, not, ◌||◌, List, [], ◌∷◌, Option, none, some, ◌≡◌, ◌≢◌, refl, arith, ◌==◌, ℕ_eq,
  list_eq, list_beq_iff, contains, keep_if, drop, All, Bool-cases, inl, inr, if◌then◌else◌,
}
use computerpilot_mcp.Prelude.Text.{split, push_char, codes}
use computerpilot_mcp.Prelude.Result.{ok, >>=-eq-ok, ok-injective}
use computerpilot_mcp.Patches.{Text}
use computerpilot_mcp.Patches.Parse.{starts_with}
use computerpilot_mcp.Patches.Path.{
  dot, dot_dot, path_parts, as_posix, is_unsafe, checked_path, patch_path, patch_path_or_null,
  header_value,
}

-- A name of one level, which is neither this directory nor the one above it.
pub record IsName (part : Text) : Type 0 where
  pub some_character : part ≢ []
  pub not_dot : part ≢ dot
  pub not_dot_dot : part ≢ dot_dot
  pub no_slash : contains part b'/' ≡ false
  pub no_backslash : contains part 92 ≡ false
  pub no_null : contains part 0 ≡ false

abbrev pub IsSafePath : Text → Type 0
IsSafePath path = (parts : List Text) × (path ≡ as_posix parts) × All IsName parts

push_char-All :
    (c a : ℕ) (parts : List Text)
    → (a == c) ≡ false
    → All (λ part. contains part a ≡ false) parts
    → All (λ part. contains part a ≡ false) (push_char c parts)
push_char-All c a [] h k = ground arith
push_char-All c a (part ∷ parts) h k = (ground arith, k.1)

split-All :
    (a : ℕ) (cs : Text)
    → contains cs a ≡ false
    → All (λ part. contains part a ≡ false) (split b'/' cs)
split-All a [] h = (refl, tt)
split-All a (c ∷ cs) h = elim (Bool-cases (c == b'/')) [
  | inl slash ↦ rw slash (refl, split-All a cs (ground arith))
  | inr other ↦
      rw other (push_char-All c a (split b'/' cs) (ground arith) (split-All a cs (ground arith)))
]

split-no_slash : (cs : Text) → All (λ part. contains part b'/' ≡ false) (split b'/' cs)
split-no_slash [] = (refl, tt)
split-no_slash (c ∷ cs) = elim (Bool-cases (c == b'/')) [
  | inl slash ↦ rw slash (refl, split-no_slash cs)
  | inr other ↦
      rw other (push_char-All c b'/' (split b'/' cs) (ground (arith, other)) (split-no_slash cs))
]

names :
    (parts : List Text)
    → All (λ part. contains part b'/' ≡ false) parts
    → All (λ part. contains part 92 ≡ false) parts
    → All (λ part. contains part 0 ≡ false) parts
    → contains (keep_if (λ part. not (part == [] || part == dot)) parts) dot_dot ≡ false
    → All IsName (keep_if (λ part. not (part == [] || part == dot)) parts)
names [] slash backslash null up = tt
names (part ∷ parts) slash backslash null up = elim (Bool-cases (part == [] || part == dot)) [
  | inl dropped ↦ rw dropped (names parts slash.1 backslash.1 null.1 (rw dropped at up))
  | inr kept ↦
      let up' : contains (part ∷ keep_if (λ part. not (part == [] || part == dot)) parts) dot_dot
          ≡ false =
        rw kept at up in
      rw kept (
        record {
          some_character = λ e. ground (arith, kept, list_beq_iff part []);
          not_dot = λ e. ground (arith, kept, list_beq_iff part dot);
          not_dot_dot = λ e. ground (arith, up', list_beq_iff dot_dot part);
          no_slash = slash.0;
          no_backslash = backslash.0;
          no_null = null.0;
        },
        names parts slash.1 backslash.1 null.1 (ground (arith, up')),
      )
]

safe_parts : (value : Text) → is_unsafe value ≡ false → All IsName (path_parts value)
unfolding is_unsafe path_parts
safe_parts value h =
    names (split b'/' value) (split-no_slash value) (split-All 92 value (ground arith))
      (split-All 0 value (ground arith)) (ground arith)

pub checked_path-IsSafePath : (value path : Text) → checked_path value ≡ ok path → IsSafePath path
unfolding checked_path
checked_path-IsSafePath value path h =
    let relative =
      if starts_with (codes "a/") value || starts_with (codes "b/") value
      then drop 2 value
      else value in
    elim (Bool-cases (is_unsafe relative)) [
      | inl unsafe ↦ absurd (ground (arith, unsafe))
      | inr safe ↦ (path_parts relative, ground (arith, safe), safe_parts relative safe)
    ]

-- A path that the parser takes from a patch has no name in it that leads up, and is not absolute.
pub patch_path-IsSafePath : (value path : Text) → patch_path value ≡ ok path → IsSafePath path
unfolding patch_path
patch_path-IsSafePath value path h = checked_path-IsSafePath (header_value value) path h

abbrev pub IsSafe : Option Text → Type 0
IsSafe none = Unit
IsSafe (some path) = IsSafePath path

pub patch_path_or_null-IsSafe :
    (value : Text) (path : Option Text) → patch_path_or_null value ≡ ok path → IsSafe path
unfolding patch_path_or_null
patch_path_or_null-IsSafe value path h =
    elim (Bool-cases (header_value value == codes "/dev/null")) [
      | inl null ↦ let e : ok none ≡ ok path = rw null at h in subst IsSafe (ok-injective e) tt
      | inr other ↦
          let (p, checked, e) = >>=-eq-ok (checked_path (header_value value)) _ (rw other at h) in
          subst IsSafe (ok-injective e) (checked_path-IsSafePath (header_value value) p checked)
    ]
