-- ===== src/Claims/Path.antt =====
-- The part of Python's posixpath that the claims compare by: `normcase` is the identity there,
-- `normpath` drops empty and `.` components and resolves `..`, `commonpath` keeps the components
-- that two paths share. A normalised path is its leading slashes and its components; without
-- either it is the text ".".
use computerpilot_mcp.Prelude.{
  ℕ, String, Bool, true, false, not, ◌&&◌, ◌||◌, List, [], ◌∷◌, Option, none, some, ◌==◌, ℕ_eq,
  list_eq, if◌then◌else◌,
}
use computerpilot_mcp.Prelude.Text.{codes, split}

pub record NormPath : Type 0 where
  pub slashes : ℕ
  pub comps : List (List ℕ)

-- The leading slashes that POSIX keeps: one or two; three or more are one.
abbrev leading_slashes : List ℕ → ℕ
leading_slashes [] = 0
leading_slashes (a ∷ []) = if a == b'/' then 1 else 0
leading_slashes (a ∷ b ∷ []) = if a == b'/' then (if b == b'/' then 2 else 1) else 0
leading_slashes (a ∷ b ∷ c ∷ _) =
    if a == b'/' then (if b == b'/' && not (c == b'/') then 2 else 1) else 0

abbrev dot : List ℕ
dot = b'.' ∷ []

abbrev dot_dot : List ℕ
dot_dot = b'.' ∷ b'.' ∷ []

-- One turn of the loop of `normpath`; of the components kept so far the last one comes first.
abbrev push_comp : ℕ → List (List ℕ) → List ℕ → List (List ℕ)
push_comp slashes [] comp = if comp == dot_dot && not (slashes == 0) then [] else comp ∷ []
push_comp slashes (last ∷ before) comp =
    if not (comp == dot_dot) || last == dot_dot then comp ∷ last ∷ before else before

abbrev norm_comps : ℕ → List (List ℕ) → List (List ℕ) → List (List ℕ)
norm_comps slashes kept [] = kept
norm_comps slashes kept (comp ∷ comps) =
    norm_comps slashes (if comp == [] || comp == dot then kept else push_comp slashes kept comp)
      comps

abbrev reverse_onto : List (List ℕ) → List (List ℕ) → List (List ℕ)
reverse_onto [] acc = acc
reverse_onto (x ∷ xs) acc = reverse_onto xs (x ∷ acc)

-- os.path.normcase(os.path.normpath(path))
unfoldable pub normpath : String → NormPath
normpath path =
    let slashes = leading_slashes (codes path) in
    record {
      slashes = slashes;
      comps = reverse_onto (norm_comps slashes [] (split b'/' (codes path))) [];
    }

-- left == right, of normalised paths
unfoldable pub same_path : NormPath → NormPath → Bool
same_path left right = left.slashes == right.slashes && left.comps == right.comps

-- The components that two paths share.
unfoldable pub common_prefix : List (List ℕ) → List (List ℕ) → List (List ℕ)
common_prefix [] ys = []
common_prefix (x ∷ xs) [] = []
common_prefix (x ∷ xs) (y ∷ ys) = let rest = common_prefix xs ys in if x == y then x ∷ rest else []

unfoldable pub is_absolute : NormPath → Bool
is_absolute p = not (p.slashes == 0)

-- What `commonpath` returns: at most one leading slash, and the shared components.
pub record CommonPath : Type 0 where
  pub absolute : Bool
  pub comps : List (List ℕ)

-- os.path.commonpath([left, right]); `none` is the ValueError for an absolute path beside a
-- relative one.
unfoldable pub commonpath : NormPath → NormPath → Option CommonPath
unfolding is_absolute common_prefix
commonpath left right =
    if is_absolute left && is_absolute right
    then some (record { absolute = true; comps = common_prefix left.comps right.comps })
    else if not (is_absolute left) && not (is_absolute right)
    then some (record { absolute = false; comps = common_prefix left.comps right.comps })
    else none

-- common == path. The text of an absolute path has its own slashes, and that of a relative one
-- without components is "." and not "".
unfoldable pub common_is : CommonPath → NormPath → Bool
common_is common path =
    (if common.absolute then path.slashes == 1 else path.slashes == 0 && not (path.comps == []))
    && common.comps == path.comps
