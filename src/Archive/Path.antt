-- ===== src/Archive/Path.antt =====
-- crates/archive-trait/src/extract/path.rs: `NormalizedPath`, a text whose parts a slash separates.
pub mod Split
pub mod Stack
pub mod Prefixes
use tar_codec.Base.{
  ℕ, Bool, true, false, not, ◌||◌, Option, none, some, List, [], ◌∷◌, ◌++◌, Bytes, eq_bytes, ◌==◌,
  if◌then◌else◌,
}
use tar_codec.Text.{is_empty, starts_with, split, rsplit_once, strip_prefix}

abbrev pub NormalizedPath : Type 0
NormalizedPath = Bytes

abbrev pub filter {ℓ} : {A : Type ℓ} → (A → Bool) → List A → List A
filter p [] = []
filter p (x ∷ xs) = let rest = filter p xs in if p x then x ∷ rest else rest

-- A list without its last element: an iterator behind `next_back`.
abbrev pub init {ℓ} : {A : Type ℓ} → List A → List A
init [] = []
init (x ∷ xs) = elim xs [ [] ↦ [] | y ∷ ys ↦ x ∷ init xs ]

unfoldable pub components : NormalizedPath → List Bytes
unfolding split
components path = filter (λ component. not (is_empty component)) (split b'/' path)

unfoldable pub parent_components : NormalizedPath → List Bytes
unfolding components
parent_components path = init (components path)

unfoldable pub parent : NormalizedPath → NormalizedPath
unfolding rsplit_once
parent path = elim (rsplit_once b'/' path) [ some (l, r) ↦ l | none ↦ [] ]

-- `rsplit(c).next()`
unfoldable pub last_part : ℕ → Bytes → Bytes
unfolding rsplit_once
last_part c text = elim (rsplit_once c text) [ some (l, r) ↦ r | none ↦ text ]

unfoldable pub file_name : NormalizedPath → Option Bytes
unfolding last_part
file_name path = if is_empty path then none else some (last_part b'/' path)

unfoldable pub push : NormalizedPath → Bytes → NormalizedPath
push path component = if is_empty path then component else path ++ b'/' ∷ component

-- `pop`, with its answer; `rfind` and `truncate` keep what stands before the last slash.
unfoldable pub pop : NormalizedPath → NormalizedPath × Bool
unfolding rsplit_once
pop path = elim (rsplit_once b'/' path) [
  | some (l, r) ↦ (l, true)
  | none ↦ if is_empty path then (path, false) else ([], true)
]

unfoldable pub extend : NormalizedPath → List Bytes → NormalizedPath
unfolding push
extend path [] = path
extend path (component ∷ rest) = extend (push path component) rest

unfoldable pub path_starts_with : NormalizedPath → NormalizedPath → Bool
unfolding strip_prefix eq_bytes
path_starts_with path base =
    if is_empty base
    then true
    else eq_bytes path base
      || elim (strip_prefix base path) [ none ↦ false | some suffix ↦ starts_with b'/' suffix ]
