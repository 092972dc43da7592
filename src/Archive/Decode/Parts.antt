-- ===== src/Archive/Decode/Parts.antt =====
-- The names that a path may have below the root of an extraction, said without the loops of
-- crates/archive-trait/src/extract/path.rs, and what those loops take for one.
use mathlib.Core.List.{reverse_aux}
use tar_codec.Base.{
  true, false, ◌||◌, List, [], ◌∷◌, Bytes, eq_bytes, eq_bytes_iff, if◌then◌else◌, ◌≡◌, ◌≢◌, refl,
  sym, ◌∙◌, All, Bool-cases, ◌⊎◌, inl, inr,
}
use tar_codec.Text.{codes, is_empty}
use tar_codec.Archive.Path.{NormalizedPath}
use tar_codec.Archive.Path.Stack.{Stack, Proper, render}
use tar_codec.Archive.Decode.{Part, part_of}

-- The name of an entry in a directory: not empty, without `/`, and neither `.` nor `..`.
abbrev pub IsName : Bytes → Type 0
IsName c = Proper c × (c ≢ codes ".") × (c ≢ codes "..")

-- A path below the root: a stack of names, none of them empty, `.` or `..`, and none with a `/`.
abbrev pub IsWithin : NormalizedPath → Type 0
IsWithin path = (cs : Stack) × All IsName cs × (path ≡ render cs)

-- The parts that are neither empty nor `.`.
abbrev pub kept : List Bytes → List Bytes
kept [] = []
kept (part ∷ parts) =
    if is_empty part || eq_bytes part (codes ".") then kept parts else part ∷ kept parts

-- How a part is taken, by what it is.
abbrev pub TakenAs : Bytes → Type 0
TakenAs part =
    (((is_empty part || eq_bytes part (codes ".")) ≡ true)
      × (part ≢ codes "..")
      × (part_of part ≡ Part.here))
    ⊎ ((part ≡ codes "..") × (part_of part ≡ Part.up))
    ⊎ (((is_empty part || eq_bytes part (codes ".")) ≡ false)
        × (is_empty part ≡ false)
        × (part ≢ codes ".")
        × (part ≢ codes "..")
        × (part_of part ≡ Part.name part))

true-ne-false : true ≡ false → ⊥
true-ne-false e = cc

differs : (a b : Bytes) → eq_bytes a b ≡ false → a ≢ b
differs a b e same = true-ne-false (sym ((eq_bytes_iff a b).1 same) ∙ e)

dot-ne-dots : codes "." ≢ codes ".."
dot-ne-dots e = cc

pub part_of-TakenAs : (part : Bytes) → TakenAs part
unfolding part_of
part_of-TakenAs [] = inl (refl, (λ e. cc), refl)
part_of-TakenAs (b ∷ bs) = elim (Bool-cases (eq_bytes (b ∷ bs) (codes "."))) [
  | inl dot ↦
      let same = (eq_bytes_iff (b ∷ bs) (codes ".")).0 dot in
      inl (dot, (λ e. dot-ne-dots (sym same ∙ e)), rw dot refl)
  | inr other ↦ elim (Bool-cases (eq_bytes (b ∷ bs) (codes ".."))) [
    | inl dots ↦ inr (inl ((eq_bytes_iff (b ∷ bs) (codes "..")).0 dots, rw (other, dots) refl))
    | inr name ↦ inr (
        inr (
          other,
          refl,
          differs (b ∷ bs) (codes ".") other,
          differs (b ∷ bs) (codes "..") name,
          rw (other, name) refl,
        ))
  ]
]

pub All-Proper : (cs : Stack) → All IsName cs → All Proper cs
All-Proper [] h = tt
All-Proper (c ∷ cs) h = (h.0.0, All-Proper cs h.1)

pub All-reverse_aux :
    {A : Type 0} (P : A → Type 0) (xs ys : List A) → All P xs → All P ys → All P (reverse_aux xs ys)
All-reverse_aux P [] ys hx hy = hy
All-reverse_aux P (x ∷ xs) ys hx hy = All-reverse_aux P xs (x ∷ ys) hx.1 (hx.0, hy)
