-- ===== src/Archive/Decode/Walk.antt =====
-- The loops of crates/archive-trait/src/extract/path.rs over the parts of a text, as walks of a stack
-- of components.
use mathlib.Core.Option.{map, none-ne-some}
use tar_codec.Base.{
  ℕ, ◌==◌, suc, Bool, true, false, Option, none, some, List, [], ◌∷◌, Bytes, contains, eq_bytes,
  ok_or, ◌≡◌, refl, sym, ◌∙◌, All, Bool-cases, ◌⊎◌, inl, inr, subst, some-injective,
}
use tar_codec.Text.{String, codes, is_empty, rsplit_once}
use tar_codec.Archive.{ExtractError}
use tar_codec.Archive.Path.{pop}
use tar_codec.Archive.Path.Stack.{Stack, Proper, render, pop-push}
use tar_codec.Archive.Decode.{Part, part_of, resolve_parts}

-- A part is a component without a separator.
abbrev pub Plain : Bytes → Type 0
Plain part = contains b'/' part ≡ false

-- One part of a link target, taken from a stack of components; no parent is above the root.
abbrev pub step : Part → Stack → Option Stack
step Part.here stack = some stack
step Part.up [] = none
step Part.up (c ∷ stack) = some stack
step (Part.name c) stack = some (c ∷ stack)

abbrev pub walk : List Bytes → Stack → Option Stack
walk [] stack = some stack
walk (part ∷ parts) stack = elim (step (part_of part) stack) [
  | none ↦ none
  | some next ↦ walk parts next
]

pub part_of-cases :
    (part : Bytes)
    → (part_of part ≡ Part.here)
      ⊎ ((part_of part ≡ Part.up) ⊎ ((part_of part ≡ Part.name part) × (is_empty part ≡ false)))
unfolding part_of
part_of-cases [] = inl refl
part_of-cases (b ∷ bs) = elim (Bool-cases (eq_bytes (b ∷ bs) (codes "."))) [
  | inl dot ↦ inl (rw dot refl)
  | inr not_dot ↦ elim (Bool-cases (eq_bytes (b ∷ bs) (codes ".."))) [
    | inl dots ↦ inr (inl (rw (not_dot, dots) refl))
    | inr not_dots ↦ inr (inr (rw (not_dot, not_dots) refl, refl))
  ]
]

pub pop-empty : pop [] ≡ ([], false)
unfolding pop rsplit_once
pop-empty = refl

-- The loop of `resolve_link_target` is the walk, and an error where the walk leaves the root.
pub resolve_parts-walk :
    {E : Type 0} (position : ℕ) (context : String) (value : Bytes) (parts : List Bytes)
    (stack : Stack)
    → All Plain parts
    → All Proper stack
    → resolve_parts {E = E} position context value parts (render stack)
      ≡ ok_or
          (map render (walk parts stack))
          (ExtractError.unsafe_path position context value "escapes the destination root")
unfolding resolve_parts
resolve_parts-walk position context value [] stack plain proper = refl
resolve_parts-walk position context value (part ∷ parts) [] plain proper =
    elim (part_of-cases part) [
      | inl here ↦
          rw (here, resolve_parts, walk)
            (resolve_parts-walk position context value parts [] plain.1 proper)
      | inr (inl up) ↦ rw (up, resolve_parts, pop-empty, walk) refl
      | inr (inr (is_name, some_bytes)) ↦
          rw (is_name, resolve_parts, walk)
            (resolve_parts-walk position context value parts (part ∷ []) plain.1
              ((some_bytes, plain.0), proper))
    ]
resolve_parts-walk position context value (part ∷ parts) (c ∷ stack) plain proper =
    elim (part_of-cases part) [
      | inl here ↦
          rw (here, resolve_parts, walk)
            (resolve_parts-walk position context value parts (c ∷ stack) plain.1 proper)
      | inr (inl up) ↦
          rw (up, resolve_parts, pop-push (render stack) c proper.0, walk)
            (rw (pop-push (render stack) c proper.0)
              (resolve_parts-walk position context value parts stack plain.1 proper.1))
      | inr (inr (is_name, some_bytes)) ↦
          rw (is_name, resolve_parts, walk)
            (resolve_parts-walk position context value parts (part ∷ (c ∷ stack)) plain.1
              ((some_bytes, plain.0), proper))
    ]

-- The walk ends on proper components.
pub walk-Proper :
    (parts : List Bytes) (stack end : Stack)
    → All Plain parts
    → All Proper stack
    → walk parts stack ≡ some end
    → All Proper end
walk-Proper [] stack end plain proper e = subst (All Proper) (some-injective stack end e) proper
walk-Proper (part ∷ parts) [] end plain proper e = elim (part_of-cases part) [
  | inl here ↦ walk-Proper parts [] end plain.1 proper (sym (rw (here, walk) refl) ∙ e)
  | inr (inl up) ↦ absurd (none-ne-some end (sym (rw (up, walk) refl) ∙ e))
  | inr (inr (is_name, some_bytes)) ↦
      walk-Proper parts (part ∷ []) end plain.1 ((some_bytes, plain.0), proper)
        (sym (rw (is_name, walk) refl) ∙ e)
]
walk-Proper (part ∷ parts) (c ∷ stack) end plain proper e = elim (part_of-cases part) [
  | inl here ↦ walk-Proper parts (c ∷ stack) end plain.1 proper (sym (rw (here, walk) refl) ∙ e)
  | inr (inl up) ↦ walk-Proper parts stack end plain.1 proper.1 (sym (rw (up, walk) refl) ∙ e)
  | inr (inr (is_name, some_bytes)) ↦
      walk-Proper parts (part ∷ c ∷ stack) end plain.1 ((some_bytes, plain.0), proper)
        (sym (rw (is_name, walk) refl) ∙ e)
]

-- The names among the parts, and how many of them go up.
abbrev pub names : List Bytes → List Bytes
names [] = []
names (part ∷ parts) = elim (part_of part) [ Part.name c ↦ c ∷ names parts | _ ↦ names parts ]

abbrev pub ups : List Bytes → ℕ
ups [] = 0
ups (part ∷ parts) = elim (part_of part) [ Part.up ↦ suc (ups parts) | _ ↦ ups parts ]

-- No part goes up behind a name.
abbrev pub straight : List Bytes → Bool
straight [] = true
straight (part ∷ parts) = elim (part_of part) [ Part.name c ↦ ups parts == 0 | _ ↦ straight parts ]
