-- ===== src/Archive/Decode/Symlinks.antt =====
-- `validate_symlink_target` of crates/archive-trait/src/extract/path.rs, on stacks of components.
use mathlib.Core.List.{reverse_aux}
use tar_codec.Base.{
  ℕ, ◌==◌, ==_iff, suc, drop, length, ◌≤◌, true, false, List, [], ◌∷◌, Bytes, Result, ok, err,
  ok_injective, ◌≡◌, refl, sym, ◌∙◌, arith, All, inl, inr, subst,
}
use tar_codec.Archive.{ExtractError}
use tar_codec.Archive.Path.{NormalizedPath}
use tar_codec.Archive.Path.Stack.{Stack, Proper, render, pop-push}
use tar_codec.Archive.Decode.{symlink_parts}
use tar_codec.Archive.Decode.Walk.{part_of-cases, pop-empty, names, ups, straight}

pub err-ne-ok : {A E : Type 0} (e : E) (a : A) → ◌≡◌ {A = Result A E} (err e) (ok a) → ⊥
err-ne-ok e a h = cc

-- The errors of the loop.
abbrev pub ambiguous : {E : Type 0} → ℕ → Bytes → ExtractError E
ambiguous position value =
    ExtractError.unsafe_path position "symbolic-link target" value
      "contains ambiguous parent-directory traversal"

abbrev pub escapes : {E : Type 0} → ℕ → Bytes → ExtractError E
escapes position value =
    ExtractError.unsafe_path position "symbolic-link target" value "escapes the destination root"

-- Behind a name the loop takes names alone.
symlink_parts-eq-ok_seen :
    {E : Type 0} (position : ℕ) (value : Bytes) (parts : List Bytes) (stack : Stack)
    (path : NormalizedPath)
    → symlink_parts {E = E} position value parts true (render stack) ≡ ok path
    → (ups parts ≡ 0) × (path ≡ render (reverse_aux (names parts) stack))
unfolding symlink_parts
symlink_parts-eq-ok_seen position value [] stack path e =
    (refl, sym (ok_injective (render stack) path e))
symlink_parts-eq-ok_seen {E} position value (part ∷ parts) stack path e =
    elim (part_of-cases part) [
      | inl here ↦
          rw (here, ups, names)
            (symlink_parts-eq-ok_seen position value parts stack path
              (sym (rw (here, symlink_parts) refl) ∙ e))
      | inr (inl up) ↦
          absurd (err-ne-ok (ambiguous position value) path (sym (rw (up, symlink_parts) refl) ∙ e))
      | inr (inr (is_name, some_bytes)) ↦
          rw (is_name, ups, names)
            (symlink_parts-eq-ok_seen position value parts (part ∷ stack) path
              (sym (rw (is_name, symlink_parts) refl) ∙ e))
    ]

below_root : (n : ℕ) → suc n ≤ 0 → ⊥
below_root n h = omega (arith, h)

suc-ne-zero : (n : ℕ) → suc n ≡ 0 → ⊥
suc-ne-zero n e = omega (arith, e)

-- Where no part goes up, nothing is taken off the stack.
below :
    (parts : List Bytes) (stack : Stack) (part : Bytes) (path : NormalizedPath)
    → (ups parts ≡ 0) × (path ≡ render (reverse_aux (names parts) (part ∷ stack)))
    → ((ups parts == 0) ≡ true)
      × (ups parts ≤ length stack)
      × (path ≡ render (reverse_aux (names parts) (part ∷ drop (ups parts) stack)))
below parts stack part path (level, e) = (rw level refl, omega (arith, level), rw level e)

-- The loop goes up first, and then down the names.
pub symlink_parts-eq-ok :
    {E : Type 0} (position : ℕ) (value : Bytes) (parts : List Bytes) (stack : Stack)
    (path : NormalizedPath)
    → All Proper stack
    → symlink_parts {E = E} position value parts false (render stack) ≡ ok path
    → (straight parts ≡ true)
      × (ups parts ≤ length stack)
      × (path ≡ render (reverse_aux (names parts) (drop (ups parts) stack)))
unfolding symlink_parts
symlink_parts-eq-ok position value [] stack path proper e =
    (refl, omega arith, sym (ok_injective (render stack) path e))
symlink_parts-eq-ok {E} position value (part ∷ parts) [] path proper e = elim (part_of-cases part) [
  | inl here ↦
      rw (here, straight, ups, names)
        (symlink_parts-eq-ok position value parts [] path proper
          (sym (rw (here, symlink_parts) refl) ∙ e))
  | inr (inl up) ↦
      absurd
        (err-ne-ok (escapes position value) path (sym (rw (up, symlink_parts, pop-empty) refl) ∙ e))
  | inr (inr (is_name, some_bytes)) ↦
      rw (is_name, straight, ups, names)
        (below parts [] part path (
          symlink_parts-eq-ok_seen position value parts (part ∷ []) path
            (sym (rw (is_name, symlink_parts) refl) ∙ e)))
]
symlink_parts-eq-ok {E} position value (part ∷ parts) (c ∷ stack) path proper e =
    elim (part_of-cases part) [
      | inl here ↦
          rw (here, straight, ups, names)
            (symlink_parts-eq-ok position value parts (c ∷ stack) path proper
              (sym (rw (here, symlink_parts) refl) ∙ e))
      | inr (inl up) ↦
          let (ahead, deep, whole) = symlink_parts-eq-ok position value parts stack path proper.1 (
            sym (
              rw (up, symlink_parts, pop-push (render stack) c proper.0)
                (rw (pop-push (render stack) c proper.0) refl))
            ∙ e) in
          rw (up, straight, ups, names) (ahead, omega (arith, deep), whole)
      | inr (inr (is_name, some_bytes)) ↦
          rw (is_name, straight, ups, names)
            (below parts (c ∷ stack) part path (
              symlink_parts-eq-ok_seen position value parts (part ∷ c ∷ stack) path
                (sym (rw (is_name, symlink_parts) refl) ∙ e)))
    ]

seen-symlink_parts :
    {E : Type 0} (position : ℕ) (value : Bytes) (parts : List Bytes) (stack : Stack)
    → ups parts ≡ 0
    → symlink_parts {E = E} position value parts true (render stack)
      ≡ ok (render (reverse_aux (names parts) stack))
unfolding symlink_parts
seen-symlink_parts position value [] stack level = refl
seen-symlink_parts position value (part ∷ parts) stack level = elim (part_of-cases part) [
  | inl here ↦
      rw (here, symlink_parts, names)
        (seen-symlink_parts position value parts stack (sym (rw (here, ups) refl) ∙ level))
  | inr (inl up) ↦ absurd (suc-ne-zero (ups parts) (sym (rw (up, ups) refl) ∙ level))
  | inr (inr (is_name, some_bytes)) ↦
      rw (is_name, symlink_parts, names)
        (seen-symlink_parts position value parts (part ∷ stack)
          (sym (rw (is_name, ups) refl) ∙ level))
]

pub straight-symlink_parts :
    {E : Type 0} (position : ℕ) (value : Bytes) (parts : List Bytes) (stack : Stack)
    → All Proper stack
    → straight parts ≡ true
    → ups parts ≤ length stack
    → symlink_parts {E = E} position value parts false (render stack)
      ≡ ok (render (reverse_aux (names parts) (drop (ups parts) stack)))
unfolding symlink_parts
straight-symlink_parts position value [] stack proper ahead deep = refl
straight-symlink_parts position value (part ∷ parts) [] proper ahead deep =
    elim (part_of-cases part) [
      | inl here ↦
          rw (here, symlink_parts, names, ups)
            (straight-symlink_parts position value parts [] proper
              (sym (rw (here, straight) refl) ∙ ahead)
              (subst (λ n. n ≤ length {A = Bytes} []) (rw (here, ups) refl) deep))
      | inr (inl up) ↦ absurd (below_root (ups parts) (subst (λ n. n ≤ 0) (rw (up, ups) refl) deep))
      | inr (inr (is_name, some_bytes)) ↦
          let level = (==_iff (ups parts) 0).0 (sym (rw (is_name, straight) refl) ∙ ahead) in
          rw (is_name, symlink_parts, names, ups)
            (rw level (seen-symlink_parts position value parts (part ∷ []) level))
    ]
straight-symlink_parts position value (part ∷ parts) (c ∷ stack) proper ahead deep =
    elim (part_of-cases part) [
      | inl here ↦
          rw (here, symlink_parts, names, ups)
            (straight-symlink_parts position value parts (c ∷ stack) proper
              (sym (rw (here, straight) refl) ∙ ahead)
              (subst (λ n. n ≤ length (c ∷ stack)) (rw (here, ups) refl) deep))
      | inr (inl up) ↦
          let deep' : suc (ups parts) ≤ suc (length stack) =
            subst (λ n. n ≤ suc (length stack)) (rw (up, ups) refl) deep in
          rw (up, symlink_parts, pop-push (render stack) c proper.0, names, ups)
            (rw (pop-push (render stack) c proper.0) (
              straight-symlink_parts position value parts stack proper.1
                (sym (rw (up, straight) refl) ∙ ahead) (omega (arith, deep'))))
      | inr (inr (is_name, some_bytes)) ↦
          let level = (==_iff (ups parts) 0).0 (sym (rw (is_name, straight) refl) ∙ ahead) in
          rw (is_name, symlink_parts, names, ups)
            (rw level (seen-symlink_parts position value parts (part ∷ (c ∷ stack)) level))
    ]
