-- ===== src/Archive/Path/Prefixes.antt =====
-- `NormalizedPath::starts_with` of crates/archive-trait/src/extract/path.rs, on stacks of components.
use mathlib.Core.List.{reverse, reverse-append, reverse-reverse}
use tar_codec.Base.{
  ℕ, Bool, true, false, ◌||◌, Option, none, some, some-injective, [], ◌∷◌, ◌++◌, Bytes, ◌≡◌, ◌↔◌,
  refl, sym, ap, ◌∙◌, subst, arith, Bool-cases, inl, inr, All, append-nil, append_assoc, eq_bytes,
  eq_bytes_iff, ==_iff,
}
use tar_codec.Text.{is_empty, starts_with, strip_prefix}
use tar_codec.Archive.Path.{NormalizedPath, components, push, path_starts_with}
use tar_codec.Archive.Path.Split.{==_self}
use tar_codec.Archive.Path.Stack.{
  Stack, Proper, render, is_empty-render, components-render, components-append,
}

strip_prefix-append : (p s : Bytes) → strip_prefix p (p ++ s) ≡ some s
unfolding strip_prefix
strip_prefix-append [] s = refl
strip_prefix-append (b ∷ p) s = rw (==_self b) (strip_prefix-append p s)

strip_prefix-eq-some : (p text s : Bytes) → strip_prefix p text ≡ some s → text ≡ p ++ s
unfolding strip_prefix
strip_prefix-eq-some [] text s h = some-injective text s h
strip_prefix-eq-some (b ∷ p) [] s h = cc
strip_prefix-eq-some (b ∷ p) (x ∷ text) s h = ground (arith, strip_prefix-eq-some p text s)

starts_with-eq :
    (c : ℕ) (text : Bytes) → starts_with c text ≡ true → (rest : Bytes) × (text ≡ c ∷ rest)
starts_with-eq c [] h = cc
starts_with-eq c (b ∷ rest) h = (rest, ap (λ x. x ∷ rest) (((==_iff b c).0) h))

push-slash :
    (path : NormalizedPath) (c : Bytes) → is_empty path ≡ false → push path c ≡ path ++ b'/' ∷ c
unfolding push
push-slash [] c h = cc
push-slash (b ∷ path) c h = refl

is_empty-append : (a : Bytes) (c : ℕ) (b : Bytes) → is_empty (a ++ c ∷ b) ≡ false
is_empty-append [] c b = refl
is_empty-append (x ∷ a) c b = refl

-- A path below another starts with it and a slash.
render-below :
    (e : Bytes) (es ds : Stack)
    → All Proper ds
    → is_empty ds ≡ false
    → (rest : Bytes) × (render (e ∷ es ++ ds) ≡ render ds ++ b'/' ∷ rest)
render-below e [] ds h some_left = (e, push-slash (render ds) e (is_empty-render ds h ∙ some_left))
render-below e (e' ∷ es) ds h some_left =
    let (rest, below) = render-below e' es ds h some_left in
    (
      rest ++ b'/' ∷ e,
      ap (λ path. push path e) below
          ∙ push-slash (render ds ++ b'/' ∷ rest) e (is_empty-append (render ds) b'/' rest)
          ∙ append_assoc (render ds) (b'/' ∷ rest) (b'/' ∷ e),
    )

render_injective : (cs ds : Stack) → All Proper cs → All Proper ds → render cs ≡ render ds → cs ≡ ds
render_injective cs ds hc hd e =
    sym (reverse-reverse cs)
    ∙ ap reverse (sym (components-render cs hc) ∙ ap components e ∙ components-render ds hd)
    ∙ reverse-reverse ds

below-render :
    (cs ds : Stack) (rest : Bytes)
    → All Proper cs
    → All Proper ds
    → render cs ≡ render ds ++ b'/' ∷ rest
    → cs ≡ reverse (components rest) ++ ds
below-render cs ds rest hc hd e =
    sym (reverse-reverse cs)
    ∙ ap reverse (
        sym (components-render cs hc)
        ∙ ap components e
        ∙ components-append (render ds) rest
        ∙ ap (λ r. r ++ components rest) (components-render ds hd))
    ∙ reverse-append (reverse ds) (components rest)
    ∙ ap (λ r. reverse (components rest) ++ r) (reverse-reverse ds)

prefix_in :
    (cs ds : Stack) (stripped : Option Bytes)
    → All Proper cs
    → All Proper ds
    → strip_prefix (render ds) (render cs) ≡ stripped
    → (eq_bytes (render cs) (render ds)
        || elim stripped [ none ↦ false | some suffix ↦ starts_with b'/' suffix ])
      ≡ true
    → (es : Stack) × (cs ≡ es ++ ds)
prefix_in cs ds stripped hc hd e h = elim (Bool-cases (eq_bytes (render cs) (render ds))) [
  | inl same ↦ ([], render_injective cs ds hc hd ((eq_bytes_iff (render cs) (render ds)).0 same))
  | inr other ↦ below stripped e (
      subst
        (λ b. (b || elim stripped [ none ↦ false | some suffix ↦ starts_with b'/' suffix ]) ≡ true)
        other h)
]
  where
    below :
        (o : Option Bytes)
        → strip_prefix (render ds) (render cs) ≡ o
        → elim o [ none ↦ false | some suffix ↦ starts_with b'/' suffix ] ≡ true
        → (es : Stack) × (cs ≡ es ++ ds)
    below none e h = cc
    below (some suffix) e h =
        let (rest, slash) = starts_with-eq b'/' suffix h in
        (
          reverse (components rest),
          below-render cs ds rest hc hd (
              strip_prefix-eq-some (render ds) (render cs) suffix e
              ∙ ap (λ s. render ds ++ s) slash),
        )

or_true : (b : Bool) → (b || true) ≡ true
or_true true = refl
or_true false = refl

starts_with-below :
    (es ds : Stack)
    → All Proper ds
    → is_empty ds ≡ false
    → (eq_bytes (render (es ++ ds)) (render ds)
        || elim (strip_prefix (render ds) (render (es ++ ds))) [
          | none ↦ false
          | some suffix ↦ starts_with b'/' suffix
        ])
      ≡ true
starts_with-below [] ds h some_left = rw ((eq_bytes_iff (render ds) (render ds)).1 refl) refl
starts_with-below (e ∷ es) ds h some_left =
    let (rest, below) = render-below e es ds h some_left in
    rw (below, strip_prefix-append (render ds) (b'/' ∷ rest))
      (or_true (eq_bytes (render ds ++ b'/' ∷ rest) (render ds)))

-- `starts_with` holds of a path exactly when the base is the path or one of the directories above it.
pub starts_with-render :
    (cs ds : Stack)
    → All Proper cs
    → All Proper ds
    → (path_starts_with (render cs) (render ds) ≡ true) ↔ ((es : Stack) × (cs ≡ es ++ ds))
unfolding path_starts_with
starts_with-render cs [] hc hd = (λ _. (cs, sym (append-nil cs)), λ _. refl)
starts_with-render cs (d ∷ ds) hc hd = rw (is_empty-render (d ∷ ds) hd) (
  λ h. prefix_in cs (d ∷ ds) (strip_prefix (render (d ∷ ds)) (render cs)) hc hd refl h,
  λ (es, e).
      subst
        (λ s.
          (eq_bytes (render s) (render (d ∷ ds))
            || elim (strip_prefix (render (d ∷ ds)) (render s)) [
              | none ↦ false
              | some suffix ↦ starts_with b'/' suffix
            ])
          ≡ true)
        (sym e) (starts_with-below es (d ∷ ds) hd refl),
)
