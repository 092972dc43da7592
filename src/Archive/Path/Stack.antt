-- ===== src/Archive/Path/Stack.antt =====
-- `NormalizedPath` of crates/archive-trait/src/extract/path.rs as a stack of components, the
-- innermost on top.
use mathlib.Core.List.{reverse_aux, reverse, reverse-cons}
use tar_codec.Base.{
  true, false, not, some, List, [], ◌∷◌, ◌++◌, Bytes, contains, ◌≡◌, refl, sym, ap, ◌∙◌, All,
}
use tar_codec.Text.{is_empty, split}
use tar_codec.Archive.Path.{
  NormalizedPath, init, components, parent, parent_components, file_name, last_part, push, pop,
  extend,
}
use tar_codec.Archive.Path.Split.{
  split-append, split-whole, rsplit_once-whole, rsplit_once-last, filter-append,
}

abbrev pub Stack : Type 0
Stack = List Bytes

-- A component that is not empty and holds no separator.
abbrev pub Proper : Bytes → Type 0
Proper c = (is_empty c ≡ false) × (contains b'/' c ≡ false)

abbrev pub render : Stack → NormalizedPath
render [] = []
render (c ∷ cs) = push (render cs) c

push-is_empty : (path : NormalizedPath) (c : Bytes) → Proper c → is_empty (push path c) ≡ false
unfolding push
push-is_empty [] c h = h.0
push-is_empty (b ∷ path) c h = refl

pub is_empty-render : (cs : Stack) → All Proper cs → is_empty (render cs) ≡ is_empty cs
is_empty-render [] h = refl
is_empty-render (c ∷ cs) h = push-is_empty (render cs) c h.0

components-whole : (c : Bytes) → Proper c → components c ≡ c ∷ []
unfolding components
components-whole c (some_bytes, plain) = rw (split-whole b'/' c plain, some_bytes) refl

pub components-append : (a b : Bytes) → components (a ++ b'/' ∷ b) ≡ components a ++ components b
unfolding components
components-append a b =
    rw (split-append b'/' a b) (filter-append (λ c. not (is_empty c)) (split b'/' a) (split b'/' b))

components-push :
    (path : NormalizedPath) (c : Bytes)
    → Proper c
    → components (push path c) ≡ components path ++ (c ∷ [])
unfolding push components split
components-push [] c h = components-whole c h
components-push (b ∷ path) c h =
    components-append (b ∷ path) c ∙ ap (λ r. components (b ∷ path) ++ r) (components-whole c h)

-- The components of a path, from the root on.
pub components-render : (cs : Stack) → All Proper cs → components (render cs) ≡ reverse cs
unfolding components split
components-render [] h = refl
components-render (c ∷ cs) h =
    components-push (render cs) c h.0
    ∙ ap (λ r. r ++ (c ∷ [])) (components-render cs h.1)
    ∙ sym (reverse-cons c cs)

pub parent-push : (path : NormalizedPath) (c : Bytes) → Proper c → parent (push path c) ≡ path
unfolding parent push
parent-push [] c h = rw (rsplit_once-whole b'/' c h.1) refl
parent-push (b ∷ path) c h = rw (rsplit_once-last b'/' (b ∷ path) c h.1) refl

pub pop-push : (path : NormalizedPath) (c : Bytes) → Proper c → pop (push path c) ≡ (path, true)
unfolding pop push
pop-push [] c h = rw (rsplit_once-whole b'/' c h.1, h.0) refl
pop-push (b ∷ path) c h = rw (rsplit_once-last b'/' (b ∷ path) c h.1) refl

pub file_name-push :
    (path : NormalizedPath) (c : Bytes) → Proper c → file_name (push path c) ≡ some c
unfolding file_name last_part push
file_name-push [] c h = rw (h.0, rsplit_once-whole b'/' c h.1) refl
file_name-push (b ∷ path) c h = rw (rsplit_once-last b'/' (b ∷ path) c h.1) refl

init-snoc {ℓ} : {A : Type ℓ} (xs : List A) (x : A) → init (xs ++ (x ∷ [])) ≡ xs
init-snoc [] x = refl
init-snoc (y ∷ []) x = refl
init-snoc (y ∷ z ∷ xs) x = ap (◌∷◌ y) (init-snoc (z ∷ xs) x)

-- The operations of a path that is not the root are those of its stack: the components from the
-- root on, with and without the last, the path without its last component, and that component.
pub path-Refines :
    (c : Bytes) (cs : Stack)
    → All Proper (c ∷ cs)
    → (components (render (c ∷ cs)) ≡ reverse (c ∷ cs))
      × (parent_components (render (c ∷ cs)) ≡ reverse cs)
      × (parent (render (c ∷ cs)) ≡ render cs)
      × (pop (render (c ∷ cs)) ≡ (render cs, true))
      × (file_name (render (c ∷ cs)) ≡ some c)
unfolding parent_components
path-Refines c cs h = (
  components-render (c ∷ cs) h,
  ap init (components-render (c ∷ cs) h ∙ reverse-cons c cs) ∙ init-snoc (reverse cs) c,
  parent-push (render cs) c h.0,
  pop-push (render cs) c h.0,
  file_name-push (render cs) c h.0,
)

pub extend-render :
    (cs : Stack) (ds : List Bytes) → extend (render cs) ds ≡ render (reverse_aux ds cs)
unfolding extend
extend-render cs [] = refl
extend-render cs (d ∷ ds) = extend-render (d ∷ cs) ds
