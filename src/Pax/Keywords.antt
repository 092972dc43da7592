-- ===== src/Pax/Keywords.antt =====
-- crates/tar-framing/src/pax.rs: the equality of keywords, by which records override each other.
use tar_codec.Base.{
  ℕ, ◌≡◌, ◌↔◌, refl, sym, ◌∙◌, true, arith, Bytes, eq_bytes_iff, ◌==◌, ==_iff, if◌then◌else◌,
}
use tar_codec.Pax.{PaxKeyword, keyword_eq, variant, variant_fields}

-- The keyword with a variant and its fields.
of_variant : ℕ → Bytes → Bytes → PaxKeyword
of_variant n a b =
    if n == 0
    then PaxKeyword.atime
    else if n == 1
    then PaxKeyword.charset
    else if n == 2
    then PaxKeyword.comment
    else if n == 3
    then PaxKeyword.ctime
    else if n == 4
    then PaxKeyword.gid
    else if n == 5
    then PaxKeyword.gname
    else if n == 6
    then PaxKeyword.hdrcharset
    else if n == 7
    then PaxKeyword.linkpath
    else if n == 8
    then PaxKeyword.mtime
    else if n == 9
    then PaxKeyword.path
    else if n == 10
    then PaxKeyword.realtime a
    else if n == 11
    then PaxKeyword.security a
    else if n == 12
    then PaxKeyword.size
    else if n == 13
    then PaxKeyword.uid
    else if n == 14
    then PaxKeyword.uname
    else PaxKeyword.vendor a b

of_variant_lem :
    (k : PaxKeyword) → of_variant (variant k) (variant_fields k).0 (variant_fields k).1 ≡ k
unfolding of_variant
of_variant_lem PaxKeyword.atime = refl
of_variant_lem _ = refl

keyword_eq_refl : (k : PaxKeyword) → keyword_eq k k ≡ true
unfolding keyword_eq
keyword_eq_refl k = ground (
  arith,
  (==_iff (variant k) (variant k)).1 refl,
  (eq_bytes_iff (variant_fields k).0 (variant_fields k).0).1 refl,
  (eq_bytes_iff (variant_fields k).1 (variant_fields k).1).1 refl,
)

-- The test of two keywords decides their equality.
pub keyword_eq_iff : (a b : PaxKeyword) → (keyword_eq a b ≡ true) ↔ (a ≡ b)
unfolding keyword_eq
keyword_eq_iff a b = (
  λ e.
      sym (of_variant_lem a)
      ∙ cc (
        (==_iff (variant a) (variant b)).0 (ground arith),
        (eq_bytes_iff (variant_fields a).0 (variant_fields b).0).0 (ground arith),
        (eq_bytes_iff (variant_fields a).1 (variant_fields b).1).0 (ground arith),
      )
      ∙ of_variant_lem b,
  λ e. rw e (keyword_eq_refl b),
)
