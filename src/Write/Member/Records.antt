-- ===== src/Write/Member/Records.antt =====
-- The records of a framed member, as the parser reads them.
use tar_codec.Base.{
  ℕ, ◌≡◌, ◌≤◌, ◌<◌, refl, sym, ap, ◌∙◌, true, false, Option, none, some, List, [], ◌∷◌, ◌++◌, arith,
  Bytes, IsU64, All, length, eq_bytes, replicate, ok, err, ◌>>=◌,
}
use tar_codec.Text.{String, codes, is_utf8, is_empty}
use tar_codec.Header.{block_size}
use tar_codec.Pax.{PaxKeyword, HdrCharset, PaxString, PaxValue, PaxRecord, PaxRecords}
use tar_codec.Pax.Parse.{
  parse_utf8, decimal_u64, parse_string, parse_string_in, parse_integer, parse_record,
  resolve_hdrcharset, parse_all, parse_pairs, parse,
}
use tar_codec.Write.{PaxMember, Written, components}
use tar_codec.Write.Decimal as Render
use tar_codec.Write.Records.{append_pax_record}
use tar_codec.Write.Decimal.Digits.{decimal_u64-IsDecimal, u64_from_str-decimal_u64}
use tar_codec.Write.Records.Framing.{ascii-is_utf8, decimal_u64-digits, digits-All}
use tar_codec.Write.Records.RoundTrip.{append_all, append_all-parse, IsText, as_text}
use tar_codec.Write.Member.{member_records}

parse_string_lem :
    (bytes : Bytes)
    → is_empty bytes ≡ false
    → is_utf8 bytes ≡ true
    → parse_string bytes HdrCharset.utf8 ≡ ok (PaxValue.value (PaxString.utf8 bytes))
unfolding parse_string parse_string_in parse_utf8
parse_string_lem bytes some_bytes text = rw (some_bytes, text)

parse_integer_lem :
    (name : String) (bytes : Bytes) (n : ℕ)
    → is_empty bytes ≡ false
    → is_utf8 bytes ≡ true
    → decimal_u64 bytes ≡ some n
    → parse_integer name bytes ≡ ok (PaxValue.value n)
unfolding parse_integer parse_utf8
parse_integer_lem name bytes n some_bytes text value = rw (text, some_bytes, value)

parse_record-path :
    (path : Bytes)
    → is_empty path ≡ false
    → is_utf8 path ≡ true
    → parse_record (codes "path") path HdrCharset.utf8
      ≡ ok (PaxRecord.path (PaxValue.value (PaxString.utf8 path)))
unfolding parse_record eq_bytes
parse_record-path path some_bytes text =
    ap (λ r. r >>= λ v. ok (PaxRecord.path v)) (parse_string_lem path some_bytes text)

parse_record-linkpath :
    (path : Bytes)
    → is_empty path ≡ false
    → is_utf8 path ≡ true
    → parse_record (codes "linkpath") path HdrCharset.utf8
      ≡ ok (PaxRecord.linkpath (PaxValue.value (PaxString.utf8 path)))
unfolding parse_record eq_bytes
parse_record-linkpath path some_bytes text =
    ap (λ r. r >>= λ v. ok (PaxRecord.linkpath v)) (parse_string_lem path some_bytes text)

parse_record-size :
    (bytes : Bytes) (size : ℕ)
    → is_empty bytes ≡ false
    → is_utf8 bytes ≡ true
    → decimal_u64 bytes ≡ some size
    → parse_record (codes "size") bytes HdrCharset.utf8 ≡ ok (PaxRecord.size (PaxValue.value size))
unfolding parse_record eq_bytes
parse_record-size bytes size some_bytes text value =
    ap (λ r. r >>= λ v. ok (PaxRecord.size v))
      (parse_integer_lem "size" bytes size some_bytes text value)

-- The keyword and value pairs of a member.
abbrev pairs_of : Bytes → Bytes → Option Bytes → List (PaxKeyword × Bytes)
pairs_of path size none = (PaxKeyword.path, path) ∷ (PaxKeyword.size, size) ∷ []
pairs_of path size (some link_path) =
    (PaxKeyword.path, path) ∷ (PaxKeyword.size, size) ∷ (PaxKeyword.linkpath, link_path) ∷ []

-- The records that a reader is to find.
abbrev pub expected_records : PaxMember → PaxRecords
expected_records member =
    PaxRecord.path (PaxValue.value (PaxString.utf8 member.path))
    ∷ PaxRecord.size (PaxValue.value member.size)
    ∷ elim member.link_path [
      | none ↦ []
      | some link_path ↦ PaxRecord.linkpath (PaxValue.value (PaxString.utf8 link_path)) ∷ []
    ]

-- What Rust's types and the caller's checks give: the path and the target of a link are UTF-8 and
-- not empty, and the size is a `u64`.
pub record IsMember (member : PaxMember) : Type 0 where
  pub path_some : is_empty member.path ≡ false
  pub path_text : is_utf8 member.path ≡ true
  pub link_some :
      (link_path : Bytes) → member.link_path ≡ some link_path → is_empty link_path ≡ false
  pub link_text : (link_path : Bytes) → member.link_path ≡ some link_path → is_utf8 link_path ≡ true
  pub size_fits : IsU64 member.size

bind_ok : (m : Written Bytes) → m ≡ (m >>= λ out. ok out)
bind_ok (ok a) = refl
bind_ok (err e) = refl

abbrev with_link : Bytes → Bytes → Bytes → Option Bytes → Written Bytes
with_link output path size link_path = do
  b₁ ← append_pax_record output PaxKeyword.path path
  b₂ ← append_pax_record b₁ PaxKeyword.size size
  elim link_path [ none ↦ ok b₂ | some target ↦ append_pax_record b₂ PaxKeyword.linkpath target ]

with_link-append_all :
    (output path size : Bytes) (link_path : Option Bytes)
    → with_link output path size link_path ≡ append_all output (pairs_of path size link_path)
unfolding append_all
with_link-append_all output path size none = refl
with_link-append_all output path size (some target) = λ i.
    append_pax_record output PaxKeyword.path path >>= λ b₁.
    append_pax_record b₁ PaxKeyword.size size >>= λ b₂.
    bind_ok (append_pax_record b₂ PaxKeyword.linkpath target) i

member_records_lem :
    (member : PaxMember)
    → member_records member
      ≡ append_all
          (replicate block_size 0)
          (pairs_of member.path (Render.decimal_u64 member.size) member.link_path)
unfolding member_records
member_records_lem member =
    with_link-append_all (replicate block_size 0) member.path (Render.decimal_u64 member.size)
      member.link_path

step_ok :
    (word value : Bytes) (pairs : List (Bytes × Bytes)) (charset : HdrCharset) (r : PaxRecord)
    (rs : PaxRecords)
    → parse_record word value charset ≡ ok r
    → parse_all pairs charset ≡ ok rs
    → parse_all ((word, value) ∷ pairs) charset ≡ ok (r ∷ rs)
unfolding parse_all
step_ok word value pairs charset r rs e e' = rw (e, e')

parse_all-nil : (charset : HdrCharset) → parse_all [] charset ≡ ok []
unfolding parse_all
parse_all-nil charset = refl

parse_pairs-some :
    (pairs : List (Bytes × Bytes)) (rs : PaxRecords)
    → resolve_hdrcharset pairs HdrCharset.utf8 ≡ ok HdrCharset.utf8
    → parse_all pairs HdrCharset.utf8 ≡ ok rs
    → parse_pairs HdrCharset.utf8 (ok pairs) ≡ ok rs
unfolding parse_pairs
parse_pairs-some pairs rs e e' = rw (e, e')

pairs_of-IsText :
    (path size : Bytes) (link_path : Option Bytes) → All IsText (pairs_of path size link_path)
unfolding components is_utf8
pairs_of-IsText path size none = (refl, (refl, tt))
pairs_of-IsText path size (some target) = (refl, (refl, (refl, tt)))

parse_pairs_of :
    (path size : Bytes) (n : ℕ) (link_path : Option Bytes)
    → is_empty path ≡ false
    → is_utf8 path ≡ true
    → is_empty size ≡ false
    → is_utf8 size ≡ true
    → decimal_u64 size ≡ some n
    → ((target : Bytes)
        → link_path ≡ some target
        → (is_empty target ≡ false) × (is_utf8 target ≡ true))
    → parse_pairs HdrCharset.utf8 (ok (as_text (pairs_of path size link_path)))
      ≡ ok (
          PaxRecord.path (PaxValue.value (PaxString.utf8 path))
          ∷ PaxRecord.size (PaxValue.value n)
          ∷ elim link_path [
            | none ↦ []
            | some target ↦ PaxRecord.linkpath (PaxValue.value (PaxString.utf8 target)) ∷ []
          ])
unfolding components resolve_hdrcharset eq_bytes
parse_pairs_of path size n none p₁ p₂ s₁ s₂ s₃ link =
    parse_pairs-some ((codes "path", path) ∷ (codes "size", size) ∷ []) _ refl (
      step_ok (codes "path") path _ _ _ _ (parse_record-path path p₁ p₂) (
        step_ok (codes "size") size _ _ _ _ (parse_record-size size n s₁ s₂ s₃)
          (parse_all-nil HdrCharset.utf8)))
parse_pairs_of path size n (some target) p₁ p₂ s₁ s₂ s₃ link =
    let (l₁, l₂) = link target refl in
    parse_pairs-some ((codes "path", path) ∷ (codes "size", size) ∷ (codes "linkpath", target) ∷ [])
      _ refl
      (step_ok (codes "path") path _ _ _ _ (parse_record-path path p₁ p₂) (
        step_ok (codes "size") size _ _ _ _ (parse_record-size size n s₁ s₂ s₃) (
          step_ok (codes "linkpath") target _ _ _ _ (parse_record-linkpath target l₁ l₂)
            (parse_all-nil HdrCharset.utf8))))

-- What the parser needs to know of the digits of the size.
record IsSizeText (bytes : Bytes) (n : ℕ) : Type 0 where
  pub nonempty : is_empty bytes ≡ false
  pub is_text : is_utf8 bytes ≡ true
  pub reads : decimal_u64 bytes ≡ some n

decimal_u64-IsSizeText : (n : ℕ) → IsU64 n → IsSizeText (Render.decimal_u64 n) n
decimal_u64-IsSizeText n fits =
    let d = decimal_u64-IsDecimal n in
    record {
      nonempty = has_bytes (Render.decimal_u64 n) (omega (arith, d.has_width));
      is_text = ascii-is_utf8 _ (digits-All (λ b. b < 0x80) _ d.are_digits (λ b h. omega arith));
      reads = decimal_u64-digits _ n d (u64_from_str-decimal_u64 n fits);
    }
  where
    has_bytes : (bytes : Bytes) → 1 ≤ length bytes → is_empty bytes ≡ false
    has_bytes [] h = absurd (omega arith)
    has_bytes (b ∷ bs) h = refl

-- The records of a member, behind the block that the buffer begins with, parse to its path, its size
-- and the target of its link.
pub member_records-parse :
    (member : PaxMember) (records : Bytes)
    → IsMember member
    → member_records member ≡ ok records
    → (payload : Bytes) × (records ≡ replicate block_size 0 ++ payload)
      × (parse payload HdrCharset.utf8 ≡ some (ok (expected_records member)))
member_records-parse member records m e =
    go member.link_path (λ target same. (m.link_some target same, m.link_text target same))
      (sym (member_records_lem member) ∙ e)
  where
    go :
        (link_path : Option Bytes)
        → ((target : Bytes)
            → link_path ≡ some target
            → (is_empty target ≡ false) × (is_utf8 target ≡ true))
        → append_all
            (replicate block_size 0)
            (pairs_of member.path (Render.decimal_u64 member.size) link_path)
          ≡ ok records
        → (payload : Bytes) × (records ≡ replicate block_size 0 ++ payload)
          × (parse payload HdrCharset.utf8
              ≡ some (
                  ok (
                    PaxRecord.path (PaxValue.value (PaxString.utf8 member.path))
                    ∷ PaxRecord.size (PaxValue.value member.size)
                    ∷ elim link_path [
                      | none ↦ []
                      | some target ↦
                          PaxRecord.linkpath (PaxValue.value (PaxString.utf8 target)) ∷ []
                    ])))
    go none link e =
        let size = decimal_u64-IsSizeText member.size m.size_fits in
        let (payload, same, parsed) =
          append_all-parse (replicate block_size 0) records (PaxKeyword.path, member.path)
            ((PaxKeyword.size, Render.decimal_u64 member.size) ∷ []) HdrCharset.utf8 e
            (pairs_of-IsText member.path (Render.decimal_u64 member.size) none) in
        (
          payload,
          same,
          parsed
              ∙ ap some (
                  parse_pairs_of member.path (Render.decimal_u64 member.size) member.size none
                    m.path_some m.path_text size.nonempty size.is_text size.reads link),
        )
    go (some target) link e =
        let size = decimal_u64-IsSizeText member.size m.size_fits in
        let (payload, same, parsed) =
          append_all-parse (replicate block_size 0) records (PaxKeyword.path, member.path)
            ((PaxKeyword.size, Render.decimal_u64 member.size) ∷ (PaxKeyword.linkpath, target) ∷ [])
            HdrCharset.utf8 e
            (pairs_of-IsText member.path (Render.decimal_u64 member.size) (some target)) in
        (
          payload,
          same,
          parsed
              ∙ ap some (
                  parse_pairs_of member.path (Render.decimal_u64 member.size) member.size
                    (some target) m.path_some m.path_text size.nonempty size.is_text size.reads
                    link),
        )
