-- ===== src/Write/Records/Framing.antt =====
-- One record that write.rs appends, under the two steps that pax.rs takes for it.
use tar_codec.Base.{
  ℕ, ◌+◌, ◌-◌, ◌<◌, ◌≡◌, ◌≢◌, refl, sym, ap, ◌∙◌, Bool, true, false, none, some, [], ◌∷◌, ◌++◌,
  append_assoc, arith, Bytes, IsU64, All, All-map, length, length-append, take, drop, take-append,
  drop-append, position, ltb, ◌==◌, checked_add, ok,
}
use tar_codec.Text.{is_utf8, utf8_from, utf8_lead, Follow, follow, is_empty, last, u64_from_str}
use tar_codec.Pax.{PaxKeyword}
use tar_codec.Pax.Parse.{parse_utf8, decimal_u64, frame_record, split_record}
use tar_codec.Write.{components}
use tar_codec.Write.Decimal as Render
use tar_codec.Write.Decimal.Groups.{IsDigit, IsDecimal}
use tar_codec.Write.Records.{keyword_bytes}

-- The first place of a byte is behind the bytes in front of it that differ from it.
position-append :
    (c : ℕ) (xs ys : Bytes) → All (λ b. b ≢ c) xs → position c (xs ++ (c ∷ ys)) ≡ some (length xs)
unfolding position
position-append c [] ys other = ground arith
position-append c (x ∷ xs) ys other = ground (arith, position-append c xs ys)

utf8_lead-ascii : (b : ℕ) → b < 0x80 → utf8_lead b ≡ some (follow 0 0x80 0xbf)
unfolding utf8_lead
utf8_lead-ascii b h = ground arith

utf8_from-lead :
    (b : ℕ) (bs : Bytes) (f : Follow)
    → utf8_lead b ≡ some f
    → utf8_from 0 0x80 0xbf (b ∷ bs) ≡ utf8_from f.count f.lo f.hi bs
unfolding utf8_from
utf8_from-lead b bs f e =
    ap (λ o. elim o as (λ _. Bool) [ none ↦ false | some f ↦ utf8_from f.count f.lo f.hi bs ]) e

ascii_loop : (bytes : Bytes) → All (λ b. b < 0x80) bytes → utf8_from 0 0x80 0xbf bytes ≡ true
ascii_loop [] ascii = unfold utf8_from in refl
ascii_loop (b ∷ bs) ascii =
    utf8_from-lead b bs _ (utf8_lead-ascii b ascii.0) ∙ ascii_loop bs ascii.1

-- ASCII is UTF-8.
pub ascii-is_utf8 : (bytes : Bytes) → All (λ b. b < 0x80) bytes → is_utf8 bytes ≡ true
unfolding is_utf8
ascii-is_utf8 bytes ascii = ascii_loop bytes ascii

pub last-append : (xs : Bytes) (c : ℕ) → last (xs ++ (c ∷ [])) ≡ some c
last-append [] c = refl
last-append (x ∷ []) c = refl
last-append (x ∷ (y ∷ ys)) c = last-append (y ∷ ys) c

-- What the writer appends for one record.
abbrev pub record_bytes : PaxKeyword → Bytes → ℕ → Bytes
record_bytes keyword value len =
    Render.decimal_u64 len
    ++ (b' ' ∷ (keyword_bytes (components keyword) ++ (b'=' ∷ (value ++ b'\n' ∷ []))))

-- A keyword that a record can carry: UTF-8 text without `=`.
pub record IsWord (word : Bytes) : Type 0 where
  pub is_text : is_utf8 word ≡ true
  pub nonempty : is_empty word ≡ false
  pub no_equals : All (λ b. b ≢ b'=') word

-- `frame_record` on a payload that begins with a record as the steps of the parser see it.
frame_record_lem :
    (cursor space len : ℕ) (rest : Bytes)
    → position b' ' rest ≡ some space
    → (space == 0) ≡ false
    → is_utf8 (take space rest) ≡ true
    → decimal_u64 (take space rest) ≡ some len
    → checked_add cursor len ≡ some (cursor + len)
    → ltb (cursor + length rest) (cursor + len) ≡ false
    → last (take len rest) ≡ some b'\n'
    → frame_record cursor rest ≡ ok (space + 1, take len rest)
unfolding frame_record
frame_record_lem cursor space len rest h₁ h₂ h₃ h₄ h₅ h₆ h₇ = rw (h₁, h₂, h₃, h₄, h₅, h₆, h₇)

abbrev pub digits-All :
    (P : ℕ → Type 0) (bytes : Bytes) → All IsDigit bytes → ((b : ℕ) → IsDigit b → P b) → All P bytes
digits-All P bytes digits f = All-map IsDigit P f bytes digits

pub decimal_u64-digits :
    (digits : Bytes) (n : ℕ)
    → IsDecimal digits n
    → u64_from_str digits ≡ some n
    → decimal_u64 digits ≡ some n
unfolding decimal_u64
decimal_u64-digits [] n d parsed = absurd (omega (arith, d.has_width))
decimal_u64-digits (b ∷ bs) n d parsed = ground (arith, d.are_digits)

-- The same step for a payload that is known to begin with the record: its digits, the space and
-- what follows.
pub frame_record-digits :
    (cursor len : ℕ) (digits body rest : Bytes)
    → IsDecimal digits len
    → u64_from_str digits ≡ some len
    → IsU64 (cursor + len)
    → length (digits ++ (b' ' ∷ body)) ≡ len
    → last (digits ++ (b' ' ∷ body)) ≡ some b'\n'
    → frame_record cursor ((digits ++ (b' ' ∷ body)) ++ rest)
      ≡ ok (length digits + 1, digits ++ (b' ' ∷ body))
frame_record-digits cursor len digits body rest d parsed fits measured ends =
    let record_here = digits ++ (b' ' ∷ body) in
    let payload = record_here ++ rest in
    let shape : payload ≡ digits ++ (b' ' ∷ (body ++ rest)) =
      append_assoc digits (b' ' ∷ body) rest in
    let whole : take len payload ≡ record_here = take-append len record_here rest measured in
    let front : take (length digits) payload ≡ digits =
      ap (take (length digits)) shape ∙ take-append (length digits) digits _ refl in
    let size = length-append record_here rest in
    frame_record_lem cursor (length digits) len payload
      (ap (position b' ') shape
        ∙ position-append b' ' digits (body ++ rest)
            (digits-All (λ b. b ≢ b' ') digits d.are_digits (λ b h e. omega arith)))
      (ground (arith, d.has_width))
      (ap is_utf8 front
        ∙ ascii-is_utf8 digits
            (digits-All (λ b. b < 0x80) digits d.are_digits (λ b h. omega arith)))
      (ap decimal_u64 front ∙ decimal_u64-digits digits len d parsed) (ground arith)
      (ground (arith, size, measured)) (ap last whole ∙ ends)
    ∙ ap (λ bytes. ok (length digits + 1, bytes)) whole

split_record_lem :
    (start equals : ℕ) (bytes content : Bytes)
    → drop start (take (length bytes - 1) bytes) ≡ content
    → position b'=' content ≡ some equals
    → (equals == 0) ≡ false
    → is_utf8 (take equals content) ≡ true
    → split_record start bytes ≡ ok (take equals content, drop (equals + 1) content)
unfolding split_record parse_utf8
split_record_lem start equals bytes content h₁ h₂ h₃ h₄ = rw (h₁, h₂, h₃, h₄)

pub split_record-body :
    (digits word value : Bytes)
    → IsWord word
    → split_record (length digits + 1) (digits ++ (b' ' ∷ (word ++ (b'=' ∷ (value ++ b'\n' ∷ [])))))
      ≡ ok (word, value)
split_record-body digits word value w =
    let content = word ++ (b'=' ∷ value) in
    let head = digits ++ (b' ' ∷ []) in
    let bytes = digits ++ (b' ' ∷ (word ++ (b'=' ∷ (value ++ b'\n' ∷ [])))) in
    let body : word ++ (b'=' ∷ (value ++ b'\n' ∷ [])) ≡ content ++ (b'\n' ∷ []) =
      sym (append_assoc word (b'=' ∷ value) (b'\n' ∷ [])) in
    let shape : bytes ≡ (head ++ content) ++ (b'\n' ∷ []) =
      ap (λ t. digits ++ (b' ' ∷ t)) body
      ∙ sym (append_assoc digits (b' ' ∷ content) (b'\n' ∷ []))
      ∙ ap (λ t. t ++ (b'\n' ∷ [])) (sym (append_assoc digits (b' ' ∷ []) content)) in
    let size : length bytes ≡ length (head ++ content) + 1 =
      ap length shape ∙ length-append (head ++ content) (b'\n' ∷ []) in
    let kept : take (length bytes - 1) bytes ≡ head ++ content =
      ap (take (length bytes - 1)) shape
      ∙ take-append (length bytes - 1) (head ++ content) (b'\n' ∷ []) (omega (arith, size)) in
    let found : drop (length digits + 1) (take (length bytes - 1) bytes) ≡ content =
      ap (drop (length digits + 1)) kept
      ∙ drop-append (length digits + 1) head content (length-append digits (b' ' ∷ [])) in
    let front : take (length word) content ≡ word =
      take-append (length word) word (b'=' ∷ value) refl in
    split_record_lem (length digits + 1) (length word) bytes content found
      (position-append b'=' word value w.no_equals) (some_word word w.nonempty)
      (ap is_utf8 front ∙ w.is_text)
    ∙ ap (λ t. ok (t, drop (length word + 1) content)) front
    ∙ ap (λ t. ok (word, t)) (behind word value)
  where
    some_word : (word : Bytes) → is_empty word ≡ false → (length word == 0) ≡ false
    some_word [] e = cc
    some_word (b ∷ bs) e = ground arith

    behind : (word value : Bytes) → drop (length word + 1) (word ++ (b'=' ∷ value)) ≡ value
    behind word value =
        ap (drop (length word + 1)) (sym (append_assoc word (b'=' ∷ []) value))
        ∙ drop-append (length word + 1) (word ++ (b'=' ∷ [])) value (length-append word (b'=' ∷ []))
