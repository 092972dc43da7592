-- ===== src/Write/Member/Valid.antt =====
-- Which members `validate_member` lets pass.
use tar_codec.Base.{◌≡◌, ◌↔◌, ◌⊎◌, true, false, none, some, arith, Bytes, contains, ok}
use tar_codec.Text.{String, is_empty}
use tar_codec.Stream.{UstarKind}
use tar_codec.Write.{PaxMember}
use tar_codec.Write.Member.Suffix.{AsksForDirectory, not_required_iff}
use tar_codec.Write.Member.{validate_text, is_directory, validate_kind, validate_member}

-- A value that a pax record can hold.
abbrev pub IsText : Bytes → Type 0
IsText value = (is_empty value ≡ false) × (contains 0 value ≡ false)

-- What a member of each kind has beside its path.
abbrev pub KindFits : PaxMember → UstarKind → Type 0
KindFits member UstarKind.regular = member.link_path ≡ none
KindFits member UstarKind.directory = (member.link_path ≡ none) × (member.size ≡ 0)
KindFits member UstarKind.symbolic_link =
    (member.size ≡ 0) × ((target : Bytes) × (member.link_path ≡ some target) × IsText target)
KindFits member _ = ⊥

validate_text_iff :
    (name : String) (value : Bytes) → (validate_text name value ≡ ok tt) ↔ IsText value
unfolding validate_text
validate_text_iff name value = ground arith

validate_kind_iff :
    (member : PaxMember) (kind : UstarKind)
    → (validate_kind member kind ≡ ok tt) ↔ KindFits member kind
unfolding validate_kind validate_text
validate_kind_iff member UstarKind.regular = ground arith
validate_kind_iff member UstarKind.directory = ground arith
validate_kind_iff member UstarKind.symbolic_link = ground arith
validate_kind_iff member _ = (λ e. cc, λ h. absurd h)

is_directory_iff : (kind : UstarKind) → (is_directory kind ≡ true) ↔ (kind ≡ UstarKind.directory)
is_directory_iff kind = ground arith

-- `validate_member` lets a member pass exactly if its path is not empty and has no NUL, the path
-- neither ends with `/` nor has `.` or `..` as its last part unless the member is a directory, and the
-- member's kind is one of the three that are written: a regular file without a link target, a
-- directory with neither a target nor a size, or a symbolic link of size 0 with a target that is not
-- empty and has no NUL.
pub validate_member_iff :
    (member : PaxMember)
    → (validate_member member ≡ ok tt) ↔ (
        IsText member.path
        × ((member.kind ≡ UstarKind.directory) ⊎ (AsksForDirectory member.path → ⊥))
        × KindFits member member.kind)
unfolding validate_member
validate_member_iff member =
    let text = validate_text_iff "path" member.path in
    let kind = validate_kind_iff member member.kind in
    let directory = is_directory_iff member.kind in
    let suffix = not_required_iff member.path in ground arith
