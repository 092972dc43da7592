-- ===== src/Codec/Examples.antt =====
-- Concrete members and records.
use tar_codec.Base.{
  inl, inr, ◌≡◌, refl, true, false, Option, none, some, List, [], ◌∷◌, contains, ok, inr,
}
use tar_codec.Header.{ArchiveFormat}
use tar_codec.Text.{codes, is_empty, is_utf8}
use tar_codec.Pax.{PaxKind, PaxValue, PaxRecord, PaxRecords, keyword}
use tar_codec.Stream.{UstarKind, Framed}
use tar_codec.Logical.{Header, MemberExtensions, MemberFrame, effective_path}
use tar_codec.Archive.{Member, metadata}
use tar_codec.Codec.{PaxVendorExtensionPolicy, PaxDecodePolicy}
use tar_codec.Codec.Policy.{check_pax_records}
use tar_codec.Codec.Policy.Accepts.{check_pax_records_iff}
use tar_codec.Codec.Project.{project_member, MemberReader, TarArchive, next_member}
use tar_codec.Codec.Project.Members.{project_member-eq-ok, next_member-fused}

abbrev strict : PaxDecodePolicy
strict = record {
  max_extension_size = 1024;
  max_global_extensions_size = 1024;
  allow_non_utf8_pax_vendor_values = false;
  allow_global_pax_extensions = true;
  vendor_extension_policy = PaxVendorExtensionPolicy.ignore (codes "SCHILY" ∷ []);
  allow_duplicate_pax_records = false;
  allow_global_pax_member_metadata = false;
}

abbrev vendor_record : PaxRecord
vendor_record = PaxRecord.vendor (codes "SCHILY") (codes "x") (PaxValue.value (codes "v"))

abbrev two_records : PaxRecords
two_records = vendor_record ∷ PaxRecord.uid (PaxValue.value 7) ∷ []

check_pax_records_iff_example : check_pax_records strict 0 PaxKind.global two_records ≡ ok tt
unfolding is_utf8 keyword
check_pax_records_iff_example = (check_pax_records_iff strict 0 PaxKind.global two_records).1 (
  ((inl refl, inr refl), (tt, tt)),
  inr (inr (((λ e. cc), (λ e. cc), (λ e. cc)), (((λ e. cc), (λ e. cc), (λ e. cc)), tt))),
  inr (((λ e. cc), tt), (tt, tt)),
)

abbrev plain_header : Header
plain_header = record {
  position = 0;
  format = ArchiveFormat.gnu;
  kind = UstarKind.regular;
  declared_size = 3;
  effective_size = 3;
  mode = some 0x1ed;
  uid = none;
  gid = none;
  mtime = none;
  uname = [];
  gname = [];
  path = codes "a";
  link_name = [];
}

abbrev plain_frame : MemberFrame
plain_frame = record { header = plain_header; extensions = MemberExtensions.gnu none none }

abbrev plain_member : Member
plain_member = Member.file (record { path = codes "a"; position = 0 }) 3 true

plain_projected : project_member plain_frame ≡ ok plain_member
unfolding project_member effective_path is_utf8
plain_projected = refl

project_member-eq-ok_example :
    (effective_path plain_frame ≡ ok (metadata plain_member).path)
    × (is_utf8 (metadata plain_member).path ≡ true)
    × (is_empty (metadata plain_member).path ≡ false)
    × (contains 0 (metadata plain_member).path ≡ false)
    × ((metadata plain_member).position ≡ plain_frame.header.position)
project_member-eq-ok_example = project_member-eq-ok plain_frame plain_member plain_projected

-- A reader of a list of frames.
next_of : List MemberFrame → List MemberFrame × Framed (Option MemberFrame)
next_of [] = ([], ok none)
next_of (frame ∷ frames) = (frames, ok (some frame))

abbrev list_members : MemberReader
list_members = record { Reader = List MemberFrame; next_frame = next_of }

abbrev at_end : TarArchive list_members
at_end = record {
  reader = [];
  policy = record {
    allow_gnu = true;
    allow_all_nul_numeric_fields = true;
    max_gnu_extension_size = 1024;
    pax_policy = strict;
  };
  fused = false;
}

next_member-fused_example :
    next_member list_members (next_member list_members at_end).0
    ≡ ((next_member list_members at_end).0, ok none)
unfolding next_member next_of
next_member-fused_example = next_member-fused list_members at_end refl
