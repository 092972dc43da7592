-- ===== src/Logical/Examples.antt =====
-- Concrete frames of an archive.
use tar_codec.Base.{◌≡◌, refl, [], ◌∷◌, ◌++◌, Bytes, replicate, ok}
use tar_codec.Header.{block_size}
use tar_codec.Text.{codes}
use tar_codec.Stream.{GnuKind, default_policy, new_stream}
use tar_codec.Stream.Machine.{process_block}
use tar_codec.Stream.Invariant.{new_stream-IsValid}
use tar_codec.Logical.{GnuMetadata, new_assembly, parse_gnu_metadata}
use tar_codec.Logical.Names.{parse_gnu_metadata_iff}
use tar_codec.Logical.Lockstep.{FollowsBlock}
use tar_codec.Logical.Lockstep.Blocks.{process_block-FollowsBlock, new_assembly-InStep}

abbrev zeros : Bytes
zeros = replicate block_size 0

process_block-FollowsBlock_example :
    FollowsBlock new_assembly (process_block 0 zeros (new_stream default_policy))
process_block-FollowsBlock_example =
    process_block-FollowsBlock 0 zeros new_assembly (new_stream default_policy)
      (new_assembly-InStep default_policy) (new_stream-IsValid default_policy) refl

abbrev long_name : GnuMetadata
long_name = record { position = 0; payload = codes "name" ++ 0 ∷ 0 ∷ [] }

parse_gnu_metadata_iff_example : parse_gnu_metadata long_name GnuKind.long_name ≡ ok (codes "name")
parse_gnu_metadata_iff_example =
    (parse_gnu_metadata_iff long_name GnuKind.long_name (codes "name")).1 (1, refl, refl)
