-- ===== src/Blobstore/Tests.antt =====
-- A concrete digest, and the theorems of this tree at it.
use kutu.Prelude.{Text, codes, ◌++◌, some, ◌≡◌, refl}
use kutu.Blobstore.{Digest, digest_string, parse_digest}
use kutu.Blobstore.RoundTrip.{parse_digest-string}

abbrev digits : Text
digits = codes "00000000000000000000000000000000000000000000000000000000000000aF"

abbrev folded : Digest
folded = record {
  algorithm = codes "sha256";
  hex = codes "00000000000000000000000000000000000000000000000000000000000000af";
}

read_digest : parse_digest (codes "sha256:" ++ digits) ≡ some folded
unfolding parse_digest
read_digest = refl

parse_digest-string_example : parse_digest (digest_string folded) ≡ some folded
parse_digest-string_example = parse_digest-string (codes "sha256:" ++ digits) folded read_digest
