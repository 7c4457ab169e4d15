-- ===== src/Image/Tests.antt =====
-- image/version.py: runs and instances.
use tine.Base.{◌≡◌, refl, some}
use tine.Base.Text.{Text, text_of}
use tine.Image.Version.{
  Sign, skip_separators, prefix_of, behind_prefix, significant, round, compare_in, compare,
}
use tine.Image.Version.Chains.{mirror}
use tine.Image.Version.Order.{compare-lower, compare-mirror}

abbrev candidate : Text
candidate = text_of "1.2~rc1"

abbrev release : Text
release = text_of "1.02"

abbrev patched : Text
patched = text_of "1.10^git5"

candidate_lower : compare candidate release ≡ some Sign.less
unfolding compare compare_in round skip_separators prefix_of significant behind_prefix
candidate_lower = refl

release_lower : compare release patched ≡ some Sign.less
unfolding compare compare_in round skip_separators prefix_of significant behind_prefix
release_lower = refl

zeros_same : compare release (text_of "1.2") ≡ some Sign.same
unfolding compare compare_in round skip_separators prefix_of significant behind_prefix
zeros_same = refl

compare-lower_example : compare candidate patched ≡ some Sign.less
compare-lower_example =
    compare-lower candidate release patched Sign.less Sign.less candidate_lower release_lower refl
      refl

compare-mirror_example :
    (sign : Sign) × (compare candidate release ≡ some sign)
    × (compare release candidate ≡ some (mirror sign))
compare-mirror_example = compare-mirror candidate release
