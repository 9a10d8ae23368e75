-- ===== src/Version/Tests.antt =====
-- tmux/version.go on the version of one release, and on that of a development build.
use gotmux.Prelude.{◌≡◌, refl, true, false, some, [], codes, arith}
use gotmux.Prelude.Numeral.{is_digit, numeral_value}
use gotmux.Prelude.Space.{trim_space, skip_spaces}
use gotmux.Version.{parse_version}
use gotmux.Version.Release.{named_text, release_text, letter_text, parse_version-release}

next_build : parse_version (codes "next-3.7") ≡ record {
  raw = codes "next-3.7";
  major = 3;
  minor = 7;
  patch = [];
  suffix = codes "next";
  recognized = false;
}
unfolding parse_version trim_space skip_spaces is_digit numeral_value
next_build = refl

parse_version-release_example :
    parse_version (named_text true (release_text 3 6 (some b'a'))) ≡ record {
      raw = named_text true (release_text 3 6 (some b'a'));
      major = 3;
      minor = 6;
      patch = letter_text (some b'a');
      suffix = [];
      recognized = true;
    }
parse_version-release_example =
    parse_version-release true 3 6 (some b'a') (omega arith) (omega arith)
      (omega arith, omega arith)
