-- ===== src/Tags/Tests.antt =====
-- Tags that are parsed and compared, and the theorem at one of them.
use rocket_cat_shell_linux.Base.{
  ℕ, ◌-◌, ◌≡◌, refl, ◌&&◌, Option, none, some, [], ◌∷◌, ◌++◌, leb, if◌then◌else◌,
}
use rocket_cat_shell_linux.Base.Result.{ok, raise}
use rocket_cat_shell_linux.Base.Text.{codes}
use rocket_cat_shell_linux.Tags.{
  number, name, TagKey, less, greater, invalid_tag, parse_tag, compare_tags,
}
use rocket_cat_shell_linux.Tags.Parse.{prerelease-less}

abbrev ascii_digit : ℕ → Option ℕ
ascii_digit c = if leb 48 c && leb c 57 then some (c - 48) else none

abbrev release_key : TagKey
release_key = record { major = 0; minor = 2; patch = 10; prerelease = none }

abbrev candidate_key : TagKey
candidate_key = record release_key { prerelease = some (name (codes "rc") ∷ number 1 ∷ []) }

release_parsed : parse_tag ascii_digit (codes "v0.2.10") ≡ ok release_key
unfolding parse_tag
release_parsed = refl

candidate_parsed : parse_tag ascii_digit (codes "v0.2.10-RC.1") ≡ ok candidate_key
unfolding parse_tag
candidate_parsed = refl

leading_zero_raises : parse_tag ascii_digit (codes "v0.2.010") ≡ raise invalid_tag
unfolding parse_tag
leading_zero_raises = refl

numbers_compared : compare_tags ascii_digit (codes "v0.2.10") (codes "v0.2.9") ≡ ok greater
unfolding compare_tags
numbers_compared = refl

prerelease-less_example :
    compare_tags ascii_digit (codes "v0.2.10" ++ (b'-' ∷ codes "RC.1")) (codes "v0.2.10") ≡ ok less
prerelease-less_example =
    prerelease-less ascii_digit refl (codes "v0.2.10") (codes "RC.1") release_key candidate_key
      release_parsed refl candidate_parsed
