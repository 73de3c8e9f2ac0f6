-- ===== src/Compat/Tests.antt =====
-- Versions read, and instances of the theorems, over the ASCII characters.
use rocket_cat_shell_linux.Base.{
  ◌-◌, ◌≡◌, refl, none, some, ◌&&◌, ◌||◌, leb, nat_beq, if◌then◌else◌,
}
use rocket_cat_shell_linux.Base.Text.{codes}
use rocket_cat_shell_linux.Compat.{version, CharClasses, parse}
use rocket_cat_shell_linux.Compat.Gates.{Opens, Rates, from_version-judges}

abbrev ascii : CharClasses
ascii = record {
  is_space = λ c. nat_beq c 32 || leb 9 c && leb c 13;
  digit = λ c. if leb 48 c && leb c 57 then some (c - 48) else none;
}

reads : parse ascii (codes "  7.10.2-rc.1") ≡ some (version 7 10 2)
unfolding parse
reads = refl

reads_short : parse ascii (codes "8.3") ≡ some (version 8 3 0)
unfolding parse
reads_short = refl

rejects : parse ascii (codes "v8.3") ≡ none
unfolding parse
rejects = refl

from_version-judges_example : Opens (version 8 6 0) × Rates (version 8 6 0)
from_version-judges_example = from_version-judges (version 8 6 0)
