-- ===== src/Compat/Gates.antt =====
-- The gates that a version opens hang together.
use rocket_cat_shell_linux.Base.{ℕ, ◌<◌, ◌≤◌, ◌≡◌, ◌↔◌, ◌⊎◌, true, false, Option, none, some, arith}
use rocket_cat_shell_linux.Compat.{
  RocketChatVersion, unsupported, supported, untested, from_version,
}

-- The lexicographic order, as a statement.
abbrev pub IsAtLeast : RocketChatVersion → ℕ → ℕ → ℕ → Type 0
IsAtLeast v a b c =
    (a < v.major) ⊎ ((v.major ≡ a) × ((b < v.minor) ⊎ ((v.minor ≡ b) × (c ≤ v.patch))))

-- What a version opens: each gate exactly from its version on, the fallback to the old upload and the
-- one to the DDP method exactly for the supported versions before 8.
abbrev pub Opens : RocketChatVersion → Type 0
Opens v =
    ((from_version (some v)).supports_modern_media ≡ true ↔ IsAtLeast v 7 10 0)
    × ((from_version (some v)).strict_rest_validation ≡ true ↔ IsAtLeast v 8 3 0)
    × ((from_version (some v)).secure_upload_validation ≡ true ↔ IsAtLeast v 8 5 0)
    × ((from_version (some v)).allows_legacy_upload_fallback ≡ true
        ↔ (IsAtLeast v 7 10 0 × (v.major < 8)))
    × ((from_version (some v)).allows_ddp_method_fallback ≡ true
        ↔ (IsAtLeast v 7 10 0 × (v.major < 8)))

abbrev pub IsBelow : RocketChatVersion → ℕ → ℕ → ℕ → Type 0
IsBelow v a b c =
    (v.major < a) ⊎ ((v.major ≡ a) × ((v.minor < b) ⊎ ((v.minor ≡ b) × (v.patch < c))))

-- The status: unsupported below 7.10.0, untested from 8.5.1000000 on, and supported in between.
abbrev pub Rates : RocketChatVersion → Type 0
Rates v =
    ((from_version (some v)).compatibility_status ≡ unsupported ↔ IsBelow v 7 10 0)
    × ((from_version (some v)).compatibility_status ≡ untested ↔ IsAtLeast v 8 5 1000000)
    × ((from_version (some v)).compatibility_status ≡ supported
        ↔ (IsAtLeast v 7 10 0 × IsBelow v 8 5 1000000))

from_version-Opens : (v : RocketChatVersion) → Opens v
unfolding from_version
from_version-Opens v = (ground arith, ground arith, ground arith, ground arith, ground arith)

from_version-Rates : (v : RocketChatVersion) → Rates v
unfolding from_version
from_version-Rates v = (ground arith, ground arith, ground arith)

-- The gates and the status of a parsed version are those of its place among the known versions: the
-- media gates open from 7.10.0, strict validation from 8.3.0, secure uploads from 8.5.0, and the two
-- fallbacks, to the old upload and to the DDP method, for every version from 7.10.0 up to, not
-- including, 8.
pub from_version-judges : (v : RocketChatVersion) → Opens v × Rates v
from_version-judges v = (from_version-Opens v, from_version-Rates v)

-- A server that needs strict validation is never offered a fallback, whatever its version text was.
pub no_fallback_when_strict :
    (o : Option RocketChatVersion)
    → (from_version o).strict_rest_validation ≡ true
    → ((from_version o).supports_modern_media ≡ true)
      × ((from_version o).allows_legacy_upload_fallback ≡ false)
      × ((from_version o).allows_ddp_method_fallback ≡ false)
unfolding from_version
no_fallback_when_strict none h = cc
no_fallback_when_strict (some v) h = ground arith
