-- ===== src/Compat.antt =====
-- rocketcat_shell/bridge/rocketchat_compat.py: what a server's version allows.
-- The classes of characters that `\s` and `\d` stand for, and the value of a digit, are Python's.
mod Gates
mod Tests
use rocket_cat_shell_linux.Base.{
  ℕ, zero, suc, ◌+◌, ◌*◌, ◌<◌, ◌≤◌, ◌≡◌, Bool, true, false, ◌&&◌, ◌||◌, not, Option, none, some,
  List, [], ◌∷◌, ltb, leb, nat_beq, if◌then◌else◌,
}
use rocket_cat_shell_linux.Base.Text.{Text}

pub record RocketChatVersion : Type 0 where
  pub major : ℕ
  pub minor : ℕ
  pub patch : ℕ

abbrev pub version : ℕ → ℕ → ℕ → RocketChatVersion
version a b c = record { major = a; minor = b; patch = c }

-- The order of the dataclass: field by field.
pub version_lt : RocketChatVersion → RocketChatVersion → Bool
version_lt v w =
    ltb v.major w.major
    || nat_beq v.major w.major
      && (ltb v.minor w.minor || nat_beq v.minor w.minor && ltb v.patch w.patch)

pub version_le : RocketChatVersion → RocketChatVersion → Bool
unfolding version_lt
version_le v w = not (version_lt w v)

pub record CharClasses : Type 0 where
  pub is_space : ℕ → Bool
  pub digit : ℕ → Option ℕ

module _ (classes : CharClasses) where
  open classes use {is_space, digit}

  -- `\s*`
  pub skip_spaces : Text → Text
  skip_spaces [] = []
  skip_spaces (c ∷ s) = let rest = skip_spaces s in if is_space c then rest else c ∷ s

  -- `int` of the digits in front, from those read so far, and what follows them.
  pub digits_from : ℕ → Text → ℕ × Text
  digits_from n [] = (n, [])
  digits_from n (c ∷ s) = elim (digit c) [ none ↦ (n, c ∷ s) | some d ↦ digits_from (n * 10 + d) s ]

  -- `(\d+)`
  pub number : Text → Option (ℕ × Text)
  unfolding digits_from
  number [] = none
  number (c ∷ s) = elim (digit c) [ none ↦ none | some d ↦ some (digits_from d s) ]

  -- `\.(\d+)`
  pub dot_number : Text → Option (ℕ × Text)
  unfolding number
  dot_number [] = none
  dot_number (c ∷ s) = if nat_beq c b'.' then number s else none

  abbrev pub patch_of : Option (ℕ × Text) → ℕ
  patch_of none = 0
  patch_of (some (n, s)) = n

  -- `_VERSION_RE.match` and the conversion of its groups.
  pub parse : Text → Option RocketChatVersion
  unfolding skip_spaces number dot_number
  parse value = elim (number (skip_spaces value)) [
    | none ↦ none
    | some (a, s) ↦ elim (dot_number s) [
      | none ↦ none
      | some (b, t) ↦ some (version a b (patch_of (dot_number t)))
    ]
  ]

pub data Status : Type 0 where
  unknown unsupported supported untested : Status

pub record RocketChatCapabilities : Type 0 where
  pub version : Option RocketChatVersion
  pub compatibility_status : Status
  pub supports_modern_media : Bool
  pub allows_legacy_upload_fallback : Bool
  pub allows_ddp_method_fallback : Bool
  pub strict_rest_validation : Bool
  pub secure_upload_validation : Bool

abbrev pub minimum_version : RocketChatVersion
minimum_version = version 7 10 0

abbrev pub maximum_tested_series : RocketChatVersion
maximum_tested_series = version 8 5 999999

abbrev pub unknown_capabilities : RocketChatCapabilities
unknown_capabilities = record {
  version = none;
  compatibility_status = unknown;
  supports_modern_media = true;
  allows_legacy_upload_fallback = true;
  allows_ddp_method_fallback = true;
  strict_rest_validation = false;
  secure_upload_validation = false;
}

-- `from_version`, of a version that was parsed, or could not be.
pub from_version : Option RocketChatVersion → RocketChatCapabilities
unfolding version_le
from_version none = unknown_capabilities
from_version (some v) =
    let is_supported = version_le minimum_version v in
    record {
      version = some v;
      compatibility_status =
          if not is_supported
          then unsupported
          else if version_le v maximum_tested_series
          then supported
          else untested;
      supports_modern_media = is_supported;
      allows_legacy_upload_fallback = is_supported && ltb v.major 8;
      allows_ddp_method_fallback = is_supported && ltb v.major 8;
      strict_rest_validation = version_le (version 8 3 0) v;
      secure_upload_validation = version_le (version 8 5 0) v;
    }

-- `endpoint_incompatible` of an HTTP status
pub endpoint_incompatible : ℕ → Bool
endpoint_incompatible status =
    nat_beq status 404 || nat_beq status 405 || nat_beq status 410 || nat_beq status 501
