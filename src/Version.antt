-- ===== src/Version.antt =====
-- include/core/version_check.hpp: versions of the library and whether two of them go together.
pub mod Compatibility
pub mod Texts
use libgossip.Base.{
  ℕ, ◌+◌, ◌/◌, ◌%◌, Bool, not, ◌&&◌, [], ◌∷◌, ◌++◌, ℤ, ltb, ◌==◌, if◌then◌else◌, Bytes, pos, negsuc,
}

pub record VersionInfo : Type 0 where
  pub major : ℕ
  pub minor : ℕ
  pub patch : ℕ

unfoldable pub compare : VersionInfo → VersionInfo → ℤ
compare a b =
    if not (a.major == b.major)
    then (if ltb b.major a.major then pos 1 else negsuc 0)
    else if not (a.minor == b.minor)
    then (if ltb b.minor a.minor then pos 1 else negsuc 0)
    else if not (a.patch == b.patch)
    then (if ltb b.patch a.patch then pos 1 else negsuc 0)
    else pos 0

unfoldable pub same_version : VersionInfo → VersionInfo → Bool
same_version a b = a.major == b.major && a.minor == b.minor && a.patch == b.patch

-- operator<
unfoldable pub less : VersionInfo → VersionInfo → Bool
less a b =
    if not (a.major == b.major)
    then ltb a.major b.major
    else if not (a.minor == b.minor)
    then ltb a.minor b.minor
    else ltb a.patch b.patch

-- operator>, operator<= and operator>=
unfoldable pub greater : VersionInfo → VersionInfo → Bool
unfolding less
greater a b = less b a

unfoldable pub at_most : VersionInfo → VersionInfo → Bool
unfolding less
at_most a b = not (less b a)

unfoldable pub at_least : VersionInfo → VersionInfo → Bool
unfolding less
at_least a b = not (less a b)

-- LIBGOSSIP_MIN_COMPATIBLE_VERSION
abbrev pub min_compatible : VersionInfo
min_compatible = record { major = 1; minor = 0; patch = 0 }

-- `own` is LIBGOSSIP_VERSION_INFO, whose numbers the build sets.
unfoldable pub is_version_compatible : VersionInfo → VersionInfo → Bool
unfolding at_least
is_version_compatible own version = version.major == own.major && at_least version min_compatible

pub data VersionCheckResult : Type 0 where
  compatible incompatible_major too_old too_new invalid : VersionCheckResult

unfoldable pub check_version_compatibility : VersionInfo → VersionInfo → VersionCheckResult
unfolding less greater
check_version_compatibility own version =
    if version.major == 0 && version.minor == 0 && version.patch == 0
    then VersionCheckResult.invalid
    else if not (version.major == own.major)
    then VersionCheckResult.incompatible_major
    else if less version min_compatible
    then VersionCheckResult.too_old
    else if greater version own
    then VersionCheckResult.too_new
    else VersionCheckResult.compatible

-- operator!=
unfoldable pub other_version : VersionInfo → VersionInfo → Bool
unfolding same_version
other_version a b = not (same_version a b)

-- A uint8_t as decimal digits.
unfoldable pub write_byte : ℕ → Bytes
write_byte n =
    if ltb n 10
    then (b'0' + n) ∷ []
    else if ltb n 100
    then (b'0' + n / 10) ∷ (b'0' + n % 10) ∷ []
    else (b'0' + n / 100) ∷ (b'0' + n / 10 % 10) ∷ (b'0' + n % 10) ∷ []

-- version_info::to_string
unfoldable pub version_to_string : VersionInfo → Bytes
unfolding write_byte
version_to_string v = write_byte v.major ++ b'.' ∷ (write_byte v.minor ++ b'.' ∷ write_byte v.patch)

-- version_check_result_to_string, for the values of the enumeration.
unfoldable pub version_check_result_to_string : VersionCheckResult → Bytes
version_check_result_to_string VersionCheckResult.compatible =
    b'C' ∷ b'o' ∷ b'm' ∷ b'p' ∷ b'a' ∷ b't' ∷ b'i' ∷ b'b' ∷ b'l' ∷ b'e' ∷ []
version_check_result_to_string VersionCheckResult.incompatible_major =
    b'I' ∷ b'n' ∷ b'c' ∷ b'o' ∷ b'm' ∷ b'p' ∷ b'a' ∷ b't' ∷ b'i' ∷ b'b' ∷ b'l' ∷ b'e' ∷ 32 ∷ b'm'
    ∷ b'a' ∷ b'j' ∷ b'o' ∷ b'r' ∷ 32 ∷ b'v' ∷ b'e' ∷ b'r' ∷ b's' ∷ b'i' ∷ b'o' ∷ b'n' ∷ []
version_check_result_to_string VersionCheckResult.too_old =
    b'V' ∷ b'e' ∷ b'r' ∷ b's' ∷ b'i' ∷ b'o' ∷ b'n' ∷ 32 ∷ b't' ∷ b'o' ∷ b'o' ∷ 32 ∷ b'o' ∷ b'l'
    ∷ b'd' ∷ []
version_check_result_to_string VersionCheckResult.too_new =
    b'V' ∷ b'e' ∷ b'r' ∷ b's' ∷ b'i' ∷ b'o' ∷ b'n' ∷ 32 ∷ b't' ∷ b'o' ∷ b'o' ∷ 32 ∷ b'n' ∷ b'e'
    ∷ b'w' ∷ 32 ∷ b'(' ∷ b'f' ∷ b'u' ∷ b't' ∷ b'u' ∷ b'r' ∷ b'e' ∷ b')' ∷ []
version_check_result_to_string VersionCheckResult.invalid =
    b'I' ∷ b'n' ∷ b'v' ∷ b'a' ∷ b'l' ∷ b'i' ∷ b'd' ∷ 32 ∷ b'v' ∷ b'e' ∷ b'r' ∷ b's' ∷ b'i' ∷ b'o'
    ∷ b'n' ∷ []
