-- ===== src/Version/Compatibility.antt =====
-- The two tests of a version, and the order of versions.
use libgossip.Base.{◌<◌, ◌≡◌, ◌↔◌, ◌⊎◌, true, false, arith, pos, negsuc}
use libgossip.Version.{
  compare, same_version, less, greater, at_least, is_version_compatible,
  check_version_compatibility, VersionInfo, VersionCheckResult,
}

-- The order of versions, by its three numbers in turn.
abbrev pub Precedes : VersionInfo → VersionInfo → Type 0
Precedes a b =
    (a.major < b.major)
    ⊎ ((a.major ≡ b.major) × ((a.minor < b.minor) ⊎ ((a.minor ≡ b.minor) × (a.patch < b.patch))))

less_iff : (a b : VersionInfo) → (less a b ≡ true) ↔ Precedes a b
unfolding less
less_iff a b = ground arith

-- is_version_compatible accepts a version exactly when check_version_compatibility finds it
-- compatible or too new.
is_version_compatible_iff :
    (own version : VersionInfo)
    → (is_version_compatible own version ≡ true) ↔ (
        (check_version_compatibility own version ≡ VersionCheckResult.compatible)
        ⊎ (check_version_compatibility own version ≡ VersionCheckResult.too_new))
unfolding is_version_compatible check_version_compatibility at_least greater less
is_version_compatible_iff own version = ground arith

-- For any two versions one of three holds: the second precedes the first, compare gives 1 and
-- operator> holds; they are the same, compare gives 0 and operator== holds but not operator<; or
-- the first precedes the second, compare gives -1 and operator< holds; in the first and the last
-- case operator== does not hold.
compare_lem :
    (a b : VersionInfo)
    → ((compare a b ≡ pos 1) × Precedes b a × (greater a b ≡ true) × (same_version a b ≡ false))
      ⊎ ((compare a b ≡ pos 0) × (a ≡ b) × (less a b ≡ false) × (same_version a b ≡ true))
      ⊎ ((compare a b ≡ negsuc 0) × Precedes a b × (less a b ≡ true) × (same_version a b ≡ false))
unfolding compare greater less same_version
compare_lem a b = ground arith
