-- ===== src/Version/Texts.antt =====
-- The texts of versions.
use libgossip.Base.{
  ℕ, ◌+◌, ◌-◌, ◌*◌, ◌/◌, ◌%◌, ◌<◌, ◌≡◌, refl, ap, ◌∙◌, inl, inr, false, [], ◌∷◌, ◌++◌, arith, ltb,
  ◌==◌, if◌then◌else◌, Bytes, Bool-cases, if_true, if_false,
}
use libgossip.Version.{write_byte, version_to_string, VersionInfo}

-- The value of the digits before the first point, and what follows it.
read_number : ℕ → Bytes → ℕ × Bytes
read_number n [] = (n, [])
read_number n (c ∷ cs) =
    let more = read_number (n * 10 + (c - b'0')) cs in if c == b'.' then (n, cs) else more

read_digit :
    (m d : ℕ) (cs : Bytes) → d < 10 → read_number m ((b'0' + d) ∷ cs) ≡ read_number (m * 10 + d) cs
unfolding read_number
read_digit m d cs h =
    let plain : (b'0' + d == b'.') ≡ false = ground (arith, h) in
    let value : m * 10 + (b'0' + d - b'0') ≡ m * 10 + d = omega arith in
    if_false _ _ plain ∙ ap (λ k. read_number k cs) value

read_number-write_byte :
    (n : ℕ) (rest : Bytes) → n < 256 → read_number 0 (write_byte n ++ b'.' ∷ rest) ≡ (n, rest)
unfolding read_number write_byte
read_number-write_byte n rest h =
    let stop : Bytes = b'.' ∷ rest in
    let read = λ (text : Bytes). read_number 0 (text ++ stop) in
    let found = λ (k : ℕ) (e : k ≡ n). ap (λ k. read_number k stop) e in
    elim (Bool-cases (ltb n 10)) [
      | inl one ↦
          ap read (if_true _ _ one)
          ∙ read_digit 0 n stop (ground (arith, one))
          ∙ found (0 * 10 + n) (omega arith)
      | inr more ↦ elim (Bool-cases (ltb n 100)) [
        | inl two ↦
            ap read (if_false _ _ more ∙ if_true _ _ two)
            ∙ read_digit 0 (n / 10) ((b'0' + n % 10) ∷ stop) (ground (arith, two))
            ∙ read_digit (0 * 10 + n / 10) (n % 10) stop (omega arith)
            ∙ found ((0 * 10 + n / 10) * 10 + n % 10) (omega arith)
        | inr three ↦
            ap read (if_false _ _ more ∙ if_false _ _ three)
            ∙ read_digit 0 (n / 100) ((b'0' + n / 10 % 10) ∷ (b'0' + n % 10) ∷ stop)
                (omega (arith, h))
            ∙ read_digit (0 * 10 + n / 100) (n / 10 % 10) ((b'0' + n % 10) ∷ stop) (omega arith)
            ∙ read_digit ((0 * 10 + n / 100) * 10 + n / 10 % 10) (n % 10) stop (omega arith)
            ∙ found (((0 * 10 + n / 100) * 10 + n / 10 % 10) * 10 + n % 10) (omega arith)
      ]
    ]

-- The major, the minor and the patch number of a text.
numbers_of : Bytes → ℕ × ℕ × ℕ
numbers_of text =
    let (major, after_major) = read_number 0 text in
    let (minor, after_minor) = read_number 0 after_major in
    (major, minor, (read_number 0 (after_minor ++ b'.' ∷ [])).0)

-- The three numbers can be read again from the text, so that different versions have different
-- texts.
numbers_of-version_to_string :
    (v : VersionInfo)
    → v.major < 256
    → v.minor < 256
    → v.patch < 256
    → numbers_of (version_to_string v) ≡ (v.major, v.minor, v.patch)
unfolding version_to_string numbers_of
numbers_of-version_to_string v h k l =
    rw
      (
        read_number-write_byte v.major (write_byte v.minor ++ b'.' ∷ write_byte v.patch) h,
        read_number-write_byte v.minor (write_byte v.patch) k,
        read_number-write_byte v.patch [] l,
      )
      refl
