-- ===== src/BucketSettings/Quota.antt =====
-- The quota card of frontend/src/components/bucket-settings.tsx reads back what it shows.
use garage_admin_console.Base.{ℕ, ◌*◌, ◌≤◌, ◌<◌, ◌≡◌, true, false}
use garage_admin_console.Locale.{decimal}
use garage_admin_console.BucketSettings.{Numbers, Size, larger_units, factor_of}

-- `Number.MAX_SAFE_INTEGER`
abbrev pub max_safe_integer : ℕ
max_safe_integer = 9007199254740991

-- `Number` reads the digits of a safe integer exactly, and a product that is one is exact. Nothing is
-- asked where a factor is too large for that, which reads as `Infinity`.
pub record IsExact (nums : Numbers) : Type 0 where
  pub finite : (n : ℕ) → n ≤ max_safe_integer → nums.is_finite (nums.of_text (decimal n)) ≡ true
  pub positive :
      (n factor : ℕ)
      → 0 < n * factor
      → nums.is_le_zero (nums.scaled (nums.of_text (decimal n)) factor) ≡ false
  pub safe :
      (n factor : ℕ)
      → 0 < n * factor
      → n * factor ≤ max_safe_integer
      → nums.is_safe_integer (nums.scaled (nums.of_text (decimal n)) factor) ≡ true
  pub exact :
      (n factor : ℕ)
      → 0 < n * factor
      → n * factor ≤ max_safe_integer
      → nums.to_nat (nums.scaled (nums.of_text (decimal n)) factor) ≡ n * factor
  pub unscaled : (n : ℕ) → nums.scaled (nums.of_text (decimal n)) 1 ≡ nums.of_text (decimal n)

-- A number of a unit, which together are the bytes.
IsSizeOf : ℕ → Size → Type 0
IsSizeOf bytes size =
    (n : ℕ) × ((size.value ≡ decimal n) × (n * factor_of size.unit larger_units ≡ bytes))
