-- ===== src/Dates/Civil/Blocks.antt =====
-- The lengths of years and months add up.
use sports_erp.Prelude.{ℕ, zero, suc, ◌+◌, ◌≤◌, ◌≡◌, refl, arith}
use sports_erp.Dates.Civil.{days_in_year, days_in_month, days_before_year, days_before_month}

pub days_before_year-suc :
    (y : ℕ) → 1 ≤ y → days_before_year (y + 1) ≡ days_before_year y + days_in_year y
unfolding days_before_year days_in_year
days_before_year-suc y h = ground arith

pub days_before_month-suc :
    (y m : ℕ) → 1 ≤ m → days_before_month y (m + 1) ≡ days_before_month y m + days_in_month y m
unfolding days_before_month
days_before_month-suc y zero h = absurd (omega arith)
days_before_month-suc y (suc m) h = ground arith

pub days_before_month-1 : (y : ℕ) → days_before_month y 1 ≡ 0
unfolding days_before_month
days_before_month-1 y = refl

pub days_before_month-13 : (y : ℕ) → days_before_month y 13 ≡ days_in_year y
unfolding days_before_month days_in_month days_in_year
days_before_month-13 y = ground arith

pub days_in_month-bounds : (y m : ℕ) → (28 ≤ days_in_month y m) × (days_in_month y m ≤ 31)
unfolding days_in_month
days_in_month-bounds y m = ground arith

pub days_in_year-bounds : (y : ℕ) → (365 ≤ days_in_year y) × (days_in_year y ≤ 366)
unfolding days_in_year
days_in_year-bounds y = ground arith

-- The months before `k` more are over.
pub days_before_month_mono :
    (y m k : ℕ) → 1 ≤ m → days_before_month y m ≤ days_before_month y (m + k)
days_before_month_mono y m zero h = let e : m + 0 ≡ m = omega arith in rw e (omega arith)
days_before_month_mono y m (suc k) h =
    let e : m + suc k ≡ (m + k) + 1 = omega arith in
    rw e (omega (arith, days_before_month_mono y m k h, days_before_month-suc y (m + k)))

pub days_before_year_mono : (y k : ℕ) → 1 ≤ y → days_before_year y ≤ days_before_year (y + k)
days_before_year_mono y zero h = let e : y + 0 ≡ y = omega arith in rw e (omega arith)
days_before_year_mono y (suc k) h =
    let e : y + suc k ≡ (y + k) + 1 = omega arith in
    rw e (omega (arith, days_before_year_mono y k h, days_before_year-suc (y + k)))
