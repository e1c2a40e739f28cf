-- ===== src/Reservations/Vat.antt =====
-- `splitVat`: the amount that was paid is split into the supply amount and a tax of 10%.
-- `Math.round(amount / 1.1)` is the whole number nearest to the quotient, a half rounded up. The
-- divisor is the double that the literal 1.1 denotes, 4953959590107546 / 2 ^ 52; the quotient is
-- kept exact, where the program rounds it to 53 bits.
use sports_erp.Prelude.{ℕ, ◌+◌, ◌-◌, ◌*◌, ◌/◌, ◌≤◌, ◌<◌, ◌≡◌, arith}

abbrev pub ratio_num : ℕ
ratio_num = 4953959590107546

abbrev pub ratio_den : ℕ
ratio_den = 4503599627370496

-- The supply amount and the tax.
unfoldable pub split_vat : ℕ → ℕ × ℕ
split_vat amount =
    let supply = (2 * amount * ratio_den + ratio_num) / (2 * ratio_num) in (supply, amount - supply)

-- The two parts make up the amount, which is what the CHECK on payments wants.
pub split_vat-sum : (amount : ℕ) → (split_vat amount).0 + (split_vat amount).1 ≡ amount
unfolding split_vat
split_vat-sum amount = omega arith

-- For every amount that the Int column holds, the supply amount is the whole number nearest to
-- ten elevenths of the amount; so the tax is a tenth of the supply amount but for half a unit.
pub split_vat_exact :
    (amount : ℕ)
    → amount < 2147483648
    → ((split_vat amount).0 ≡ (20 * amount + 11) / 22)
      × (10 * (split_vat amount).1 ≤ (split_vat amount).0 + 5)
      × ((split_vat amount).0 ≤ 10 * (split_vat amount).1 + 5)
unfolding split_vat
split_vat_exact amount h = omega arith
