-- ===== src/Integrity/Codes.antt =====
-- Code allocation: `allocateSequence` and `allocateBranchCode` of prisma/integrity.ts.
pub mod Fresh
use sports_erp.Prelude.{
  ℕ, zero, suc, ◌+◌, ◌-◌, ◌/◌, ◌%◌, Option, none, some, List, [], ◌∷◌, ◌++◌, Bool, true, false,
  ◌&&◌, ltb, ◌==◌, if◌then◌else◌, find, update, length,
}
use sports_erp.Store.{Db, Action, pure, gets, modify, ◌>>=◌, ◌>>◌}
use sports_erp.Store.Errors.{Result, ok, err}
use sports_erp.Store.Branches.{Text, Branch, CodeSequence, CodeSequenceKind}
use sports_erp.Dates.Civil.{Ymd}
use sports_erp.Dates.Kst.{to_kst_date_string}

abbrev pub text_eq : Text → Text → Bool
text_eq [] [] = true
text_eq (a ∷ s) (b ∷ t) = a == b && text_eq s t
text_eq _ _ = false

abbrev pub kind_eq : CodeSequenceKind → CodeSequenceKind → Bool
kind_eq CodeSequenceKind.staff CodeSequenceKind.staff = true
kind_eq CodeSequenceKind.member CodeSequenceKind.member = true
kind_eq CodeSequenceKind.asset CodeSequenceKind.asset = true
kind_eq _ _ = false

abbrev pub is_sequence : ℕ → CodeSequenceKind → Text → CodeSequence → Bool
is_sequence branch kind prefix s =
    s.branch_id == branch && (kind_eq s.kind kind && text_eq s.prefix prefix)

abbrev pub next_value : CodeSequence → CodeSequence
next_value s = record s { last_value = s.last_value + 1 }

-- One statement, `INSERT … ON CONFLICT DO UPDATE … RETURNING`: a new sequence begins at 1, one that
-- is there goes up by one.
unfoldable pub allocate_sequence : ℕ → CodeSequenceKind → Text → Action ℕ
allocate_sequence branch kind prefix db =
    elim (find (is_sequence branch kind prefix) db.sequences) [
      | none ↦ (
        ok 1,
        record db {
          sequences =
              db.sequences
              ++ record { branch_id = branch; kind = kind; prefix = prefix; last_value = 1 } ∷ [];
        },
      )
      | some s ↦ (
        ok (s.last_value + 1),
        record db { sequences = update (is_sequence branch kind prefix) next_value db.sequences },
      )
    ]

-- The decimal digits of a number below 10 ^ (fuel + 1).
unfoldable pub decimal_from : ℕ → ℕ → Text
decimal_from zero n = (48 + n % 10) ∷ []
decimal_from (suc fuel) n =
    let more = decimal_from fuel (n / 10) ++ (48 + n % 10) ∷ [] in
    if ltb n 10 then (48 + n) ∷ [] else more

-- `String(n)`: a number has fewer digits than its value, but for 0.
unfoldable pub decimal : ℕ → Text
unfolding decimal_from
decimal n = decimal_from n n

abbrev pub zeros : ℕ → Text
zeros zero = []
zeros (suc n) = 48 ∷ zeros n

-- `padStart(width, '0')`
abbrev pub pad_start : ℕ → Text → Text
pad_start width t = zeros (width - length t) ++ t

-- `-` is 45 and `A` is 65.
abbrev pub code_prefix : CodeSequenceKind → Text → ℕ → Text
code_prefix CodeSequenceKind.staff code year = code ++ 45 ∷ []
code_prefix CodeSequenceKind.member code year = code ++ pad_start 4 (decimal year)
code_prefix CodeSequenceKind.asset code year = code ++ 45 ∷ 65 ∷ []

abbrev pub code_of : CodeSequenceKind → Text → ℕ → Text
code_of CodeSequenceKind.member prefix seq = prefix ++ (45 ∷ pad_start 3 (decimal seq))
code_of _ prefix seq = prefix ++ pad_start 3 (decimal seq)

unfoldable pub allocate_branch_code : ℕ → Branch → CodeSequenceKind → Action Text
unfolding allocate_sequence
allocate_branch_code now branch kind = do
  let prefix = code_prefix kind branch.code (to_kst_date_string now).year
  seq ← allocate_sequence branch.id kind prefix
  pure (code_of kind prefix seq)
