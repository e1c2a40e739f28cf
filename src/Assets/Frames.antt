-- ===== src/Assets/Frames.antt =====
-- What each call of asset.service.ts does to the assets and to the log.
use sports_erp.Prelude.{
  ℕ, ◌≡◌, ◌⊎◌, List, [], ◌∷◌, ◌++◌, true, ◌==◌, inl, inr, Bool-cases, Option-cases, find, count,
  update, exists, if◌then◌else◌, ◌||◌, ◌+◌, arith,
}
use sports_erp.Store.{Db}
use sports_erp.Store.Errors.{ok}
use sports_erp.Store.Branches.{Text, Branch, CodeSequence, CodeSequenceKind}
use sports_erp.Store.Operations.{Asset, AssetType, AssetStatus}
use sports_erp.Integrity.{lock_branch_for_share, is_terminated}
use sports_erp.Integrity.Codes.{
  allocate_branch_code, text_eq, code_prefix, code_of, is_sequence, next_value,
}
use sports_erp.Dates.Kst.{to_kst_date_string}
use sports_erp.Assets.{
  AssetInput, AssetPatch, create, create_body, insert_asset, new_asset, write_update, patched,
  check_status, write_status, move_body, moved, can_change, is_still, has_id, breaks_checks,
}
use sports_erp.Assets.Log.{entry}

pub checked :
    (id : ℕ) (status : AssetStatus) (a : Asset) (seen : Db)
    → check_status id status seen ≡ (ok a, seen)
    → can_change a.status status ≡ true
unfolding check_status
checked id status a seen h = elim (Option-cases (find (has_id id) seen.assets)) [
  | inl e ↦ absurd (ground (arith, h, e))
  | inr (r, e) ↦ ground (arith, h, e)
]

-- A code is drawn without fail, and only the sequences change.
allocated :
    (now : ℕ) (b : Branch) (kind : CodeSequenceKind) (db : Db)
    → (code : Text) × (sequences : List CodeSequence) × (allocate_branch_code now b kind db
        ≡ (ok code, record db { sequences = sequences }))
unfolding allocate_branch_code
allocated now b kind db =
    let prefix = code_prefix kind b.code (to_kst_date_string now).year in
    elim (Option-cases (find (is_sequence b.id kind prefix) db.sequences)) [
      | inl n ↦ (
        code_of kind prefix 1,
        db.sequences
            ++ record { branch_id = b.id; kind = kind; prefix = prefix; last_value = 1 } ∷ [],
        ground (arith, n),
      )
      | inr (s, e) ↦ (
        code_of kind prefix (s.last_value + 1),
        update (is_sequence b.id kind prefix) next_value db.sequences,
        ground (arith, e),
      )
    ]

-- What a creation does: nothing, or a new row of its identifier.
pub create_frame :
    (now new branch : ℕ) (i : AssetInput) (db : Db)
    → ((create now new branch i db).1.audit ≡ db.audit)
      × (((create now new branch i db).1.assets ≡ db.assets)
          ⊎ ((code : Text) × ((create now new branch i db).1.assets
                ≡ db.assets ++ new_asset new branch code i ∷ [])))
unfolding create create_body insert_asset
create_frame now new branch i db = elim (Option-cases (lock_branch_for_share branch db)) [
  | inl n ↦ (ground (arith, n), inl (ground (arith, n)))
  | inr (b, e) ↦ elim (Bool-cases (is_terminated b.contract_status)) [
    | inl t ↦ (ground (arith, e, t), inl (ground (arith, e, t)))
    | inr f ↦
        let (code, sequences, drawn) = allocated now b CodeSequenceKind.asset db in
        let a = new_asset new branch code i in
        elim (Bool-cases
          (exists (λ c. text_eq c.asset_code a.asset_code) db.assets || breaks_checks a)) [
            | inl t ↦ (ground (arith, e, f, drawn, t), inl (ground (arith, e, f, drawn, t)))
            | inr g ↦ (ground (arith, e, f, drawn, g), inr (code, ground (arith, e, f, drawn, g)))
          ]
  ]
]

pub update_frame :
    (id : ℕ) (p : AssetPatch) (type : AssetType) (db : Db)
    → ((write_update id p type db).1.audit ≡ db.audit)
      × (((write_update id p type db).1.assets ≡ db.assets)
          ⊎ ((write_update id p type db).1.assets ≡ update (has_id id) (patched type p) db.assets))
unfolding write_update
update_frame id p type db = ground arith

pub status_frame :
    (actor id : ℕ) (status : AssetStatus) (a : Asset) (db : Db)
    → ((write_status actor id status a db).1.assets
        ≡ update (is_still id a.status) (moved status) db.assets)
      × (if count (is_still id a.status) db.assets == 0
          then (write_status actor id status a db).1.audit ≡ db.audit
          else (write_status actor id status a db).1.audit
            ≡ db.audit ++ entry actor id a.branch_id a.status status ∷ [])
unfolding write_status move_body
status_frame actor id status a db =
    elim (Bool-cases (count (is_still id a.status) db.assets == 0)) [
      | inl z ↦ ground (arith, z)
      | inr z ↦ ground (arith, z)
    ]
