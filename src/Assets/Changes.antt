-- ===== src/Assets/Changes.antt =====
-- What each call does to one asset and to what the log tells of it.
use sports_erp.Prelude.{
  ℕ, ◌≡◌, refl, sym, ap, ◌∙◌, subst, some, [], ◌∷◌, ◌++◌, true, false, ◌==◌, inl, inr, Bool-cases,
  find, count, find-update, find-append_some, update_none, All-find, if◌then◌else◌, Distinct-find,
  find_of_count, find-passes, arith, updated,
}
use sports_erp.Store.{Db}
use sports_erp.Store.Operations.{Asset, AssetType, AssetStatus}
use sports_erp.Assets.{
  AssetInput, AssetPatch, create, new_asset, write_update, patched, write_status, moved, can_change,
  is_still, has_id, status_eq,
}
use sports_erp.Assets.Log.{entry, IsKeyed, Told, quiet, other, told}
use sports_erp.Assets.Frames.{create_frame, update_frame, status_frame}

-- With one row of an identifier, a change that found its row has found that one.
still_there :
    (id : ℕ) (status : AssetStatus) (r : Asset) (db : Db)
    → IsKeyed db
    → find (has_id id) db.assets ≡ some r
    → (count (is_still id status) db.assets == 0) ≡ false
    → is_still id status r ≡ true
still_there id status r db d e n =
    let (x, f) = find_of_count (is_still id status) db.assets (ground (arith, n)) in
    let there : x.id ≡ r.id = ground (
      arith,
      find-passes (is_still id status) db.assets x f,
      find-passes (has_id id) db.assets r e,
    ) in
    let same : x ≡ r =
      All-find (λ y. y.id ≡ r.id → y ≡ r) (is_still id status) db.assets x
        (Distinct-find (λ a. a.id) (has_id id) db.assets r d e) f there in
    subst (λ y. is_still id status y ≡ true) same (find-passes (is_still id status) db.assets x f)

status_eq→≡ : (a b : AssetStatus) → status_eq a b ≡ true → a ≡ b
status_eq→≡ a b h = ground arith

pub created-Told :
    (now new branch : ℕ) (i : AssetInput) (k : ℕ) (r : Asset) (db : Db)
    → find (has_id k) db.assets ≡ some r
    → Told k r db (create now new branch i db).1
created-Told now new branch i k r db e =
    let (log, rows) = create_frame now new branch i db in
    elim rows [
      | inl same ↦ quiet r refl (ap (find (has_id k)) same ∙ e) log
      | inr (code, more) ↦
          quiet r refl
            (ap (find (has_id k)) more
              ∙ find-append_some (has_id k) db.assets (new_asset new branch code i ∷ []) r e)
            log
    ]

pub updated-Told :
    (id : ℕ) (p : AssetPatch) (type : AssetType) (k : ℕ) (r : Asset) (db : Db)
    → find (has_id k) db.assets ≡ some r
    → Told k r db (write_update id p type db).1
unfolding patched
updated-Told id p type k r db e =
    let (log, rows) = update_frame id p type db in
    elim rows [
      | inl same ↦ quiet r refl (ap (find (has_id k)) same ∙ e) log
      | inr more ↦
          quiet (if has_id id r then patched type p r else r) (ground arith)
            (ap (find (has_id k)) more
              ∙ find-update (has_id k) (has_id id) (patched type p) db.assets (λ x. refl)
              ∙ ap (updated (has_id id) (patched type p)) e)
            log
    ]

pub changed-Told :
    (actor id : ℕ) (status : AssetStatus) (a : Asset) (k : ℕ) (r : Asset) (db : Db)
    → IsKeyed db
    → can_change a.status status ≡ true
    → find (has_id k) db.assets ≡ some r
    → Told k r db (write_status actor id status a db).1
changed-Told actor id status a k r db d c e =
    let (rows, log) = status_frame actor id status a db in
    let found : find (has_id k) (write_status actor id status a db).1.assets
        ≡ some (if is_still id a.status r then moved status r else r) =
      ap (find (has_id k)) rows
      ∙ find-update (has_id k) (is_still id a.status) (moved status) db.assets (λ x. refl)
      ∙ ap (updated (is_still id a.status) (moved status)) e in
    elim (Bool-cases (count (is_still id a.status) db.assets == 0)) [
      | inl z ↦
          let log' = rw z at log in
          quiet r refl
            (ap (find (has_id k)) (
                rows
                ∙ update_none (is_still id a.status) (moved status) db.assets (ground (arith, z)))
              ∙ e)
            log'
      | inr z ↦
          let log' = rw z at log in
          elim (Bool-cases (id == k)) [
            | inr n ↦
                let own : r.id ≡ k = ground (arith, find-passes (has_id k) db.assets r e) in
                let miss : is_still id a.status r ≡ false = ground (arith, own, n) in
                other (entry actor id a.branch_id a.status status) (ground (arith, n))
                  (rw miss at found) log'
            | inl n ↦
                let same : id ≡ k = ground (arith, n) in
                let hit : is_still id a.status r ≡ true =
                  still_there id a.status r db d (ap (λ j. find (has_id j) db.assets) same ∙ e) z in
                let was : r.status ≡ a.status =
                  status_eq→≡ r.status a.status (ground (arith, hit)) in
                told status actor a.branch_id (ap (λ s. can_change s status) was ∙ c)
                  (rw hit at found)
                  (log'
                    ∙ ap (λ j. db.audit ++ entry actor j a.branch_id a.status status ∷ []) same
                    ∙ ap (λ s. db.audit ++ entry actor k a.branch_id s status ∷ []) (sym was))
          ]
    ]
