-- ===== src/Assets/Log.antt =====
-- The calls of asset.service.ts as steps, and what the audit log tells of an asset.
use sports_erp.Prelude.{
  ℕ, ◌≡◌, refl, sym, ap, ◌∙◌, subst, none, some, List, [], ◌∷◌, ◌++◌, Bool, true, false, ◌&&◌, ◌==◌,
  find, Distinct,
}
use sports_erp.Store.{Db, record_audit}
use sports_erp.Store.Errors.{ok}
use sports_erp.Store.Operations.{Asset, AssetType, AssetStatus}
use sports_erp.Store.Audit.{AuditLog, AuditEntity, AuditAction}
use sports_erp.Assets.{
  AssetInput, AssetPatch, create, write_update, check_status, write_status, moved, can_change,
  has_id,
}

abbrev pub is_asset : AuditEntity → Bool
is_asset AuditEntity.asset = true
is_asset _ = false

-- A row of the log on something else than an asset is of another part of the program.
pub data Step : Db → Db → Type 0 where
  creates :
      (now new branch : ℕ) (i : AssetInput) (db : Db)
      → find (has_id new) db.assets ≡ none
      → Step db (create now new branch i db).1
  updates :
      (id : ℕ) (p : AssetPatch) (type : AssetType) (db : Db) → Step db (write_update id p type db).1
  changes_status :
      (actor id : ℕ) (status : AssetStatus) (a : Asset) (seen db : Db)
      → check_status id status seen ≡ (ok a, seen)
      → Step db (write_status actor id status a db).1
  audits :
      (actor id : ℕ) (entity : AuditEntity) (action : AuditAction) (db : Db)
      → is_asset entity ≡ false
      → Step db (record_audit actor entity id action db).1

pub data Reach (start : Db) : Db → Type 0 where
  begin : Reach start start
  step : (db db' : Db) → Reach start db → Step db db' → Reach start db'

-- A row of the log on one asset.
abbrev pub is_about : ℕ → AuditLog → Bool
is_about id r = is_asset r.entity && r.entity_id == id

-- The row of a change.
abbrev pub entry : ℕ → ℕ → ℕ → AssetStatus → AssetStatus → AuditLog
entry actor id branch t u = record {
  actor_id = actor;
  entity = AuditEntity.asset;
  entity_id = id;
  action = AuditAction.asset_status_changed t u branch;
}

-- The rows of the log on one asset lead from one status to another, each by a permitted change.
pub data Trail (id : ℕ) (s : AssetStatus) : List AuditLog → AssetStatus → Type 0 where
  nothing : Trail id s [] s
  unrelated :
      (rows : List AuditLog) (t : AssetStatus) (r : AuditLog)
      → is_about id r ≡ false
      → Trail id s rows t
      → Trail id s (rows ++ r ∷ []) t
  changed :
      (rows : List AuditLog) (t u : AssetStatus) (actor branch : ℕ)
      → can_change t u ≡ true
      → Trail id s rows t
      → Trail id s (rows ++ entry actor id branch t u ∷ []) u

-- No two assets have one identifier.
abbrev pub IsKeyed : Db → Type 0
IsKeyed db = Distinct (λ a. a.id) db.assets

-- What the log has got since the start leads from the status of then to that of now.
pub record Trailed (id : ℕ) (s : AssetStatus) (start : List AuditLog) (db : Db) : Type 0 where
  pub row : Asset
  pub found : find (has_id id) db.assets ≡ some row
  pub added : List AuditLog
  pub log : db.audit ≡ start ++ added
  pub tells : Trail id s added row.status

-- What one step may do to an asset and the log.
pub data Told (id : ℕ) (r : Asset) (db db' : Db) : Type 0 where
  quiet :
      (r' : Asset)
      → r'.status ≡ r.status
      → find (has_id id) db'.assets ≡ some r'
      → db'.audit ≡ db.audit
      → Told id r db db'
  other :
      (x : AuditLog)
      → is_about id x ≡ false
      → find (has_id id) db'.assets ≡ some r
      → db'.audit ≡ db.audit ++ x ∷ []
      → Told id r db db'
  told :
      (u : AssetStatus) (actor branch : ℕ)
      → can_change r.status u ≡ true
      → find (has_id id) db'.assets ≡ some (moved u r)
      → db'.audit ≡ db.audit ++ entry actor id branch r.status u ∷ []
      → Told id r db db'

++_assoc : {A : Type 0} (xs ys zs : List A) → (xs ++ ys) ++ zs ≡ xs ++ (ys ++ zs)
++_assoc [] ys zs = refl
++_assoc (x ∷ xs) ys zs = ap (λ l. x ∷ l) (++_assoc xs ys zs)

pub ++_nil : {A : Type 0} (xs : List A) → xs ++ [] ≡ xs
++_nil [] = refl
++_nil (x ∷ xs) = ap (λ l. x ∷ l) (++_nil xs)

pub continue :
    (id : ℕ) (s : AssetStatus) (start : List AuditLog) (db db' : Db) (h : Trailed id s start db)
    → Told id h.row db db'
    → Trailed id s start db'
continue id s start db db' h (quiet r' e f a) = record {
  row = r';
  found = f;
  added = h.added;
  log = a ∙ h.log;
  tells = subst (Trail id s h.added) (sym e) h.tells;
}
continue id s start db db' h (other x n f a) = record {
  row = h.row;
  found = f;
  added = h.added ++ x ∷ [];
  log = a ∙ ap (λ l. l ++ x ∷ []) h.log ∙ ++_assoc start h.added (x ∷ []);
  tells = unrelated h.added h.row.status x n h.tells;
}
continue id s start db db' h (told u actor branch c f a) =
    let x = entry actor id branch h.row.status u in
    record {
      row = moved u h.row;
      found = f;
      added = h.added ++ x ∷ [];
      log = a ∙ ap (λ l. l ++ x ∷ []) h.log ∙ ++_assoc start h.added (x ∷ []);
      tells = changed h.added h.row.status u actor branch c h.tells;
    }
