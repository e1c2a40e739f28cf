-- ===== src/Contracts/Files.antt =====
-- The calls of contract-file.service.ts on a file that a round has: the mark that the paper has been
-- archived, the removal from the storage after the retention period, and a look at the file.
pub mod Purge
use sports_erp.Prelude.{
  ℕ, ◌+◌, Option, none, some, List, [], ◌∷◌, map, Bool, false, not, ◌&&◌, ◌||◌, ◌==◌, if◌then◌else◌,
  find, count, select, update, exists, is_set, is_in, length,
}
use sports_erp.Store.{
  Db, Action, pure, gets, require_row, transaction, ◌>>=◌, ◌>>◌, throw_if, modify, record_audit,
}
use sports_erp.Store.Errors.{Code, Result}
use sports_erp.Store.Branches.{ContractRound, ContractFile}
use sports_erp.Store.Audit.{AuditEntity, AuditAction}
use sports_erp.Dates.Civil.{Ymd}
use sports_erp.Dates.Kst.{to_kst_date_string}
use sports_erp.Contracts.{Env}
use sports_erp.Contracts.Retention.{retention_state}

-- The round of a file, by its foreign key.
abbrev pub round_of : ContractFile → Db → Option ContractRound
round_of f db = find (λ r. r.id == f.round_id) db.rounds

abbrev pub is_archivable : ℕ → ContractFile → Bool
is_archivable id f = f.id == id && (not (is_set f.archived_at) && not (is_set f.purged_at))

abbrev pub archive_row : Env → ContractFile → ContractFile
archive_row e f = record f { archived_at = some e.now; archived_by = some e.actor }

-- A file and its round, if the branch is the round's.
unfoldable pub find_file : ℕ → ℕ → Action (ContractFile × ContractRound)
find_file branch id = do
  file ← require_row (λ db. find (λ f. f.id == id) db.files) Code.contract_file_not_found
  round ← require_row (round_of file) Code.row_missing
  throw_if (not (round.branch_id == branch)) Code.contract_file_not_found
  pure (file, round)

unfoldable pub archive_body : Env → ℕ → ℕ → Action (Unit {0})
unfolding find_file
archive_body e branch id = do
  (file, round) ← find_file branch id
  changed ← gets λ db. count (is_archivable id) db.files
  modify λ db. record db { files = update (is_archivable id) (archive_row e) db.files }
  throw_if (changed == 0) Code.contract_file_already_archived
  record_audit e.actor AuditEntity.branch branch
      (AuditAction.contract_file_archived round.round_no file.kind file.file_name)

unfoldable pub archive : Env → ℕ → ℕ → Action (Unit {0})
unfolding archive_body
archive e branch id = transaction (archive_body e branch id)

abbrev ended_by : Ymd → ContractFile → Option ContractRound → Bool
ended_by today f none = false
ended_by today f (some r) = (retention_state f r today).retention_ended

-- A file that may not be removed: not archived, removed already, or still to be kept.
abbrev pub is_blocked : Ymd → Db → ContractFile → Bool
is_blocked today db f =
    not (is_set f.archived_at) || (is_set f.purged_at || not (ended_by today f (round_of f db)))

abbrev pub purge_row : Env → ContractFile → ContractFile
purge_row e f = record f { purged_at = some e.now; purged_by = some e.actor }

unfoldable pub audit_purged : ℕ → List ContractFile → Action (Unit {0})
audit_purged actor [] = pure tt
audit_purged actor (f ∷ files) = do
  round ← require_row (round_of f) Code.row_missing
  record_audit actor AuditEntity.branch round.branch_id
      (AuditAction.contract_file_purged round.round_no f.kind f.file_name)
  audit_purged actor files

-- How many different ids there are.
abbrev pub distinct : List ℕ → ℕ
distinct [] = 0
distinct (id ∷ ids) = (if is_in id ids then 0 else 1) + distinct ids

-- `removed` is what the storage service says to the removal; a failure undoes the call.
unfoldable pub purge_body : Env → (List ℕ → Result (Unit {0})) → List ℕ → Action ℕ
unfolding audit_purged
purge_body e remove ids = do
  let today = to_kst_date_string e.now
  files ← gets λ db. select (λ f. is_in f.id ids) db.files
  throw_if (not (length files == distinct ids)) Code.contract_file_not_found
  blocked ← gets λ db. exists (is_blocked today db) files
  throw_if blocked Code.contract_file_not_purgeable
  λ db. (remove (map (λ f. f.path) files), db)
  modify λ db. record db { files = update (λ f. is_in f.id ids) (purge_row e) db.files }
  audit_purged e.actor files
  pure (length files)

unfoldable pub purge : Env → (List ℕ → Result (Unit {0})) → List ℕ → Action ℕ
unfolding purge_body
purge e remove ids = transaction (purge_body e remove ids)

-- `downloadUrl`: the path that the address is made for. The look is recorded first.
unfoldable pub download_url : Env → ℕ → ℕ → Action ℕ
unfolding find_file
download_url e branch id = do
  (file, round) ← find_file branch id
  throw_if (is_set file.purged_at) Code.contract_file_purged
  record_audit e.actor AuditEntity.branch branch
      (AuditAction.contract_file_viewed round.round_no file.kind file.file_name)
  pure file.path
