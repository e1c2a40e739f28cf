-- ===== src/Auth.antt =====
-- modules/auth/auth.service.ts: sessions and passwords. The JWT service, SHA-256 and bcrypt are
-- parameters. Tokens, passwords and hashes are only compared, so they are numbers.
pub mod Rotation
mod Tests
use sports_erp.Prelude.{
  ℕ, ◌+◌, Option, none, some, List, [], ◌∷◌, ◌++◌, Bool, true, false, not, ◌&&◌, ◌||◌, ltb, ◌==◌,
  if◌then◌else◌, find, count, select, update, is_set, is_in,
}
use sports_erp.Store.{
  Db, Action, pure, throw, gets, require, require_row, transaction, ◌>>=◌, ◌>>◌, throw_if, modify,
}
use sports_erp.Store.Errors.{Code, Result, ok, err}
use sports_erp.Store.Staffing.{Account, RefreshToken}
use sports_erp.Staffing.Moves.{update_account}

-- What the libraries are asked for.
pub record Crypto : Type 0 where
  -- the account and the id in a token that verifies, its expiration regarded or not
  pub verify : ℕ → Bool → Option (ℕ × ℕ)
  pub sign_access : ℕ → ℕ
  -- a refresh token of an account and an id, and the instant at which it expires
  pub sign_refresh : ℕ → ℕ → ℕ
  pub expires_at : ℕ → ℕ
  pub hash_token : ℕ → ℕ
  pub compare : ℕ → ℕ → Bool
  pub hash_password : ℕ → ℕ
  -- DEMO_ACCOUNT_IDS
  pub demo_accounts : List ℕ

module _ (c : Crypto) where
  -- A token of the account that has expired or been revoked.
  abbrev pub is_stale : ℕ → ℕ → RefreshToken → Bool
  is_stale account now t = t.account_id == account && (ltb t.expires_at now || is_set t.revoked_at)

  abbrev pub new_token : ℕ → ℕ → RefreshToken
  new_token account jti = record {
    id = jti;
    account_id = account;
    token_hash = c.hash_token (c.sign_refresh account jti);
    expires_at = c.expires_at (c.sign_refresh account jti);
    revoked_at = none;
  }

  -- `issuePrismaRefreshToken`
  unfoldable pub issue_refresh_token : ℕ → ℕ → ℕ → Action ℕ
  issue_refresh_token now jti account = do
    modify λ db. record db {
      refresh_tokens = select (λ t. not (is_stale account now t)) db.refresh_tokens;
    }
    modify λ db. record db { refresh_tokens = db.refresh_tokens ++ new_token account jti ∷ [] }
    pure (c.sign_refresh account jti)

  unfoldable pub issue_session : ℕ → ℕ → Account → Action (ℕ × ℕ)
  unfolding issue_refresh_token
  issue_session now jti account = do
    token ← issue_refresh_token now jti account.id
    pure (c.sign_access account.id, token)

  -- `orderBy: [{ isActive: 'desc' }, { createdAt: 'desc' }]`, of two in the order of their creation.
  abbrev pub better : Account → Option Account → Option Account
  better a none = some a
  better a (some b) = if a.is_active && not b.is_active then some a else some b

  abbrev pub account_by_email : ℕ → List Account → Option Account
  account_by_email email [] = none
  account_by_email email (a ∷ rows) =
      if a.email == email
      then better a (account_by_email email rows)
      else account_by_email email rows

  unfoldable pub login : ℕ → ℕ → ℕ → ℕ → Action (ℕ × ℕ)
  unfolding issue_session
  login now jti email password = do
    account ← require_row (λ db. account_by_email email db.accounts) Code.invalid_credentials
    throw_if (not (c.compare password account.password_hash)) Code.invalid_credentials
    throw_if (not account.is_active) Code.account_inactive
    issue_session now jti account

  abbrev pub is_live : ℕ → RefreshToken → Bool
  is_live jti t = t.id == jti && not (is_set t.revoked_at)

  abbrev pub revoke : ℕ → RefreshToken → RefreshToken
  revoke now t = record t { revoked_at = some now }

  -- The checks of `refresh` before it writes: the account and the id of the token.
  unfoldable pub check_refresh : ℕ → ℕ → Action (ℕ × ℕ)
  check_refresh now token = do
    (sub, jti) ← require (c.verify token false) Code.invalid_refresh_token
    stored ←
        require_row (λ db. find (λ t. t.id == jti) db.refresh_tokens) Code.invalid_refresh_token
    throw_if (is_set stored.revoked_at || not (stored.token_hash == c.hash_token token))
        Code.invalid_refresh_token
    throw_if (ltb stored.expires_at now) Code.invalid_refresh_token
    account ← require_row (λ db. find (λ a. a.id == sub) db.accounts) Code.account_inactive
    throw_if (not account.is_active) Code.account_inactive
    pure (sub, jti)

  -- The write: only whoever revokes the token gets a new one.
  unfoldable pub rotate : ℕ → ℕ → ℕ × ℕ → Action (ℕ × ℕ)
  unfolding issue_refresh_token
  rotate now new (sub, jti) = do
    changed ← gets λ db. count (is_live jti) db.refresh_tokens
    modify λ db. record db { refresh_tokens = update (is_live jti) (revoke now) db.refresh_tokens }
    throw_if (changed == 0) Code.invalid_refresh_token
    token ← issue_refresh_token now new sub
    pure (c.sign_access sub, token)

  unfoldable pub refresh : ℕ → ℕ → ℕ → Action (ℕ × ℕ)
  unfolding check_refresh rotate
  refresh now new token = check_refresh now token >>= rotate now new

  unfoldable pub logout : ℕ → ℕ → Action (Unit {0})
  logout now token = do
    (sub, jti) ← require (c.verify token true) Code.invalid_refresh_token
    modify λ db. record db { refresh_tokens = update (is_live jti) (revoke now) db.refresh_tokens }

  abbrev pub set_password : ℕ → Account → Account
  set_password hash a = record a { password_hash = hash; must_change_password = false }

  abbrev pub is_live_of : ℕ → RefreshToken → Bool
  is_live_of account t = t.account_id == account && not (is_set t.revoked_at)

  unfoldable pub change_password : ℕ → ℕ → ℕ → ℕ → Action (Unit {0})
  change_password now account_id current new = do
    throw_if (is_in account_id c.demo_accounts) Code.demo_account_locked
    account ← require_row (λ db. find (λ a. a.id == account_id) db.accounts) Code.account_not_found
    throw_if (not (c.compare current account.password_hash)) Code.current_password_mismatch
    modify (update_account account_id (set_password (c.hash_password new)))
    modify λ db. record db {
      refresh_tokens = update (is_live_of account_id) (revoke now) db.refresh_tokens;
    }
