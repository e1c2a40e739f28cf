-- ===== src/Auth/Rotation.antt =====
-- A refresh token that has been used or revoked is never good for another one.
use sports_erp.Prelude.{
  ℕ, ◌≡◌, ◌≢◌, ◌⊎◌, inl, inr, refl, sym, subst, none, some, List, [], ◌∷◌, ◌++◌, Bool, true, not,
  count, select, update, arith, Bool-cases, Option-cases, count-append, count-update_gone,
  count-update-le, All-trivial,
}
use sports_erp.Store.{Db}
use sports_erp.Store.Errors.{Code, err}
use sports_erp.Store.Staffing.{Account, RefreshToken}
use sports_erp.Auth.{
  Crypto, is_stale, new_token, is_live, is_live_of, account_by_email, revoke, login, check_refresh,
  rotate, logout, change_password,
}

module _ (c : Crypto) (jti : ℕ) where
  -- No token of that id is live.
  abbrev pub IsSpent : Db → Type 0
  IsSpent db = count (is_live c jti) db.refresh_tokens ≡ 0

  abbrev IsSpentIn : List RefreshToken → Type 0
  IsSpentIn ts = count (is_live c jti) ts ≡ 0

  spent-select :
      (p : RefreshToken → Bool) (ts : List RefreshToken) → IsSpentIn ts → IsSpentIn (select p ts)
  spent-select p [] h = refl
  spent-select p (t ∷ ts) h = elim (Bool-cases (p t)) [
    | inl k ↦ ground (arith, k, h, spent-select p ts (omega (arith, h)))
    | inr k ↦ ground (arith, k, h, spent-select p ts (omega (arith, h)))
  ]

  spent-revoke :
      (p : RefreshToken → Bool) (now : ℕ) (ts : List RefreshToken)
      → IsSpentIn ts
      → IsSpentIn (update p (revoke c now) ts)
  spent-revoke p now ts h = omega (
    arith,
    h,
    count-update-le (λ _. Unit {0}) (is_live c jti) p (revoke c now) ts
        (λ t _ _ l. absurd (ground (arith, l))) (All-trivial ts),
  )

  spent-issue :
      (now new account : ℕ) (ts : List RefreshToken)
      → new ≢ jti
      → IsSpentIn ts
      → IsSpentIn (select (λ t. not (is_stale c account now t)) ts ++ new_token c account new ∷ [])
  spent-issue now new account ts ne h = ground (
    arith,
    ne,
    count-append (is_live c jti) (select (λ t. not (is_stale c account now t)) ts)
        (new_token c account new ∷ []),
    spent-select (λ t. not (is_stale c account now t)) ts h,
  )

  -- The calls of the service, with new ids for the tokens that are made.
  pub data Step : Db → Db → Type 0 where
    logs_in :
        (now new email password : ℕ) (db : Db)
        → new ≢ jti
        → Step db (login c now new email password db).1
    checks : (now token : ℕ) (db : Db) → Step db (check_refresh c now token db).1
    rotates : (now new : ℕ) (p : ℕ × ℕ) (db : Db) → new ≢ jti → Step db (rotate c now new p db).1
    logs_out : (now token : ℕ) (db : Db) → Step db (logout c now token db).1
    changes :
        (now account current new : ℕ) (db : Db)
        → Step db (change_password c now account current new db).1

  login_frame :
      (now new email password : ℕ) (db : Db) (a : Account)
      → account_by_email c email db.accounts ≡ some a
      → ((login c now new email password db).1 ≡ db)
        ⊎ ((login c now new email password db).1.refresh_tokens
            ≡ select (λ t. not (is_stale c a.id now t)) db.refresh_tokens
              ++ new_token c a.id new ∷ [])
  unfolding login
  login_frame now new email password db a f = ground (arith, f)

  login-none :
      (now new email password : ℕ) (db : Db)
      → account_by_email c email db.accounts ≡ none
      → (login c now new email password db).1 ≡ db
  unfolding login
  login-none now new email password db f = ground (arith, f)

  login-IsSpent :
      (now new email password : ℕ) (db : Db)
      → new ≢ jti
      → IsSpent db
      → IsSpent (login c now new email password db).1
  login-IsSpent now new email password db ne h =
      elim (Option-cases (account_by_email c email db.accounts)) [
        | inl n ↦ subst IsSpent (sym (login-none now new email password db n)) h
        | inr (a, f) ↦ elim (login_frame now new email password db a f) [
          | inl same ↦ subst IsSpent (sym same) h
          | inr e ↦ rw e (spent-issue now new a.id db.refresh_tokens ne h)
        ]
      ]

  check_frame : (now token : ℕ) (db : Db) → (check_refresh c now token db).1 ≡ db
  unfolding check_refresh
  check_frame now token db = ground arith

  rotate_frame :
      (now new sub id : ℕ) (db : Db)
      → ((rotate c now new (sub, id) db).1.refresh_tokens
          ≡ update (is_live c id) (revoke c now) db.refresh_tokens)
        ⊎ ((rotate c now new (sub, id) db).1.refresh_tokens
            ≡ select
                (λ t. not (is_stale c sub now t))
                (update (is_live c id) (revoke c now) db.refresh_tokens)
              ++ new_token c sub new ∷ [])
  unfolding rotate
  rotate_frame now new sub id db = ground arith

  -- Whoever rotates the token spends it.
  rotate-spends :
      (now new sub : ℕ) (db : Db) → new ≢ jti → IsSpent (rotate c now new (sub, jti) db).1
  rotate-spends now new sub db ne =
      let gone =
        count-update_gone (is_live c jti) (revoke c now) db.refresh_tokens (λ t _. ground arith) in
      elim (rotate_frame now new sub jti db) [
        | inl e ↦ rw e gone
        | inr e ↦ rw e (
            spent-issue now new sub (update (is_live c jti) (revoke c now) db.refresh_tokens) ne
              gone)
      ]

  rotate-IsSpent :
      (now new sub id : ℕ) (db : Db)
      → new ≢ jti
      → IsSpent db
      → IsSpent (rotate c now new (sub, id) db).1
  rotate-IsSpent now new sub id db ne h =
      let kept = spent-revoke (is_live c id) now db.refresh_tokens h in
      elim (rotate_frame now new sub id db) [
        | inl e ↦ rw e kept
        | inr e ↦ rw e (
            spent-issue now new sub (update (is_live c id) (revoke c now) db.refresh_tokens) ne
              kept)
      ]

  logout_frame : (now token : ℕ) (db : Db) → IsSpent db → IsSpent (logout c now token db).1
  unfolding logout
  logout_frame now token db h = elim (Option-cases (c.verify token true)) [
    | inl n ↦ rw (logout, n) h
    | inr ((sub, id), e) ↦ rw (logout, e) (spent-revoke (is_live c id) now db.refresh_tokens h)
  ]

  change_frame :
      (now account current new : ℕ) (db : Db)
      → ((change_password c now account current new db).1 ≡ db)
        ⊎ ((change_password c now account current new db).1.refresh_tokens
            ≡ update (is_live_of c account) (revoke c now) db.refresh_tokens)
  unfolding change_password
  change_frame now account current new db = ground arith

  pub data Reach (start : Db) : Db → Type 0 where
    begin : Reach start start
    step : (db db' : Db) → Reach start db → Step db db' → Reach start db'

  Step-IsSpent : {db db' : Db} → Step db db' → IsSpent db → IsSpent db'
  Step-IsSpent (logs_in now new email password db ne) h =
      login-IsSpent now new email password db ne h
  Step-IsSpent (checks now token db) h = subst IsSpent (sym (check_frame now token db)) h
  Step-IsSpent (rotates now new (sub, id) db ne) h = rotate-IsSpent now new sub id db ne h
  Step-IsSpent (logs_out now token db) h = logout_frame now token db h
  Step-IsSpent (changes now account current new db) h =
      elim (change_frame now account current new db) [
        | inl same ↦ subst IsSpent (sym same) h
        | inr e ↦ rw e (spent-revoke (is_live_of c account) now db.refresh_tokens h)
      ]

  Reach-IsSpent : (start db : Db) → Reach start db → IsSpent start → IsSpent db
  Reach-IsSpent start _ begin h = h
  Reach-IsSpent start _ (step db db' r s) h = Step-IsSpent s (Reach-IsSpent start db r h)

  refused :
      (now new sub : ℕ) (db : Db)
      → IsSpent db
      → (rotate c now new (sub, jti) db).0 ≡ err Code.invalid_refresh_token
  unfolding rotate
  refused now new sub db h = ground (arith, h)

  -- Once a refresh has come to its write for a token, then after any sequence of logins, checks
  -- and writes of refreshes, logouts and changes of passwords, in which no new token gets that
  -- token's id, the write of a refresh for the same token is refused as an invalid token,
  -- whenever its checks were made; the new token of the first write has another id as well.
  pub rotate_once :
      (now now' new new' sub : ℕ) (db db' : Db)
      → new ≢ jti
      → Reach (rotate c now new (sub, jti) db).1 db'
      → (rotate c now' new' (sub, jti) db').0 ≡ err Code.invalid_refresh_token
  rotate_once now now' new new' sub db db' ne r =
      refused now' new' sub db'
        (Reach-IsSpent (rotate c now new (sub, jti) db).1 db' r (rotate-spends now new sub db ne))
