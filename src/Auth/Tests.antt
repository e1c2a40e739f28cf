-- ===== src/Auth/Tests.antt =====
-- A session that is refreshed twice with the same token.
use sports_erp.Prelude.{◌≡◌, refl, some, [], ◌∷◌, true, false, ◌==◌, arith}
use sports_erp.Store.{Db, empty_db}
use sports_erp.Store.Errors.{Code, ok, err}
use sports_erp.Store.Staffing.{Account, Role}
use sports_erp.Auth.{Crypto, rotate, login, new_token}
use sports_erp.Auth.Rotation.{begin, step, logs_in, rotate_once}

-- A token is its id, and every account is 5.
abbrev toy : Crypto
toy = record {
  verify = λ token ignore. some (5, token);
  sign_access = λ account. account;
  sign_refresh = λ account jti. jti;
  expires_at = λ token. 1000;
  hash_token = λ token. token;
  compare = λ plain hash. plain == hash;
  hash_password = λ plain. plain;
  demo_accounts = [];
}

abbrev kim : Account
kim = record {
  id = 5;
  email = 6;
  password_hash = 7;
  role = Role.staff;
  name = "Kim";
  is_active = true;
  must_change_password = false;
}

abbrev open_session : Db
open_session = record empty_db { accounts = kim ∷ []; refresh_tokens = new_token toy 5 1 ∷ [] }

abbrev refreshed : Db
refreshed = (rotate toy 10 2 (5, 1) open_session).1

refreshed_once : (rotate toy 10 2 (5, 1) open_session).0 ≡ ok (5, 2)
unfolding rotate
refreshed_once = refl

-- With a login in between.
rotate_once_example :
    (rotate toy 30 4 (5, 1) (login toy 20 3 6 7 refreshed).1).0 ≡ err Code.invalid_refresh_token
rotate_once_example =
    rotate_once toy 1 10 30 2 4 5 open_session (login toy 20 3 6 7 refreshed).1
      (λ e. absurd (omega (arith, e)))
      (step refreshed (login toy 20 3 6 7 refreshed).1 begin
        (logs_in 20 3 6 7 refreshed (λ e. absurd (omega (arith, e)))))
