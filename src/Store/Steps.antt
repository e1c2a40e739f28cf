-- ===== src/Store/Steps.antt =====
-- What a call that has returned has done before.
use sports_erp.Prelude.{◌≡◌, refl, arith}
use sports_erp.Store.{Db, Action, ◌>>=◌}
use sports_erp.Store.Errors.{Result, ok, err}

module _ {A B : Type 0} where
  bound : (r : Result A × Db) (f : A → Action B) → Result B × Db
  bound (ok a, db) f = f a db
  bound (err c, db) f = (err c, db)

  bound_inv :
      (r : Result A × Db) (f : A → Action B) (b : B) (db' : Db)
      → bound r f ≡ (ok b, db')
      → (a : A) × (db1 : Db) × (r ≡ (ok a, db1)) × (f a db1 ≡ (ok b, db'))
  unfolding bound
  bound_inv (ok a, db) f b db' h = (a, db, refl, h)
  bound_inv (err c, db) f b db' h = absurd (ground arith)

  pub >>=_inv :
      (m : Action A) (f : A → Action B) (db db' : Db) (b : B)
      → (m >>= f) db ≡ (ok b, db')
      → (a : A) × (db1 : Db) × (m db ≡ (ok a, db1)) × (f a db1 ≡ (ok b, db'))
  unfolding bound
  >>=_inv m f db db' b h = bound_inv (m db) f b db' (ground (arith, h))
