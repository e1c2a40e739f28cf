-- ===== src/Assets/Trail.antt =====
-- The audit log tells how the status of an asset came about.
use sports_erp.Prelude.{
  ℕ, ◌≡◌, ◌≢◌, refl, sym, none, some, List, [], ◌∷◌, inl, inr, find, All, Distinct-append,
  Distinct-update, arith,
}
use sports_erp.Store.{Db}
use sports_erp.Store.Operations.{Asset}
use sports_erp.Assets.{new_asset, patched, moved, is_still, has_id}
use sports_erp.Assets.Log.{
  Step, creates, updates, changes_status, audits, Reach, begin, step, nothing, IsKeyed, Trailed,
  Told, other, ++_nil, continue,
}
use sports_erp.Assets.Frames.{checked, create_frame, update_frame, status_frame}
use sports_erp.Assets.Changes.{created-Told, updated-Told, changed-Told}

Step-Told :
    {db db' : Db} (k : ℕ) (r : Asset)
    → Step db db'
    → IsKeyed db
    → find (has_id k) db.assets ≡ some r
    → Told k r db db'
Step-Told k r (creates now new branch i db free) d e = created-Told now new branch i k r db e
Step-Told k r (updates id p type db) d e = updated-Told id p type k r db e
Step-Told k r (changes_status actor id status a seen db h) d e =
    changed-Told actor id status a k r db d (checked id status a seen h) e
Step-Told k r (audits actor id entity action db n) d e =
    other (record { actor_id = actor; entity = entity; entity_id = id; action = action })
      (ground (arith, n)) e refl

new_key : (new : ℕ) (xs : List Asset) → find (has_id new) xs ≡ none → All (λ a. a.id ≢ new) xs
new_key new [] h = tt
new_key new (a ∷ xs) h = ((λ e. absurd (ground (arith, h, e))), new_key new xs (ground (arith, h)))

Step-IsKeyed : {db db' : Db} → Step db db' → IsKeyed db → IsKeyed db'
unfolding new_asset patched
Step-IsKeyed (creates now new branch i db free) d = elim (create_frame now new branch i db).1 [
  | inl same ↦ rw same d
  | inr (code, more) ↦ rw more (
      Distinct-append (λ a. a.id) db.assets (new_asset new branch code i) d
        (new_key new db.assets free))
]
Step-IsKeyed (updates id p type db) d = elim (update_frame id p type db).1 [
  | inl same ↦ rw same d
  | inr more ↦
      rw more (Distinct-update (λ a. a.id) (has_id id) (patched type p) db.assets (λ x. refl) d)
]
Step-IsKeyed (changes_status actor id status a seen db h) d =
    rw (status_frame actor id status a db).0
      (Distinct-update (λ a. a.id) (is_still id a.status) (moved status) db.assets (λ x. refl) d)
Step-IsKeyed (audits actor id entity action db n) d = d

module _ (k : ℕ) (r : Asset) where
  kept :
      (start db : Db)
      → IsKeyed start
      → find (has_id k) start.assets ≡ some r
      → Reach start db
      → IsKeyed db × Trailed k r.status start.audit db
  kept start _ d e begin = (
    d,
    record { row = r; found = e; added = []; log = sym (++_nil start.audit); tells = nothing },
  )
  kept start _ d e (step db db' reach s) =
      let (d', h) = kept start db d e reach in
      (Step-IsKeyed s d', continue k r.status start.audit db db' h (Step-Told k h.row s d' h.found))

  -- If no two assets have one identifier at first, then over any sequence of creations under new
  -- identifiers, of writes of updates and of changes of status whose checks were made at any
  -- time, and of rows of the audit log on other things, an asset that was there stays, and the
  -- rows of the log on it that have come since lead from its status of then to its status of now,
  -- each by a permitted change.
  pub Reach-Trailed :
      (start db : Db)
      → IsKeyed start
      → find (has_id k) start.assets ≡ some r
      → Reach start db
      → Trailed k r.status start.audit db
  Reach-Trailed start db d e reach = (kept start db d e reach).1
