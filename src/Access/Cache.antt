-- ===== src/Access/Cache.antt =====
-- The cache of common/permissions/permission.service.ts, in one of several processes that share the
-- database. A read of the role defaults starts a query if there is no fresh cache; its answer is
-- stored when it comes, with the time of that moment, and calls of others come between.
mod Tests
use sports_erp.Prelude.{
  All-take, All-append, subst, arith, All-zip, Option-cases, inl, All-map, inr, [], ◌∷◌, All, ◌++◌,
  ℕ, ◌+◌, ◌-◌, ◌≤◌, ◌<◌, ◌≡◌, refl, ◌⊎◌, Option, none, some, List, Bool, true, false, ltb,
  if◌then◌else◌,
}
use sports_erp.Store.Access.{RolePermission}

-- ROLE_CACHE_MS
abbrev pub role_cache_ms : ℕ
role_cache_ms = 30000

pub record RoleCache : Type 0 where
  pub at : ℕ
  pub map : List RolePermission

-- The clock, the table, the cache, and the answers of the queries that are under way with the time
-- at which each was read.
pub record Process : Type 0 where
  pub now : ℕ
  pub table : List RolePermission
  pub role_cache : Option RoleCache
  pub queries : List RoleCache

-- `Date.now() - this.roleCache.at < ROLE_CACHE_MS`
abbrev pub is_fresh : ℕ → Option RoleCache → Bool
is_fresh now none = false
is_fresh now (some c) = ltb (now - c.at) role_cache_ms

abbrev map_of : Option RoleCache → Option (List RolePermission)
map_of none = none
map_of (some c) = some c.map

-- What `roleDefaults` answers at once, if it need not ask.
unfoldable pub cached : Process → Option (List RolePermission)
cached p = if is_fresh p.now p.role_cache then map_of p.role_cache else none

-- The query of `roleDefaults` is read by the database,
unfoldable pub ask : Process → Process
ask p = record p { queries = p.queries ++ record { at = p.now; map = p.table } ∷ [] }

-- and its answer is stored.
unfoldable pub store : RoleCache → List RoleCache → Process → Process
store q rest p = record p { role_cache = some (record { at = p.now; map = q.map }); queries = rest }

-- `invalidate`, after a change of this process has been committed.
unfoldable pub invalidate : Process → Process
invalidate p = record p { role_cache = none }

-- The clock runs on, but no query takes longer than `latency`; a change is committed, here or in
-- another process; a query is read, answered, or the cache is dropped.
pub data Step (latency : ℕ) : Process → Process → Type 0 where
  ticks :
      (p : Process) (d : ℕ)
      → All (λ q. p.now + d ≤ q.at + latency) p.queries
      → Step latency p (record p { now = p.now + d })
  commits : (p : Process) (rows : List RolePermission) → Step latency p (record p { table = rows })
  asks : (p : Process) → cached p ≡ none → Step latency p (ask p)
  stores :
      (p : Process) (q : RoleCache) (xs ys : List RoleCache)
      → p.queries ≡ xs ++ q ∷ ys
      → Step latency p (store q (xs ++ ys) p)
  drops : (p : Process) → Step latency p (invalidate p)

pub data Reach (latency : ℕ) (start : Process) : Process → Type 0 where
  begin : Reach latency start start
  step : (p q : Process) → Reach latency start p → Step latency p q → Reach latency start q

-- The table held these rows at a moment of the past.
abbrev pub Was :
    {latency : ℕ} {start p : Process} → Reach latency start p → ℕ → List RolePermission → Type 0
Was {start} begin t rows = (t ≡ start.now) × (start.table ≡ rows)
Was (step p q r s) t rows = Was r t rows ⊎ ((t ≡ q.now) × (q.table ≡ rows))

module _ {latency : ℕ} {start : Process} where
  abbrev Query : {p : Process} → Reach latency start p → RoleCache → Type 0
  Query {p} r q = Was r q.at q.map × (p.now ≤ q.at + latency)

  -- What is stored was read at most the latency before.
  abbrev Stored : {p : Process} → Reach latency start p → Option RoleCache → Type 0
  Stored r none = Unit
  Stored r (some c) = (t : ℕ) × Was r t c.map × (c.at ≤ t + latency)

  abbrev IsTimely : {p : Process} → Reach latency start p → Type 0
  IsTimely {p} r = Was r p.now p.table × All (Query r) p.queries × Stored r p.role_cache

  later :
      {p q : Process} (r : Reach latency start p) (s : Step latency p q) (c : Option RoleCache)
      → Stored r c
      → Stored (step p q r s) c
  later r s none i = tt
  later r s (some c) (t, w, l) = (t, inl w, l)

  kept :
      {p q : Process} (r : Reach latency start p) (s : Step latency p q) (qs : List RoleCache)
      → p.now ≡ q.now
      → All (Query r) qs
      → All (Query (step p q r s)) qs
  kept {p} {q} r s qs e =
      All-map (Query r) (Query (step p q r s)) qs (λ c (w, l). (inl w, omega (arith, e)))

  Step-IsTimely :
      {p q : Process} (r : Reach latency start p) (s : Step latency p q)
      → IsTimely r
      → IsTimely (step p q r s)
  unfolding ask store invalidate
  Step-IsTimely r (Step.ticks p d h) (w, qs, c) = (
    inr (refl, refl),
    All-map _ (Query (step p (record p { now = p.now + d }) r (Step.ticks p d h))) p.queries
        (λ q ((w, l), m). (inl w, m)) (All-zip (Query r) _ p.queries qs h),
    later r (Step.ticks p d h) p.role_cache c,
  )
  Step-IsTimely r (Step.commits p rows) (w, qs, c) = (
    inr (refl, refl),
    kept r (Step.commits p rows) p.queries refl qs,
    later r (Step.commits p rows) p.role_cache c,
  )
  Step-IsTimely r (Step.asks p h) (w, qs, c) = (
    inl w,
    All-append (Query (step p (ask p) r (Step.asks p h))) p.queries _
        (kept r (Step.asks p h) p.queries refl qs) ((inl w, omega arith), tt),
    later r (Step.asks p h) p.role_cache c,
  )
  Step-IsTimely r (Step.stores p q xs ys h) (w, qs, c) =
      let (asked, others) = All-take (Query r) xs ys q (subst (All (Query r)) h qs) in
      (inl w, kept r (Step.stores p q xs ys h) (xs ++ ys) refl others, (q.at, inl asked.0, asked.1))
  Step-IsTimely r (Step.drops p) (w, qs, c) = (inl w, kept r (Step.drops p) p.queries refl qs, tt)

  pub Reach-IsTimely :
      {p : Process} (r : Reach latency start p)
      → start.queries ≡ []
      → start.role_cache ≡ none
      → IsTimely r
  Reach-IsTimely begin n c = ((refl, refl), rw n tt, rw c tt)
  Reach-IsTimely (step p q r s) n c = Step-IsTimely r s (Reach-IsTimely r n c)

  -- In a process that starts with no cache and no query under way, if no query takes longer than
  -- a latency between its read and the store of its answer, the rows that are answered from the
  -- cache are those that the table held at some moment less than the latency and thirty seconds
  -- before, whatever was committed, asked, stored or dropped in between.
  pub cached_is_recent :
      (p : Process) (rows : List RolePermission) (r : Reach latency start p)
      → start.queries ≡ []
      → start.role_cache ≡ none
      → cached p ≡ some rows
      → (t : ℕ) × Was r t rows × (p.now < t + latency + role_cache_ms)
  unfolding cached
  cached_is_recent p rows r n c h = elim (Option-cases p.role_cache) [
    | inl e ↦ absurd (ground (arith, h, e))
    | inr (k, e) ↦
        let (_, _, stored) = Reach-IsTimely r n c in
        let (t, w, l) = subst (Stored r) e stored in
        let same : k.map ≡ rows = ground (arith, h, e) in
        (t, subst (Was r t) same w, ground (arith, h, e, l))
  ]
