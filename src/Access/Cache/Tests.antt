-- ===== src/Access/Cache/Tests.antt =====
-- A process that stores an answer and uses it later.
use sports_erp.Prelude.{◌≡◌, refl, ℕ, ◌+◌, ◌<◌, none, some, [], arith}
use sports_erp.Access.Cache.{
  Process, RoleCache, ask, store, cached, Reach, begin, step, ticks, asks, stores, Was,
  cached_is_recent, role_cache_ms,
}

-- One process asks at 5, stores the answer at 9 and uses it at 109.
abbrev started : Process
started = record { now = 5; table = []; role_cache = none; queries = [] }

abbrev asked : Process
asked = ask started

abbrev read_at_5 : RoleCache
read_at_5 = record { at = 5; map = [] }

abbrev waited : Process
waited = record asked { now = asked.now + 4 }

abbrev stored : Process
stored = store read_at_5 [] waited

abbrev used : Process
used = record stored { now = stored.now + 100 }

steps : Reach 50 started used
unfolding ask store cached
steps =
    step stored used
      (step waited stored
        (step asked waited (step started asked begin (asks started refl))
          (ticks asked 4 (omega arith, tt)))
        (stores waited read_at_5 [] [] refl))
      (ticks stored 100 tt)

fresh : cached used ≡ some []
unfolding cached ask store
fresh = refl

cached_is_recent_example : (t : ℕ) × Was steps t [] × (used.now < t + 50 + role_cache_ms)
cached_is_recent_example = cached_is_recent used [] steps refl refl fresh
