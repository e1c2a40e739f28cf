-- ===== src/Programs/Lifecycle.antt =====
-- The status of a program.
use sports_erp.Prelude.{
  ℕ, ◌≡◌, refl, sym, subst, Option, some, [], ◌∷◌, Bool, true, ◌==◌, if◌then◌else◌, inl, inr,
  Bool-cases, Option-cases, find, exists, find-update, find-append_some, arith,
}
use sports_erp.Store.{Db}
use sports_erp.Store.Errors.{ok}
use sports_erp.Store.Branches.{Program, ProgramStatus}
use sports_erp.Programs.{
  new_program, patched, moved, is_still, can_change, transitions, check_status, write_status,
  write_update, status_eq,
}
use sports_erp.Programs.Pricing.{Step, Reach, begin, step, created, slot_created}

-- A program that is there starts, is paused and goes on, and ends for good.
pub data Moves : ProgramStatus → ProgramStatus → Type 0 where
  starts : Moves ProgramStatus.preparing ProgramStatus.running
  pauses : Moves ProgramStatus.running ProgramStatus.paused
  resumes : Moves ProgramStatus.paused ProgramStatus.running
  ends_early : Moves ProgramStatus.preparing ProgramStatus.ended
  ends_running : Moves ProgramStatus.running ProgramStatus.ended
  ends_paused : Moves ProgramStatus.paused ProgramStatus.ended

pub data Evolves (s : ProgramStatus) : ProgramStatus → Type 0 where
  stays : Evolves s s
  then_moves : (t u : ProgramStatus) → Evolves s t → Moves t u → Evolves s u

can_change-Moves : (a b : ProgramStatus) → can_change a b ≡ true → Moves a b
unfolding can_change transitions
can_change-Moves ProgramStatus.preparing ProgramStatus.preparing h = absurd (ground arith)
can_change-Moves ProgramStatus.preparing ProgramStatus.running h = starts
can_change-Moves ProgramStatus.preparing ProgramStatus.paused h = absurd (ground arith)
can_change-Moves ProgramStatus.preparing ProgramStatus.ended h = ends_early
can_change-Moves ProgramStatus.running ProgramStatus.preparing h = absurd (ground arith)
can_change-Moves ProgramStatus.running ProgramStatus.running h = absurd (ground arith)
can_change-Moves ProgramStatus.running ProgramStatus.paused h = pauses
can_change-Moves ProgramStatus.running ProgramStatus.ended h = ends_running
can_change-Moves ProgramStatus.paused ProgramStatus.preparing h = absurd (ground arith)
can_change-Moves ProgramStatus.paused ProgramStatus.running h = resumes
can_change-Moves ProgramStatus.paused ProgramStatus.paused h = absurd (ground arith)
can_change-Moves ProgramStatus.paused ProgramStatus.ended h = ends_paused
can_change-Moves ProgramStatus.ended b h = absurd (ground arith)

abbrev pub has_id : ℕ → Program → Bool
has_id id p = p.id == id

checked :
    (id : ℕ) (status current : ProgramStatus) (seen : Db)
    → check_status id status seen ≡ (ok current, seen)
    → can_change current status ≡ true
unfolding check_status
checked id status current seen h = elim (Option-cases (find (has_id id) seen.programs)) [
  | inl e ↦ absurd (ground (arith, h, e))
  | inr (p, e) ↦ ground (arith, h, e)
]

status_eq→eq : (a b : ProgramStatus) → status_eq a b ≡ true → a ≡ b
status_eq→eq a b h = ground arith

-- The program that was `p` is still there, with a status that follows from that of `p`, and in
-- the same branch.
abbrev pub Follows : Program → Option Program → Type 0
Follows p o = (q : Program) × (o ≡ some q) × Evolves p.status q.status × (q.branch_id ≡ p.branch_id)

module _ (k : ℕ) (p : Program) where
  kept_status :
      (q : Program) (o : Option Program)
      → Evolves p.status q.status
      → q.branch_id ≡ p.branch_id
      → (r : Program) → o ≡ some r
      → r.status ≡ q.status
      → r.branch_id ≡ q.branch_id
      → Follows p o
  kept_status q o e b r here s t =
      (r, here, subst (Evolves p.status) (sym s) e, ground (arith, b, t))

  Step-Follows :
      {db db' : Db}
      → Step db db'
      → Follows p (find (has_id k) db.programs)
      → Follows p (find (has_id k) db'.programs)
  unfolding write_update write_status
  Step-Follows (Step.creates new branch i db) (q, h, e, b) = elim (created new branch i db) [
    | inl same ↦ rw same (q, h, e, b)
    | inr (_, grown) ↦
        rw grown
          (q, find-append_some (has_id k) db.programs (new_program new branch i ∷ []) q h, e, b)
  ]
  Step-Follows (Step.creates_slot new program i db) (q, h, e, b) =
      elim (slot_created new program i db) [
        | inl same ↦ rw same (q, h, e, b)
        | inr (_, _, grown) ↦ rw grown (q, h, e, b)
      ]
  Step-Follows (Step.updates id i d seen db c) (q, h, e, b) =
      elim (Bool-cases (exists (λ p. p.id == id) db.programs)) [
        | inr f ↦ rw f (q, h, e, b)
        | inl t ↦
            let found =
              find-update (has_id k) (λ p. p.id == id) (patched d) db.programs (λ x. refl) in
            rw t (
              kept_status q _ e b (if q.id == id then patched d q else q) (ground (arith, found, h))
                (ground arith) (ground arith))
      ]
  Step-Follows (Step.changes_status id status current seen db c) (q, h, e, b) =
      let found =
        find-update (has_id k) (is_still id current) (moved status) db.programs (λ x. refl) in
      elim (Bool-cases (is_still id current q)) [
        | inr f ↦ (q, ground (arith, found, h, f), e, b)
        | inl t ↦
            let was : q.status ≡ current = status_eq→eq q.status current (ground (arith, t)) in
            (
              moved status q,
              ground (arith, found, h, t),
              then_moves current status (subst (Evolves p.status) was e)
                  (can_change-Moves current status (checked id status current seen c)),
              b,
            )
      ]

  -- Over any sequence of creations of programs and slots and of writes of updates and of changes
  -- of status, whenever their checks were made, the program of an id stays, keeps its branch, and
  -- its status moves along the life of a program: it starts, is paused and goes on, and ends once
  -- for good.
  pub Reach-Follows :
      (start db : Db)
      → find (has_id k) start.programs ≡ some p
      → Reach start db
      → Follows p (find (has_id k) db.programs)
  Reach-Follows start _ h begin = (p, h, stays, refl)
  Reach-Follows start _ h (step db db' r s) = Step-Follows s (Reach-Follows start db h r)
