-- ===== src/Code/Life.antt =====
-- How long an authorization code lives, and that it is exchanged once.
use lico.Base.{
  ℕ, ◌+◌, ◌≤◌, String, ◌≡◌, ◌≢◌, refl, Bool, false, Option, none, some, [], ◌∷◌, arith, eq_iff,
  eq_refl, eq_of_ne, if◌then◌else◌, ◌==◌, Option-cases, inl, inr,
}
use lico.Base.Lists.{contains}
use lico.Base.Dict.{
  Dict, get, put, get-put, get-remove, get-remove_all, IsDistinct, IsDistinct-put,
  IsDistinct-remove, IsDistinct-remove_all,
}
use lico.Code.{
  CodeRequestRecord, CodeManager, is_expired, expired, purge_expired, create, pop, Running, start,
  Step, created, popped, passed, ticked, Reach, here, next, code_valid_duration, cleanup_period,
}

module _ {R : Type 0} where
  -- Of an entry under the code: whether the purge removes it.
  abbrev pub is_dropped : ℕ → Option (CodeRequestRecord R) → Bool
  is_dropped now none = false
  is_dropped now (some rr) = is_expired now rr

  contains-expired :
      (now : ℕ) (code : String) (m : Dict (CodeRequestRecord R))
      → IsDistinct m
      → contains code (expired now m) ≡ is_dropped now (get code m)
  unfolding expired get
  contains-expired now code [] h = refl
  contains-expired now code ((k, rr) ∷ m) h =
      ground (arith, eq_iff k code, contains-expired now code m h.1)

  -- The purge removes exactly the entries that are older than the valid duration.
  pub get-purge_expired :
      (now : ℕ) (code : String) (cm : CodeManager R)
      → IsDistinct cm.table
      → get code (purge_expired now cm).table
        ≡ (if is_dropped now (get code cm.table) then none else get code cm.table)
  unfolding purge_expired
  get-purge_expired now code cm h = ground (
    arith,
    get-remove_all (expired now cm.table) code cm.table,
    contains-expired now code cm.table h,
  )

  pub get-pop :
      (code other : String) (cm : CodeManager R)
      → get other (pop code cm).1.table ≡ (if code == other then none else get other cm.table)
  unfolding pop
  get-pop code other cm = ground (arith, get-remove code other cm.table, eq_iff code other)

  pub IsDistinct-pop :
      (code : String) (cm : CodeManager R) → IsDistinct cm.table → IsDistinct (pop code cm).1.table
  unfolding pop
  IsDistinct-pop code cm h = ground (arith, IsDistinct-remove code cm.table h)

  -- A code that was just created is exchanged for its record, once: the next exchange finds nothing.
  -- All other codes stay as they were.
  pub pop-create :
      (code : String) (now : ℕ) (r : R) (cm : CodeManager R)
      → ((pop code (create code now r cm)).0 ≡ some r)
        × ((pop code (pop code (create code now r cm)).1).0 ≡ none)
        × ((other : String)
            → code ≢ other
            → get other (pop code (create code now r cm)).1.table ≡ get other cm.table)
  unfolding pop create
  pop-create code now r cm = (
    ground (arith, get-put code code rr cm.table, eq_refl code),
    ground (
      arith,
      get-put code code rr cm.table,
      eq_refl code,
      get-remove code code (put code rr cm.table),
    ),
    λ other ne. ground (
      arith,
      get-put code code rr cm.table,
      get-put code other rr cm.table,
      get-remove code other (put code rr cm.table),
      eq_refl code,
      eq_of_ne code other ne,
    ),
  )
    where
      rr : CodeRequestRecord R
      rr = record { stored = r; when = now }

-- What holds in each state that the requests, the clock and the ticker lead to.
pub record IsTimely {R : Type 0} (s : Running R) : Type 0 where
  pub distinct : IsDistinct s.manager.table
  pub ahead : s.now ≤ s.next_tick
  pub near : s.next_tick ≤ s.now + cleanup_period
  pub young :
      (code : String) (rr : CodeRequestRecord R)
      → get code s.manager.table ≡ some rr
      → (rr.when ≤ s.now) × (s.next_tick ≤ rr.when + code_valid_duration + cleanup_period)

module _ {R : Type 0} where
  create-IsDistinct :
      (code : String) (now : ℕ) (r : R) (cm : CodeManager R)
      → IsDistinct cm.table
      → IsDistinct (create code now r cm).table
  unfolding create
  create-IsDistinct code now r cm h =
      IsDistinct-put code (record { stored = r; when = now }) cm.table h

  get-create :
      (code other : String) (now : ℕ) (r : R) (cm : CodeManager R)
      → get other (create code now r cm).table
        ≡ (if code == other then some (record { stored = r; when = now }) else get other cm.table)
  unfolding create
  get-create code other now r cm = get-put code other (record { stored = r; when = now }) cm.table

  purge-IsDistinct :
      (now : ℕ) (cm : CodeManager R) → IsDistinct cm.table → IsDistinct (purge_expired now cm).table
  unfolding purge_expired
  purge-IsDistinct now cm h = IsDistinct-remove_all (expired now cm.table) cm.table h

  purge_young :
      (s : Running R) (code : String) (rr : CodeRequestRecord R)
      → IsTimely s
      → s.now ≡ s.next_tick
      → get code (purge_expired s.now s.manager).table ≡ some rr
      → (rr.when ≤ s.now)
        × (s.next_tick + cleanup_period ≤ rr.when + code_valid_duration + cleanup_period)
  purge_young s code rr t due e =
      ground (arith, get-purge_expired s.now code s.manager t.distinct, t.young code rr)

  pop_keeps :
      (code other : String) (cm : CodeManager R) (rr : CodeRequestRecord R)
      → get other (pop code cm).1.table ≡ some rr
      → get other cm.table ≡ some rr
  pop_keeps code other cm rr e = ground (arith, get-pop code other cm)

  Step-IsTimely : {s t : Running R} → Step s t → IsTimely s → IsTimely t
  Step-IsTimely (created s code r) t = record {
    distinct = create-IsDistinct code s.now r s.manager t.distinct;
    ahead = t.ahead;
    near = t.near;
    young = λ other rr e. ground (arith, get-create code other s.now r s.manager, t.young other rr);
  }
  Step-IsTimely (popped s code) t = record {
    distinct = IsDistinct-pop code s.manager t.distinct;
    ahead = t.ahead;
    near = t.near;
    young = λ other rr e. t.young other rr (pop_keeps code other s.manager rr e);
  }
  Step-IsTimely (passed s d h) t = record {
    distinct = t.distinct;
    ahead = h;
    near = omega (arith, t.near);
    young = λ code rr e. let young = t.young code rr e in (omega arith, omega arith);
  }
  Step-IsTimely (ticked s due) t = record {
    distinct = purge-IsDistinct s.now s.manager t.distinct;
    ahead = omega arith;
    near = omega arith;
    young = λ code rr e. purge_young s code rr t due e;
  }

  pop_found :
      (code : String) (cm : CodeManager R) (r : R)
      → (pop code cm).0 ≡ some r
      → (rr : CodeRequestRecord R) × (get code cm.table ≡ some rr) × (rr.stored ≡ r)
  unfolding pop
  pop_found code cm r h = elim (Option-cases (get code cm.table)) [
    | inl missing ↦ absurd (ground arith)
    | inr (rr, stored) ↦ (rr, stored, ground arith)
  ]

  Reach-IsTimely : {s t : Running R} → IsTimely s → Reach s t → IsTimely t
  Reach-IsTimely h here = h
  Reach-IsTimely h (next r st) = Step-IsTimely st (Reach-IsTimely h r)

  start-IsTimely : (now : ℕ) → IsTimely (start {R = R} now)
  unfolding get
  start-IsTimely now = record {
    distinct = tt;
    ahead = omega arith;
    near = omega arith;
    young = λ code rr e. cc;
  }

  -- From the start of the manager, whatever is created, exchanged and purged in whatever order: a
  -- record that a code is exchanged for was stored at most 150 seconds ago, which is the valid
  -- duration and one period of the cleanup.
  pub pop-young :
      (t0 : ℕ) (s : Running R)
      → Reach (start t0) s
      → (code : String) (r : R) → (pop code s.manager).0 ≡ some r
      → (rr : CodeRequestRecord R) × (get code s.manager.table ≡ some rr)
        × (rr.stored ≡ r)
        × (rr.when ≤ s.now)
        × (s.now ≤ rr.when + 150)
  pop-young t0 s reach code r found =
      let (rr, stored, same) = pop_found code s.manager r found in
      let timely = Reach-IsTimely (start-IsTimely t0) reach in
      let (past, recent) = timely.young code rr stored in
      (rr, stored, same, past, omega (arith, timely.ahead))

  -- The steps of a run in which the code is not created.
  abbrev pub NotCreated : String → {s t : Running R} → Reach s t → Type 0
  NotCreated code here = Unit
  NotCreated code (next r (created s other x)) = NotCreated code r × (other ≢ code)
  NotCreated code (next r st) = NotCreated code r

  absent_purged :
      (code : String) (now : ℕ) (cm : CodeManager R)
      → get code cm.table ≡ none
      → get code (purge_expired now cm).table ≡ none
  unfolding purge_expired
  absent_purged code now cm h = ground (arith, get-remove_all (expired now cm.table) code cm.table)

  absent_stays :
      (code : String) {s t : Running R} (reach : Reach s t)
      → NotCreated code reach
      → get code s.manager.table ≡ none
      → get code t.manager.table ≡ none
  absent_stays code here h e = e
  absent_stays code (next {t = u} r (created _ other x)) h e =
      let before = absent_stays code r h.0 e in
      ground (arith, get-create other code u.now x u.manager, eq_of_ne other code h.1)
  absent_stays code (next {t = u} r (popped _ other)) h e =
      let before = absent_stays code r h e in ground (arith, get-pop other code u.manager)
  absent_stays code (next r (passed _ d fits)) h e = absent_stays code r h e
  absent_stays code (next {t = u} r (ticked _ due)) h e =
      absent_purged code u.now u.manager (absent_stays code r h e)

  pub pop_absent :
      (code : String) (cm : CodeManager R) → get code cm.table ≡ none → (pop code cm).0 ≡ none
  unfolding pop
  pop_absent code cm h = ground arith

  -- An authorization code is exchanged at most once: in no state that is reached after an exchange of
  -- the code, by whatever further steps, is it found again, unless one of these steps creates it anew.
  pub pop_once :
      (code : String) (s : Running R) {t : Running R}
      → (reach : Reach (record s { manager = (pop code s.manager).1 }) t) → NotCreated code reach
      → (pop code t.manager).0 ≡ none
  pop_once code s {t} reach h =
      let gone =
        absent_stays code reach h (ground (arith, get-pop code code s.manager, eq_refl code)) in
      pop_absent code t.manager gone
