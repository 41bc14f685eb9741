-- ===== src/Code.antt =====
-- oidc/code/managers/memorymap.go: the table of authorization codes. Times are seconds.
pub mod Life
pub mod Refine
pub mod Tests
use lico.Base.{
  ℕ, ◌+◌, ◌-◌, ◌≤◌, ◌<◌, String, ◌≡◌, Bool, true, false, Option, none, some, List, [], ◌∷◌, ltb,
  if◌then◌else◌,
}
use lico.Base.Dict.{Dict, get, put, remove, remove_all}

-- codeValidDuration
abbrev pub code_valid_duration : ℕ
code_valid_duration = 120

-- The period of the cleanup ticker.
abbrev pub cleanup_period : ℕ
cleanup_period = 30

-- `R` is the code.Record that is kept for the exchange.
pub record CodeRequestRecord (R : Type 0) : Type 0 where
  pub stored : R
  pub when : ℕ

pub record CodeManager (R : Type 0) : Type 0 where
  pub table : Dict (CodeRequestRecord R)

module _ {R : Type 0} where
  abbrev pub empty_manager : CodeManager R
  empty_manager = record { table = [] }

  -- record.when.Before(time.Now().Add(-codeValidDuration))
  abbrev pub is_expired : ℕ → CodeRequestRecord R → Bool
  is_expired now r = ltb (r.when + code_valid_duration) now

  -- The first loop of purgeExpired.
  unfoldable pub expired : ℕ → Dict (CodeRequestRecord R) → List String
  expired now [] = []
  expired now ((code, r) ∷ m) =
      let rest = expired now m in if is_expired now r then code ∷ rest else rest

  pub purge_expired : ℕ → CodeManager R → CodeManager R
  purge_expired now cm = record { table = remove_all (expired now cm.table) cm.table }

  -- Create, with the code that rndm.GenerateRandomString(24) returned.
  unfoldable pub create : String → ℕ → R → CodeManager R → CodeManager R
  create code now r cm = record { table = put code (record { stored = r; when = now }) cm.table }

  -- Pop: the record and whether it was found, and the table without it.
  unfoldable pub pop : String → CodeManager R → Option R × CodeManager R
  pop code cm = elim (get code cm.table) [
    | none ↦ (none, cm)
    | some rr ↦ (some rr.stored, record { table = remove code cm.table })
  ]

-- The manager with the clock and the time of the ticker's next tick: the loop of the goroutine that
-- NewMemoryMapManager starts is taken to run before the clock passes that time.
pub record Running (R : Type 0) : Type 0 where
  pub manager : CodeManager R
  pub now : ℕ
  pub next_tick : ℕ

module _ {R : Type 0} where
  -- NewMemoryMapManager
  abbrev pub start : ℕ → Running R
  start now = record { manager = empty_manager; now = now; next_tick = now + cleanup_period }

  -- Requests create and pop codes in any order; time passes up to the next tick, which purges.
  pub data Step : Running R → Running R → Type 0 where
    created :
        (s : Running R) (code : String) (r : R)
        → Step s (record s { manager = create code s.now r s.manager })
    popped :
        (s : Running R) (code : String) → Step s (record s { manager = (pop code s.manager).1 })
    passed :
        (s : Running R) (d : ℕ) → s.now + d ≤ s.next_tick → Step s (record s { now = s.now + d })
    ticked :
        (s : Running R)
        → s.now ≡ s.next_tick
        → Step s (record {
          manager = purge_expired s.now s.manager;
          now = s.now;
          next_tick = s.next_tick + cleanup_period;
        })

  pub data Reach (s : Running R) : Running R → Type 0 where
    here : Reach s s
    next : {t u : Running R} → Reach s t → Step t u → Reach s u
