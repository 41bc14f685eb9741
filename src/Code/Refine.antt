-- ===== src/Code/Refine.antt =====
-- The table of codes of oidc/code/managers/memorymap.go as a function from codes to records.
use lico.Base.{
  leb, ◌+◌, ℕ, String, ◌≡◌, refl, Option, none, some, List, [], ◌∷◌, ◌==◌, if◌then◌else◌, arith,
}
use lico.Base.Dict.{get, get-put, IsDistinct, IsDistinct-put, IsDistinct-remove_all}
use lico.Code.Life.{is_dropped, get-purge_expired, get-pop, IsDistinct-pop}
use lico.Code.{CodeRequestRecord, CodeManager, expired, purge_expired, create, pop}

-- A call of the manager: Create with the code that it makes, Pop, and a round of the cleanup.
pub data Call (R : Type 0) : Type 0 where
  creates : String → ℕ → R → Call R
  pops : String → Call R
  purges : ℕ → Call R

-- The specification: a store that knows of each code its record, if it has one.
abbrev pub Store : Type 0 → Type 0
Store R = String → Option (CodeRequestRecord R)

module _ {R : Type 0} where
  -- What the calls leave and what the pops among them return, in their order.
  unfoldable pub run : List (Call R) → CodeManager R → List (Option R)
  unfolding create pop purge_expired
  run [] cm = []
  run (creates code now r ∷ calls) cm = run calls (create code now r cm)
  run (pops code ∷ calls) cm = let later = run calls (pop code cm).1 in (pop code cm).0 ∷ later
  run (purges now ∷ calls) cm = run calls (purge_expired now cm)

  abbrev stored_of : Option (CodeRequestRecord R) → Option R
  stored_of none = none
  stored_of (some r) = some r.stored

  -- A purge keeps a record for 120 seconds from its creation on, the last of them included.
  abbrev young : ℕ → Option (CodeRequestRecord R) → Option (CodeRequestRecord R)
  young now none = none
  young now (some r) = if leb now (r.when + 120) then some r else none

  -- The same calls on a store.
  unfoldable pub replay : List (Call R) → Store R → List (Option R)
  replay [] store = []
  replay (creates code now r ∷ calls) store =
      replay calls (λ k. if code == k then some (record { stored = r; when = now }) else store k)
  replay (pops code ∷ calls) store =
      let later = replay calls (λ k. if code == k then none else store k) in
      stored_of (store code) ∷ later
  replay (purges now ∷ calls) store = replay calls (λ k. young now (store k))

  is_dropped-young :
      (now : ℕ) (found : Option (CodeRequestRecord R))
      → (if is_dropped now found then none else found) ≡ young now found
  is_dropped-young now none = refl
  is_dropped-young now (some r) = ground arith

  pop-stored :
      (code : String) (cm : CodeManager R) → (pop code cm).0 ≡ stored_of (get code cm.table)
  unfolding pop
  pop-stored code cm = ground arith

  -- The specification forgets a code when it is popped and keeps a record until 120 seconds after its
  -- creation at each purge. A manager whose table names no code twice answers a run of calls as the
  -- specification does from any store that agrees with the table.
  pub run-replay :
      (calls : List (Call R)) (cm : CodeManager R) (store : Store R)
      → IsDistinct cm.table
      → ((k : String) → get k cm.table ≡ store k)
      → run calls cm ≡ replay calls store
  unfolding run replay create pop purge_expired
  run-replay [] cm store distinct agree = refl
  run-replay (creates code now r ∷ calls) cm store distinct agree =
      run-replay calls (create code now r cm) _ (IsDistinct-put code _ cm.table distinct)
        (λ k. ground (arith, get-put code k (record { stored = r; when = now }) cm.table, agree k))
  run-replay (pops code ∷ calls) cm store distinct agree = cc (
    run-replay calls (pop code cm).1 (λ k. if code == k then none else store k)
        (IsDistinct-pop code cm distinct) (λ k. ground (arith, get-pop code k cm, agree k)),
    pop-stored code cm,
    agree code,
  )
  run-replay (purges now ∷ calls) cm store distinct agree =
      run-replay calls (purge_expired now cm) _
        (IsDistinct-remove_all (expired now cm.table) cm.table distinct)
        (λ k.
          ground
            (arith, get-purge_expired now k cm distinct, agree k, is_dropped-young now (store k)))
