-- ===== src/Code/Tests.antt =====
-- Runs of the code manager.
use lico.Base.{ℕ, ◌≤◌, ◌+◌, ◌≡◌, refl, some, none, [], ◌∷◌, arith}
use lico.Base.Dict.{get, put}
use lico.Code.{
  CodeManager, CodeRequestRecord, empty_manager, create, pop, Running, start, Reach, here, next,
  created, passed, popped,
}
use lico.Code.Refine.{creates, pops, purges, run, replay, run-replay}
use lico.Code.Life.{pop-young, pop_once}

abbrev one_code : CodeManager ℕ
one_code = create "a" 5 7 empty_manager

-- Created at 1000, exchanged 20 seconds later.
abbrev later : Running ℕ
later = record { manager = create "a" 1000 7 empty_manager; now = 1000 + 20; next_tick = 1000 + 30 }

later_reached : Reach (start 1000) later
later_reached = next (next here (created _ "a" 7)) (
    passed (record { manager = create "a" 1000 7 empty_manager; now = 1000; next_tick = 1000 + 30 })
      20 (omega arith))

pop-young_example :
    (rr : CodeRequestRecord ℕ) × (get "a" later.manager.table ≡ some rr)
    × (rr.stored ≡ 7)
    × (rr.when ≤ 1020)
    × (1020 ≤ rr.when + 150)
unfolding pop create get put
pop-young_example = pop-young 1000 later later_reached "a" 7 refl

pop_once_example : (pop "a" (pop "b" (pop "a" later.manager).1).1).0 ≡ none
pop_once_example =
    pop_once "a" later {t = record later { manager = (pop "b" (pop "a" later.manager).1).1 }}
      (next here (popped _ "b")) tt

run-replay_example :
    run {R = ℕ} (creates "a" 5 7 ∷ pops "a" ∷ purges 900 ∷ pops "a" ∷ []) empty_manager
    ≡ replay {R = ℕ} (creates "a" 5 7 ∷ pops "a" ∷ purges 900 ∷ pops "a" ∷ []) (λ k. none)
unfolding get
run-replay_example =
    run-replay (creates "a" 5 7 ∷ pops "a" ∷ purges 900 ∷ pops "a" ∷ []) empty_manager (λ k. none)
      tt (λ k. refl)
