-- ===== src/ReplayGuard/Tests.antt =====
-- Runs of the replay guard at concrete inputs.
use boilerplate_express_ts.Prelude.{◌≤◌, ◌≡◌, refl, some, List, [], ◌∷◌, arith, codes, text_eq}
use boilerplate_express_ts.Prelude.Map
use boilerplate_express_ts.ReplayGuard.{
  MemoryReplayGuard, accepted, replayed, create, sweep, admit, judge, remember, size,
}
use boilerplate_express_ts.ReplayGuard.Window.{Delivery, after, accepted_once}
use boilerplate_express_ts.ReplayGuard.Decisions.{decide, remember-decide}

abbrev empty : MemoryReplayGuard
empty = record { seen = []; max_entries = 2 }

empty_built : create 2 ≡ some empty
unfolding create
empty_built = refl

-- The third delivery finds the guard full, and the fourth finds one record expired.
abbrev deliveries : List Delivery
deliveries =
    record { key = codes "b"; expires_at = 40; now = 10 }
    ∷ record { key = codes "c"; expires_at = 90; now = 20 }
    ∷ record { key = codes "d"; expires_at = 95; now = 50 }
    ∷ []

held : size (after deliveries empty) ≡ 2
unfolding after remember judge admit sweep size Map.get Map.put Map.delete Map.delete_if text_eq
held = refl

first_accepted : (remember (codes "a") 60 5 empty).1 ≡ accepted
unfolding remember judge admit sweep Map.get Map.put Map.delete Map.delete_if
first_accepted = refl

accepted_once_example :
    remember (codes "a") 99 55 (after deliveries (remember (codes "a") 60 5 empty).0)
    ≡ (after deliveries (remember (codes "a") 60 5 empty).0, replayed)
accepted_once_example =
    accepted_once (codes "a") 60 5 99 55 deliveries empty first_accepted
      (omega arith, (omega arith, (omega arith, tt))) (omega arith)

remember-decide_example :
    ((remember (codes "e") 99 30 (after deliveries empty)).1
      ≡ decide (codes "e") 30 (after deliveries empty))
    × (size (remember (codes "e") 99 30 (after deliveries empty)).0 ≤ 2)
remember-decide_example = remember-decide 2 empty deliveries empty_built (codes "e") 99 30
