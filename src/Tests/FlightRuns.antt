-- ===== src/Tests/FlightRuns.antt =====
-- cache/cache.go: two callers of `GetOrFetch`, a short run of the operations, and the theorems about
-- them.
use proxykit.Prelude.{ℕ, ◌≡◌, ◌↔◌, refl, true, none, some, List, [], ◌∷◌, arith}
use proxykit.Prelude.Int.{pos}
use proxykit.Prelude.Text.{Bytes, codes, bytes_eq}
use proxykit.Cache.Entry.{find, expired_at}
use proxykit.Cache.State.{Cache, World}
use proxykit.Cache.Ops.{get}
use proxykit.Cache.Fetch.{Fetched, content, fast_path, open_hit}
use proxykit.Cache.Fetch.Flights.{
  Flights, fetching, waiting, look, join, lead, Steps, here, next, moved, looked, started,
}
use proxykit.Cache.Fetch.Flights.Orderly.{one_leader}
use proxykit.Cache.Fetch.Flights.Progress.{Finishes, caller_returns}
use proxykit.Cache.Abstract.{Op, puts, gets, removes, contents, spec_step, IsPlaced}
use proxykit.Cache.Abstract.View.{Placed, view, replies, view_iff}
use proxykit.Cache.Abstract.Refines.{run, spec_run, run-refines}

abbrev w : World
w = record { db_ok = λ _. true; remove_ok = λ _. true }

abbrev k : Bytes
k = codes "a"

abbrev hash : Bytes → Bytes
hash s = s

abbrev fetch : ℕ → Fetched ℕ
fetch i = content (codes "x") (pos 0)

abbrev empty : Cache
empty = record {
  dir = codes "/c";
  max_size = 0;
  ttl = pos 50;
  soft_evict_percent = 0;
  db = none;
  entries = [];
  total_size = 0;
  files = λ _. none;
}

abbrev first_looked : Flights ℕ
first_looked = looked 0 (fast_path w k 1 1 empty) (started empty)

abbrev first_leads : Flights ℕ
first_leads = moved 0 fetching (record first_looked { calls = some 0 })

leads : Steps hash w k fetch (started empty) first_leads
unfolding looked started fast_path open_hit get find
leads = next (next here (look (started empty) 0 1 1 refl)) (lead first_looked 0 refl refl)

one_leader_example : ◌≡◌ {A = ℕ} 0 0
unfolding looked started fast_path open_hit get find
one_leader_example = one_leader hash w k fetch empty first_leads 0 0 leads refl refl

abbrev second_looked : Flights ℕ
second_looked = looked 1 (fast_path w k 2 2 first_leads.cache) first_leads

abbrev second_waits : Flights ℕ
second_waits = moved 1 (waiting 0) second_looked

waits : Steps hash w k fetch (started empty) second_waits
unfolding looked started fast_path open_hit get find
waits = next (next leads (look first_leads 1 2 2 refl)) (join second_looked 1 0 refl refl)

caller_returns_example : Finishes hash w k fetch second_waits 1
caller_returns_example = caller_returns hash w k fetch empty second_waits 1 waits

abbrev ops : List Op
ops = puts k (codes "x") (pos 5) 10 ∷ gets k 12 12 ∷ gets k 16 16 ∷ removes k ∷ gets k 17 17 ∷ []

empty-IsPlaced : IsPlaced hash empty
unfolding find
empty-IsPlaced = record { unlimited = refl; placed = λ j e there. absurd (ground (arith, there)) }

run-refines_example : (run hash w ops empty).1 ≡ none ∷ some (codes "x") ∷ none ∷ none ∷ none ∷ []
unfolding spec_run spec_step contents find bytes_eq expired_at
run-refines_example = (run-refines hash w (λ i j e. e) ops empty empty-IsPlaced).0

abbrev here_placed : Placed hash w (λ i j e. e) (pos 50)
here_placed = record { cache = empty; placed = empty-IsPlaced; lifetime = refl }

abbrev moved_cache : Cache
moved_cache = record empty { dir = codes "/d"; db = some [] }

moved_cache-IsPlaced : IsPlaced hash moved_cache
unfolding find
moved_cache-IsPlaced = record {
  unlimited = refl;
  placed = λ j e there. absurd (ground (arith, there));
}

abbrev elsewhere_placed : Placed hash w (λ i j e. e) (pos 50)
elsewhere_placed = record { cache = moved_cache; placed = moved_cache-IsPlaced; lifetime = refl }

view_iff_example :
    (view hash w (λ i j e. e) (pos 50) here_placed
      ≡ view hash w (λ i j e. e) (pos 50) elsewhere_placed)
    ↔ ((steps : List Op)
        → replies hash w (λ i j e. e) (pos 50) steps (view hash w (λ i j e. e) (pos 50) here_placed)
          ≡ replies hash w
              (λ i j e. e)
              (pos 50)
              steps
              (view hash w (λ i j e. e) (pos 50) elsewhere_placed))
view_iff_example =
    view_iff hash w (λ i j e. e) (pos 50) (view hash w (λ i j e. e) (pos 50) here_placed)
      (view hash w (λ i j e. e) (pos 50) elsewhere_placed)
