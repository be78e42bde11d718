-- ===== src/Tests/PackRuns.antt =====
-- git/handler.go: callers for one pack, and the theorems about them.
use proxykit.Prelude.{◌≡◌, refl, true, false, none, some, []}
use proxykit.Prelude.Int.{pos}
use proxykit.Prelude.Text.{Bytes, codes}
use proxykit.Cache.Entry.{find}
use proxykit.Cache.State.{Cache}
use proxykit.Cache.Ops.{get}
use proxykit.Http.{unreachable}
use proxykit.Git.Handler.{Handler, Outside}
use proxykit.Git.Handler.Flights.{
  Flights, missed, fetching, waiting, look, join, lead, Steps, here, next, moved, looked, started,
  look_up,
}
use proxykit.Git.Handler.Flights.Progress.{Finishes, clone_returns}
use proxykit.Git.Handler.Flights.Together.{waiters_fetch}

abbrev empty : Cache
empty = record {
  dir = codes "/c";
  max_size = 0;
  ttl = pos 50;
  soft_evict_percent = 0;
  db = none;
  entries = [];
  total_size = 0;
  files = λ _. none;
}

abbrev handler : Handler
handler = record {
  refs_cache = empty;
  packs_cache = empty;
  config = record {
    max_upload_pack_request_size = 100;
    max_pack_cache_entry_size = 0;
    allowed_hosts = [];
  };
}

abbrev outside : Outside
outside = record {
  sha_hex = λ s. s;
  gunzip = λ s. some s;
  like = λ _ _. false;
  world = record { db_ok = λ _. true; remove_ok = λ _. true };
  put_fault = none;
  flowed = 0;
  checked = 10;
  now = 10;
  later = 10;
}

abbrev key : Bytes
key = codes "pack"

abbrev first_looked : Flights
first_looked = looked 0 missed (look_up key outside handler) (started handler)

abbrev first_leads : Flights
first_leads = moved 0 fetching (record first_looked { flight = some 0 })

abbrev second_looked : Flights
second_looked = looked 1 missed (look_up key outside first_leads.handler) first_leads

abbrev second_waits : Flights
second_waits = moved 1 (waiting 0) second_looked

waits : Steps key (started handler) second_waits
unfolding looked started look_up get find
waits =
    let leads =
      next (next here (look (started handler) 0 outside refl)) (lead first_looked 0 refl refl) in
    next (next leads (look first_leads 1 outside refl)) (join second_looked 1 0 refl refl)

clone_returns_example : Finishes key second_waits 1
clone_returns_example = clone_returns key outside unreachable handler second_waits 1 waits

waiters_fetch_example :
    (s : Flights) × Steps key (started handler) s
    × (s.stage 1 ≡ fetching)
    × (s.stage 2 ≡ fetching)
    × (s.flight ≡ some 0)
unfolding find
waiters_fetch_example = waiters_fetch key outside handler refl
