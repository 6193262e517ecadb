-- ===== src/Router/Forward/Tests.antt =====
-- A request for an upgrade that the upstream accepts, and the permits on its way.
use bugpot.Base.{ℕ, none, some, List, [], ◌∷◌, ok, ◌≡◌, refl, false}
use bugpot.Base.Text.{Str, codes, to_ascii_lowercase, trim, split}
use bugpot.Base.Map.{lookup}
use bugpot.Router.Tests.{headers_of_texts}
use bugpot.Router.Upgrades.{UpgradeSlots, new_slots, try_acquire, spawn_splice}
use bugpot.Router.Upgrades.Counts.{
  IsBalanced, started, stepped, acquired, spliced, Reachable-IsBalanced,
}
use bugpot.Router.Forward.{Request, answered, RouterEnv, handler}
use bugpot.Router.Forward.Permits.{IsFair, handler-IsBalanced}

abbrev Headers : Type 0
Headers = List (Str × Str)

abbrev websocket : Request Str Headers
websocket = record {
  uri = codes "/";
  headers =
      (codes "host", codes "web.example.com")
      ∷ (codes "connection", codes "Upgrade")
      ∷ (codes "upgrade", codes "websocket")
      ∷ [];
  body = [];
}

abbrev alone : RouterEnv ℕ Str Headers Str
alone = record {
  http = headers_of_texts;
  resolve = λ host. ok (record { addr = 1; active_upgrades = some 7 });
  rewrite_uri = λ uri addr. some uri;
  request = λ req. answered (record { status = 101; headers = []; body = [] });
  meanwhile = λ p. p;
  trusts = false;
  peer_ip = none;
  forwarded_proto = codes "http";
  plain_text = [];
}

alone-IsFair : IsFair alone.meanwhile
alone-IsFair = record { keeps = λ q b. b; holds = λ q n e. (n, e) }

new_slots-IsBalanced : IsBalanced new_slots
new_slots-IsBalanced = record { permits = refl; counted = λ id. refl }

handler-IsBalanced_example : IsBalanced (handler alone websocket new_slots).1
handler-IsBalanced_example =
    handler-IsBalanced alone alone-IsFair websocket new_slots new_slots-IsBalanced

-- The request ends as a task that holds the counter of its app.
handler_splices : (handler alone websocket new_slots).1.splices ≡ some 7 ∷ []
unfolding handler lookup to_ascii_lowercase trim split
handler_splices = refl

abbrev one_waiting : UpgradeSlots
one_waiting = record new_slots { free = 31; waiting = 1 }

one_acquired : try_acquire new_slots ≡ some one_waiting
unfolding try_acquire
one_acquired = refl

Reachable-IsBalanced_example : IsBalanced (spawn_splice (some 7) one_waiting)
Reachable-IsBalanced_example =
    Reachable-IsBalanced
      (stepped (stepped started (acquired one_acquired)) (spliced (some 7) 0 refl))
