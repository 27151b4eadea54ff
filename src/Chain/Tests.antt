-- ===== src/Chain/Tests.antt =====
-- A poll over one deposit, with a node that serves 2048 blocks in a call and no more.
use dex_backend.Base.{
  ℕ, ◌+◌, ◌≤◌, ◌<◌, ◌≡◌, ◌≢◌, refl, true, ◌&&◌, none, some, ltb, List, [], ◌∷◌, ◌++◌, leb,
  if◌then◌else◌, arith,
}
use dex_backend.Text.Bytes.{bytes}
use dex_backend.Chain.Listener.{
  DepositLog, Vault, Replies, done, out_of_fuel, handle_logs, start_of, poll,
}
use dex_backend.Chain.Listener.Laws.{InRange, Serves, at_cursor, poll-ends, poll-scans}

abbrev deposit : DepositLog
deposit = record { user_address = bytes "0xAb"; amount = some 5000000; tx_hash = 77 }

-- The deposit is in block 7000.
abbrev logs : ℕ → ℕ → List DepositLog
logs from to = if leb from 7000 && leb 7000 to then deposit ∷ [] else []

abbrev node : Replies
node = record {
  filter_logs = λ from to. if ltb to (from + 2048) then some (logs from to) else none;
  set_cursor = λ _. true;
}

logs_parts :
    (from to latest : ℕ)
    → from ≤ to
    → to < latest
    → logs from latest ≡ logs from to ++ logs (to + 1) latest
logs_parts from to latest h k = ground arith

node-Serves : Serves node logs
node-Serves = record {
  replies = λ from to h short. ground arith;
  written = λ next. refl;
  parts = logs_parts;
}

abbrev vault : Vault
vault = record {
  ledger = record { users = []; user_balances = []; ledger_entries = []; next_id = 1 };
  cursor = some 4000;
  notices = [];
}

room : InRange 9000
room = omega arith

poll-ends_example : (poll 0 node (some 9000) vault).0 ≢ out_of_fuel
poll-ends_example = poll-ends 0 9000 node vault room

poll-scans_example :
    poll 0 node (some 9000) vault
    ≡ (done, at_cursor (9000 + 1) (handle_logs (logs (start_of 0 (some 4000)) 9000) vault))
poll-scans_example = poll-scans 0 9000 node logs vault node-Serves room (omega arith)
