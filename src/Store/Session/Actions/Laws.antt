-- ===== src/Store/Session/Actions/Laws.antt =====
-- crates/mews-store/src/sessions.rs, append_reasoning: a key is recorded once.
use mews.Prelude.{String, Bool, true, some, List, any, ◌≡◌, ◌==◌, ◌&&◌}
use mews.Protocol.Values.{Uid}
use mews.Store.Session.Record.{observation_exists}
use mews.Store.Tables.{Db, TurnRow, is_active}
use mews.Store.Tx.{Tx}
use mews.Store.Tx.Runs.{Runs, Runs-bind, Runs-bind}

-- What the call leaves: the key is known, and the Turns are as they were.
abbrev Observed : Uid → String → Db → Db → Type 0
Observed s k a b = (observation_exists s (some k) b ≡ true) × (b.turns ≡ a.turns)

abbrev has_active : Uid → Uid → List TurnRow → Bool
has_active s t = any (λ r. r.id == t && r.session_id == s && is_active r)
