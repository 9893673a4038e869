-- ===== src/Store/Session/Bindings.antt =====
-- crates/mews-store/src/sessions.rs: the Session of the harness that a Session is bound to.
use text.Mathlib.Text.{◌==◌ as str_eq}
use mews.Prelude.{
  ℕ, String, Bool, true, false, not, [], ◌∷◌, ◌++◌, any, ◌==◌, ◌&&◌, if◌then◌else◌, update_where,
  count,
}
use mews.Protocol.Turns.{
  AcpInstructionChannel, codex_developer, claude_system_append, first_prompt, AcpSessionBinding,
}
use mews.Protocol.Values.{Uid}
use mews.Store.Result.{
  database, unique_violation, foreign_key_violation, invalid_data, dispatch_mismatch,
}
use mews.Store.Session.Entries.{is_session}
use mews.Store.Tables.{Db}
use mews.Store.Tx.{Tx, ◌>>=◌, ◌>>◌, gets, modify, require}

abbrev pub same_channel : AcpInstructionChannel → AcpInstructionChannel → Bool
same_channel codex_developer codex_developer = true
same_channel claude_system_append claude_system_append = true
same_channel first_prompt first_prompt = true
same_channel _ _ = false

-- UNIQUE (host_id, harness, acp_session_id), against the rows of other Sessions.
abbrev pub binding_clashes : AcpSessionBinding → AcpSessionBinding → Bool
binding_clashes new old =
    not (new.session_id == old.session_id)
    && new.host_id == old.host_id
    && str_eq new.harness old.harness
    && str_eq new.acp_session_id old.acp_session_id

unfoldable pub put_binding : AcpSessionBinding → Db → Db
put_binding new db = record db {
  bindings =
      if any (λ b. b.session_id == new.session_id) db.bindings
      then update_where (λ b. b.session_id == new.session_id)
          (λ b. record new { created_at = b.created_at }) db.bindings
      else db.bindings ++ new ∷ [];
}

-- INSERT … ON CONFLICT(session_id) DO UPDATE
unfoldable pub change_binding : AcpSessionBinding → Tx Unit
change_binding new = do
  taken ← gets (λ db. any (binding_clashes new) db.bindings)
  require (not taken) (database unique_violation)
  known ← gets (λ db. is_session new.session_id db && any (λ h. h == new.host_id) db.hosts)
  require known (database foreign_key_violation)
  modify (put_binding new)

abbrev pub dispatches :
    Uid → Uid → String → ℕ → String → AcpInstructionChannel → AcpSessionBinding → Bool
dispatches session host harness version hash channel b =
    b.session_id == session
    && b.host_id == host
    && str_eq b.harness harness
    && b.context_version == version
    && str_eq b.context_hash hash
    && same_channel b.context_channel channel

unfoldable pub update_bindings :
    (AcpSessionBinding → Bool) → (AcpSessionBinding → AcpSessionBinding) → Db → Db
update_bindings p f db = record db { bindings = update_where p f db.bindings }

unfoldable pub dispatch_context : Uid → Uid → String → ℕ → String → AcpInstructionChannel → Tx Unit
dispatch_context session host harness version hash channel = do
  changed ← gets (λ db. count (dispatches session host harness version hash channel) db.bindings)
  modify (
      update_bindings (dispatches session host harness version hash channel)
        (λ b. record b { context_dispatched = true }))
  require (changed == 1) (invalid_data dispatch_mismatch)
