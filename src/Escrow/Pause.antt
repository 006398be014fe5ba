-- ===== src/Escrow/Pause.antt =====
-- The pause of contracts/escrow/src/lib.rs, which keeps an entry of its history for each pause, with
-- its end, and the index of the entry of a pause that is not over.
pub mod Rules
use facilpay_contracts.Prelude.{
  ◌+◌, true, false, not, none, some, [], ◌∷◌, ◌==◌, if◌then◌else◌, is_some, length, contains, put,
  put_bytes,
}
use facilpay_contracts.Escrow.Errors.{unauthorized, multi_sig_not_initialized, basic}
use facilpay_contracts.Escrow.Storage.{Call, on_settings}
use facilpay_contracts.Escrow.Types.{PauseState}
use facilpay_contracts.Host.{
  Address, Bytes, bytes_of, Env, ◌>>=◌, ◌>>◌, pure, gets, ok_or, modify, err_if, when, require_auth,
  u64,
}
use facilpay_contracts.Pausing.{is_named, push_name, without}

unfoldable pub one_of_admins : Env → Address → Call Unit
one_of_admins env admin = do
  require_auth env admin
  s ← gets (λ s. s)
  config ← ok_or s.governance.multisig (basic multi_sig_not_initialized)
  err_if (not (contains config.admins admin)) (basic unauthorized)

-- What a pause writes after its guards: the state, an entry and the index of the entry.
abbrev pub begin_pause : Env → Address → Bytes → Bytes → PauseState → Call Unit
begin_pause env admin name why st = do
  s ← gets (λ s. s)
  count ← u64 (s.settings.pause_count + 1)
  on_settings (
      modify (λ c. record c {
        pause_state = some st;
        pause_history = put c.pause_history c.pause_count (
            some (record {
              function_name = name;
              paused_by = admin;
              paused_at = env.timestamp;
              unpaused_by = none;
              unpaused_at = none;
              reason = why;
            }));
        pause_count = count;
        active_pause = put_bytes c.active_pause name (some c.pause_count);
      }))

-- The end of the pause that the index names, if there is one.
abbrev pub end_pause : Env → Address → Bytes → Call Unit
end_pause env admin name = do
  s ← gets (λ s. s)
  elim (s.settings.active_pause name) [
    | none ↦ pure tt
    | some i ↦ on_settings (
        modify (λ c. record c {
          pause_history = elim (c.pause_history i) [
            | none ↦ c.pause_history
            | some entry ↦
                put c.pause_history i (
                  some
                    (record entry { unpaused_by = some admin; unpaused_at = some env.timestamp }))
          ];
          active_pause = put_bytes c.active_pause name none;
        }))
  ]

unfoldable pub pause_contract : Env → Address → Bytes → Call Unit
unfolding one_of_admins
pause_contract env admin why = do
  one_of_admins env admin
  s ← gets (λ s. s)
  when (not (is_some (s.settings.active_pause (bytes_of "global")))) (
      begin_pause env admin (bytes_of "global") why (elim s.settings.pause_state [
        | none ↦ record {
          globally_paused = true;
          paused_functions = [];
          paused_at = env.timestamp;
          paused_by = admin;
          pause_reason = why;
        }
        | some st ↦ record st {
          globally_paused = true;
          paused_at = env.timestamp;
          paused_by = admin;
          pause_reason = why;
        }
      ]))

unfoldable pub unpause_contract : Env → Address → Call Unit
unfolding one_of_admins
unpause_contract env admin = do
  one_of_admins env admin
  on_settings (
      modify (λ c. record c {
        pause_state = elim c.pause_state [
          | none ↦ none
          | some st ↦ some (record st { globally_paused = false })
        ];
      }))
  end_pause env admin (bytes_of "global")

unfoldable pub pause_function : Env → Address → Bytes → Bytes → Call Unit
unfolding one_of_admins
pause_function env admin name why = do
  one_of_admins env admin
  err_if (length why == 0) (basic unauthorized)
  s ← gets (λ s. s)
  when (not (is_some (s.settings.active_pause name))) (
      begin_pause env admin name why (elim s.settings.pause_state [
        | none ↦ record {
          globally_paused = false;
          paused_functions = name ∷ [];
          paused_at = 0;
          paused_by = admin;
          pause_reason = [];
        }
        | some st ↦ record st {
          paused_functions =
              if is_named name st.paused_functions
              then st.paused_functions
              else push_name st.paused_functions name;
        }
      ]))

unfoldable pub unpause_function : Env → Address → Bytes → Call Unit
unfolding one_of_admins
unpause_function env admin name = do
  one_of_admins env admin
  on_settings (
      modify (λ c. record c {
        pause_state = elim c.pause_state [
          | none ↦ none
          | some st ↦ some (record st { paused_functions = without name st.paused_functions })
        ];
      }))
  end_pause env admin name
