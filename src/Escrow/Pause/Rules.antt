-- ===== src/Escrow/Pause/Rules.antt =====
-- The pause of the escrow contract and its history.
use facilpay_contracts.Prelude.{◌≡◌, true, false, none, arith}
use facilpay_contracts.Escrow.Dispute.{is_paused}
use facilpay_contracts.Escrow.Pause.{pause_contract, pause_function, one_of_admins}
use facilpay_contracts.Escrow.Storage.{Storage}
use facilpay_contracts.Host.{Address, Bytes, bytes_of, Env, ok}

-- A pause of the contract, where none is on record, pauses every function that looks for it.
pub pause_contract-pauses :
    (env : Env) (admin : Address) (why name : Bytes) (s t : Storage)
    → s.settings.active_pause (bytes_of "global") ≡ none
    → pause_contract env admin why s ≡ ok (tt, t)
    → is_paused name t.settings.pause_state ≡ true
unfolding pause_contract one_of_admins
pause_contract-pauses env admin why name s t h e = ground (arith, h)

-- After the pause of a function of the name `global`, a pause of the contract succeeds and changes
-- nothing: the contract is not paused.
pub pause_function_global-blocks :
    (env now : Env) (admin other : Address) (why reason : Bytes) (s t u : Storage)
    → s.settings.pause_state ≡ none
    → s.settings.active_pause (bytes_of "global") ≡ none
    → pause_function env admin (bytes_of "global") why s ≡ ok (tt, t)
    → pause_contract now other reason t ≡ ok (tt, u)
    → (u ≡ t) × (is_paused (bytes_of "resolve_dispute") u.settings.pause_state ≡ false)
unfolding pause_function pause_contract one_of_admins
pause_function_global-blocks env now admin other why reason s t u n h e e' =
    (ground (arith, n, h), ground (arith, n, h))
