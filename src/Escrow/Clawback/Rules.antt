-- ===== src/Escrow/Clawback/Rules.antt =====
-- When a clawback may be carried out, and what it does.
use facilpay_contracts.Prelude.{
  ℕ, ◌+◌, ◌≤◌, ◌<◌, ◌≡◌, ◌≢◌, ◌⊎◌, true, false, some, ◌∷◌, arith, contains, put,
}
use facilpay_contracts.Escrow.Clawback.{initiate_clawback, execute_clawback, cancel_clawback}
use facilpay_contracts.Escrow.Storage.{Storage}
use facilpay_contracts.Escrow.Types.{resolved, Escrow, MultiSigConfig, ClawbackRequest}
use facilpay_contracts.Host.{Address, Bytes, Env, ok, after}

-- A clawback that succeeds was of an open request whose delay had passed, signed by an admin. The
-- admin who calls has the amount, and the escrow is resolved.
pub execute_clawback-pays :
    (env : Env) (admin : Address) (id : ℕ) (q : ClawbackRequest) (e : Escrow) (s t : Storage)
    → s.clawbacks.requests id ≡ some q
    → s.book.escrows q.escrow_id ≡ some e
    → execute_clawback env admin id s ≡ ok (tt, t)
    → (env.authorized admin ≡ true)
      × (q.executed ≡ false)
      × (q.cancelled ≡ false)
      × (q.execute_after ≤ env.timestamp)
      × (t.book ≡ record (s.book) {
        escrows = put s.book.escrows q.escrow_id (some (record e { status = resolved }));
      })
      × (t.transfers
          ≡ record { token = e.token; from = env.current_contract; to = admin; amount = e.amount }
            ∷ s.transfers)
      × (t.clawbacks.requests id ≡ some (record q { executed = true }))
unfolding execute_clawback
execute_clawback-pays env admin id q e s t hq he r = ground arith

-- From its request a clawback waits for its delay, which is a day or more: before that, nobody's
-- execution succeeds.
pub initiate_clawback_waits :
    (env later : Env) (admin caller : Address) (escrow_id : ℕ) (reason : Bytes) (delay id : ℕ)
    (s t u : Storage)
    → initiate_clawback env admin escrow_id reason delay s ≡ ok (id, t)
    → later.timestamp < env.timestamp + delay
    → (86400 ≤ delay) × (execute_clawback later caller id t ≢ ok (tt, u))
unfolding initiate_clawback execute_clawback
initiate_clawback_waits env later admin caller escrow_id reason delay id s t u r early =
    ground arith

-- A request is carried out or cancelled once: after either, neither succeeds.
pub clawback_once :
    (env later : Env) (admin caller : Address) (id : ℕ) (s t u : Storage)
    → (execute_clawback env admin id s ≡ ok (tt, t)) ⊎ (cancel_clawback env admin id s ≡ ok (tt, t))
    → (execute_clawback later caller id t ≢ ok (tt, u))
      × (cancel_clawback later caller id t ≢ ok (tt, u))
unfolding execute_clawback cancel_clawback
clawback_once env later admin caller id s t u r = ground arith

-- A clawback does not look at the status of the escrow: where the request is ripe, the caller is an
-- admin who has signed, and the token accepts the transfer, it pays the amount out also of an escrow
-- that has paid it out before.
pub execute_clawback_any_status :
    (env : Env) (admin : Address) (id : ℕ) (q : ClawbackRequest) (e : Escrow) (c : MultiSigConfig)
    (s : Storage)
    → s.clawbacks.requests id ≡ some q
    → s.book.escrows q.escrow_id ≡ some e
    → s.governance.multisig ≡ some c
    → contains c.admins admin ≡ true
    → env.authorized admin ≡ true
    → (q.executed ≡ false) × (q.cancelled ≡ false) × (q.execute_after ≤ env.timestamp)
    → env.accepts s.transfers
        (record { token = e.token; from = env.current_contract; to = admin; amount = e.amount })
      ≡ true
    → (t : Storage) × (execute_clawback env admin id s ≡ ok (tt, t))
      × (t.transfers
          ≡ record { token = e.token; from = env.current_contract; to = admin; amount = e.amount }
            ∷ s.transfers)
unfolding execute_clawback
execute_clawback_any_status env admin id q e c s hq he hc listed signed ripe accepted =
    (after s (execute_clawback env admin id s), ground arith, ground arith)
