-- ===== src/Refund/Pause/Rules.antt =====
-- The pause of the refund contract stops nothing.
use facilpay_contracts.Prelude.{ℕ, ◌≡◌, ap, ◌∙◌, true, arith}
use facilpay_contracts.Host.{Address, Bytes, Env, ok, is_ok}
use facilpay_contracts.Pausing.{pause_all, is_function_paused}
use facilpay_contracts.Refund.Denials.{begin_refund_rejection, reject_refund, finalize_denial}
use facilpay_contracts.Refund.Pause.{pause_contract}
use facilpay_contracts.Refund.Requests.{approve_refund_internal, approve_refund}
use facilpay_contracts.Refund.Storage.{RefundStorage}

-- After `pause_contract` the contract says of each of its functions that it is paused, and yet an
-- approval, a rejection and the end of an appeal window succeed just when they would have before.
pub pause_contract_stops_nothing :
    (env now : Env) (admin caller : Address) (why reason name : Bytes) (id : ℕ)
    (s t : RefundStorage)
    → pause_contract env admin why s ≡ ok (tt, t)
    → (is_function_paused name t.pausing ≡ true)
      × (is_ok (approve_refund now caller id t) ≡ is_ok (approve_refund now caller id s))
      × (is_ok (reject_refund now caller id t) ≡ is_ok (reject_refund now caller id s))
      × (is_ok (finalize_denial now id t) ≡ is_ok (finalize_denial now id s))
unfolding pause_contract pause_all is_function_paused approve_refund approve_refund_internal
    reject_refund begin_refund_rejection finalize_denial
pause_contract_stops_nothing env now admin caller why reason name id s t e =
    let same : t ≡ record s { pausing = t.pausing } = ground arith in
    let approval : is_ok (approve_refund now caller id (record s { pausing = t.pausing }))
        ≡ is_ok (approve_refund now caller id s) =
      ground arith in
    let rejection : is_ok (reject_refund now caller id (record s { pausing = t.pausing }))
        ≡ is_ok (reject_refund now caller id s) =
      ground arith in
    let denial : is_ok (finalize_denial now id (record s { pausing = t.pausing }))
        ≡ is_ok (finalize_denial now id s) =
      ground arith in
    (
      ground arith,
      ap (λ x. is_ok (approve_refund now caller id x)) same ∙ approval,
      ap (λ x. is_ok (reject_refund now caller id x)) same ∙ rejection,
      ap (λ x. is_ok (finalize_denial now id x)) same ∙ denial,
    )
