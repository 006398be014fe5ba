-- ===== src/Escrow/Statistics.antt =====
-- Analytics of contracts/escrow/src/lib.rs, overall and by address.
use facilpay_contracts.Prelude.{
  ℕ, ◌+◌, ◌*◌, ◌/◌, true, false, some, ltb, ◌==◌, if◌then◌else◌, unwrap_or, put,
}
use facilpay_contracts.Escrow.Errors.{Error}
use facilpay_contracts.Escrow.Storage.{Statistics}
use facilpay_contracts.Escrow.Types.{EscrowAnalytics}
use facilpay_contracts.Host.{
  Address, ok, Action, ◌>>=◌, ◌>>◌, pure, gets, modify, u64, i128, saturating_u64,
}
use facilpay_contracts.Prelude.Int.{ℤ, pos, ◌+ℤ◌}

-- `EscrowAnalytics::default_value`
abbrev pub default_value : EscrowAnalytics
default_value = record {
  total_escrows_created = 0;
  total_value_locked = pos 0;
  total_value_released = pos 0;
  total_disputes = 0;
  total_resolutions = 0;
  dispute_rate_bps = pos 0;
  avg_escrow_duration_seconds = 0;
  total_escrows_released = 0;
}

-- A change of analytics that may overflow.
abbrev pub Change : Type 0
Change = EscrowAnalytics → Action Error Statistics EscrowAnalytics

unfoldable pub update_overall : Change → Action Error Statistics Unit
update_overall change = do
  t ← gets (λ t. t)
  a ← change (unwrap_or t.overall default_value)
  modify (λ t. record t { overall = some a })

unfoldable pub update_customer_analytics : Address → Change → Action Error Statistics Unit
update_customer_analytics customer change = do
  t ← gets (λ t. t)
  a ← change (unwrap_or (t.by_customer customer) default_value)
  modify (λ t. record t { by_customer = put t.by_customer customer (some a) })

unfoldable pub update_merchant_analytics : Address → Change → Action Error Statistics Unit
update_merchant_analytics merchant change = do
  t ← gets (λ t. t)
  a ← change (unwrap_or (t.by_merchant merchant) default_value)
  modify (λ t. record t { by_merchant = put t.by_merchant merchant (some a) })

unfoldable pub created : ℤ → Change
unfolding ◌+ℤ◌
created amount a = do
  count ← u64 (a.total_escrows_created + 1)
  value ← i128 (a.total_value_locked +ℤ amount)
  pure (record a { total_escrows_created = count; total_value_locked = value })

-- The mean duration of a release that comes after `old` others, `count` in all.
abbrev mean_duration : ℕ → ℕ → ℕ → ℕ → Action Error Statistics ℕ
mean_duration mean old count duration t = elim (old == 0) [
  | true ↦ ok (duration, t)
  | false ↦ (do sum ← u64 (saturating_u64 (mean * old) + duration); pure (sum / count)) t
]

-- The overall analytics of a release.
unfoldable pub released_after : ℤ → ℕ → Change
unfolding ◌+ℤ◌
released_after amount duration a = do
  count ← u64 (a.total_escrows_released + 1)
  value ← i128 (a.total_value_released +ℤ amount)
  mean ← mean_duration a.avg_escrow_duration_seconds a.total_escrows_released count duration
  pure (record a {
    total_escrows_released = count;
    total_value_released = value;
    avg_escrow_duration_seconds = mean;
  })

-- The analytics of a release by address.
unfoldable pub released_value : ℤ → Change
unfolding ◌+ℤ◌
released_value amount a = do
  count ← u64 (a.total_escrows_released + 1)
  value ← i128 (a.total_value_released +ℤ amount)
  pure (record a { total_escrows_released = count; total_value_released = value })

-- Disputes in basis points of the escrows created; neither product nor quotient leaves an `i128`.
abbrev pub dispute_rate : ℕ → ℕ → ℤ
dispute_rate disputes created = if ltb 0 created then pos (disputes * 10000 / created) else pos 0

unfoldable pub disputed_overall : Change
disputed_overall a = do
  count ← u64 (a.total_disputes + 1)
  pure (record a {
    total_disputes = count;
    dispute_rate_bps = dispute_rate count a.total_escrows_created;
  })

unfoldable pub disputed_once : Change
disputed_once a = do count ← u64 (a.total_disputes + 1); pure (record a { total_disputes = count })

unfoldable pub resolved_overall : Change
resolved_overall a = do
  count ← u64 (a.total_resolutions + 1)
  pure (record a {
    total_resolutions = count;
    dispute_rate_bps = dispute_rate a.total_disputes a.total_escrows_created;
  })

unfoldable pub resolved_once : Change
resolved_once a = do
  count ← u64 (a.total_resolutions + 1)
  pure (record a { total_resolutions = count })

-- A change overall, of one customer and of one merchant, in that order.
unfoldable pub update_all : Change → Change → Address → Address → Action Error Statistics Unit
unfolding update_overall update_customer_analytics update_merchant_analytics
update_all overall each customer merchant = do
  update_overall overall
  update_customer_analytics customer each
  update_merchant_analytics merchant each
