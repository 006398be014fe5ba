-- ===== src/Refund/Vouchers/Rules.antt =====
-- A voucher is redeemed once, by its customer, in time.
