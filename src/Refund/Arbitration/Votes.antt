-- ===== src/Refund/Arbitration/Votes.antt =====
-- An arbitrator votes once on a case.
