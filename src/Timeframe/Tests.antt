-- ===== src/Timeframe/Tests.antt =====
-- Concrete timeframes.
