-- ===== src/Tests/Delays.antt =====
-- A run of the theorem on the backoff: the third attempt of a connection that starts at a second.
use crypto_screener.Base.{◌*◌}
use crypto_screener.Base.Time.{second}
use crypto_screener.Retry.{Backoff}

abbrev third : Backoff
third = record { base = second; max = 30 * second; attempt = 2 }
