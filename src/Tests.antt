-- ===== src/Tests.antt =====
-- Runs of the code at concrete inputs, and each theorem at an input that meets its hypotheses.
mod Thousandths
mod CacheTests
mod RateLimitTests
mod AccountsTests
mod NotificationsTests
mod ForecastTests
mod FollowedTests
mod ElectionsTests
mod HydrographyTests
mod MapTests
mod DeforestationTests
mod JobRunsTests
