-- ===== src/Tests.antt =====
-- The theorems at concrete inputs, on the concrete platform of Platform/Mock.antt.
pub mod Fixtures
pub mod NewDealer
pub mod Scenarios
pub mod DealerExamples
pub mod MigratableExamples
pub mod SystemExamples
pub mod MessageExamples
pub mod SaleExamples
pub mod MigrationScenarios
pub mod MessageScenarios
pub mod SchemaExamples
pub mod RefusalExamples
pub mod HistoryExamples
