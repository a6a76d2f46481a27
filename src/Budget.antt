-- ===== src/Budget.antt =====
-- inference/budget.py: prices in Budget/Pricing, the meter in Budget/Meter, the provider wrapper and
-- its concurrent calls in Budget/Provider.
pub mod Pricing
pub mod Meter
pub mod Provider
mod Tests
