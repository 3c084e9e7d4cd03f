-- ===== src/Core/Invoke.antt =====
-- internal/core/invoke: plans, the policy that they must pass, and their execution.
pub mod Plan
pub mod Policy
pub mod Direct
