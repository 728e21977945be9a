-- ===== src/Definitions.antt =====
-- internal/definitions: the selectors of a journey, product versions, tool aliases, and the
-- compilation of the tools and the policies of journeys.
pub mod Versions
pub mod Compose
pub mod Order
pub mod Aliases
pub mod Tools
pub mod Selected
pub mod Policies
pub mod Conflicts
pub mod OnePolicy
pub mod PolicyExamples
pub mod Examples
