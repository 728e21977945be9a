-- ===== src/Catalog.antt =====
-- internal/catalog: from a journey's reviewed selectors and the tools that an endpoint advertises to
-- the tools that the model may call.
pub mod Descriptors
pub mod Selecting
pub mod Resolving
pub mod Groups
pub mod Names
pub mod Founded
pub mod Aliased
pub mod Choosing
pub mod Offered
pub mod Resolved
pub mod Policies
pub mod Noted
pub mod Agreed
pub mod Stable
pub mod Binding
pub mod Bound
pub mod Shown
pub mod Examples
