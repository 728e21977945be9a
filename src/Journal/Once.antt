-- ===== src/Journal/Once.antt =====
-- internal/journal: an approval is dispatched once and an interaction is answered once, whatever the
-- store is asked to do later.
use az_agent_platform_go.Journal.{Journal}
use az_agent_platform_go.Journal.Held.{Held}
